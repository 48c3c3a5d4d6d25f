-- ===== src/DesktopNative/Aim/Submit.antt =====
-- An input message that is sent goes to a window that is ready for it.
use floe_native_apps.Prelude.{
  ℕ, ◌≤◌, ◌≡◌, refl, subst, Bool, true, false, Option, none, some, List, get, nat_key, arith,
}
use floe_native_apps.DesktopClipboard.{Target}
use floe_native_apps.DesktopNative.{Desktop, Command, is_target, new}
use floe_native_apps.DesktopNative.Records.{is_some}
use floe_native_apps.DesktopNative.Records.Windows.{is_ready, minimized}
use floe_native_apps.DesktopNative.Observe.{Codecs}
use floe_native_apps.DesktopNative.Requests.{submit}
use floe_native_apps.DesktopNative.Steps.{Call, run}
use floe_native_apps.DesktopNative.Aim.{Aims, IsAimed}
use floe_native_apps.DesktopNative.Aim.Run.{run-IsAimed}

-- The target that an epoch may send input to, and what is known of its window.
pub record IsOpen (n id : ℕ) (s : Desktop) (u : Target) : Type 0 where
  pub alive : s.closed ≡ false
  pub epoch : s.epoch ≡ n
  pub bound : 1 ≤ n
  pub current : s.target ≡ some u
  pub same : u.id ≡ id
  pub ready : is_ready u.window s.focus ≡ true
  pub known : is_some (get u.window s.windows) ≡ true
  pub shown : minimized (get u.window s.windows) ≡ false
  pub latest : u.generation ≡ s.generation

target_of :
    (t : Target) (o : Option Target)
    → is_target t o ≡ true
    → (u : Target) × (o ≡ some u) × (u.id ≡ t.id)
target_of t none e = cc
target_of t (some u) e = (u, refl, ground (arith, e))

submit-IsOpen :
    (n : ℕ) (t : Target) (cs : List Command) (ok : Bool) (s : Desktop)
    → IsAimed s
    → (submit n t cs ok s).0 ≡ false
    → (u : Target) × IsOpen n t.id s u
unfolding submit
submit-IsOpen n t cs ok s h e =
    let good : is_target t s.target ≡ true = ground (arith, e) in
    let (u, q, i) = target_of t s.target good in
    let a = subst (λ o. Aims o s.focus s.windows s.generation) q h.aims in
    (
      u,
      record {
        alive = ground (arith, e);
        epoch = ground (arith, e);
        bound = ground (arith, e);
        current = q;
        same = i;
        ready = a.0;
        known = a.1;
        shown = a.2;
        latest = a.3;
      },
    )

module _ (codecs : Codecs) where
  -- After any records and calls, `submit` that does not raise was called for the epoch in force, on an
  -- object that is not closed, with the current target; the window of that target is known, is not
  -- minimized and has the focus of an available surface, and the target is of the latest scene.
  pub submit-run :
      (calls : List Call) (n : ℕ) (t : Target) (cs : List Command) (ok : Bool)
      → (submit n t cs ok (run codecs new calls)).0 ≡ false
      → (u : Target) × IsOpen n t.id (run codecs new calls) u
  submit-run calls n t cs ok e =
      submit-IsOpen n t cs ok (run codecs new calls) (run-IsAimed codecs calls) e
