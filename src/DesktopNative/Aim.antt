-- ===== src/DesktopNative/Aim.antt =====
-- Input goes to a window that is ready, known and not minimized, in the latest scene, or nowhere.
pub mod Records
pub mod Requests
pub mod Run
pub mod Submit
use floe_native_apps.Prelude.{
  ℕ, ◌+◌, ◌≤◌, ◌≡◌, refl, sym, ap, ◌∙◌, subst, Bool, true, false, not, ◌&&◌, ◌||◌, Option, none,
  some, some-injective, List, [], ◌∷◌, ◌==◌, if◌then◌else◌, Dict, get, put, remove, nat_key,
  get-put, get-remove, ==_iff, arith, Bool-cases, Option-cases, inl, inr,
}
use floe_native_apps.Prelude.Options.{◌>>=◌}
use floe_native_apps.Python.Text.{Text}
use floe_native_apps.DesktopClipboard.{Target, max_id}
use floe_native_apps.DesktopNative.{
  NativeWindow, NativeFocus, NativeTextContext, Phase, TextRequest, Desktop, Event, Outcome, new,
  changed, lost, is_minimized,
}
use floe_native_apps.DesktopNative.Records.{natural, is_some, on_fields}
use floe_native_apps.DesktopNative.Records.Windows.{
  window_instance, window_title, surface_instance, surface_retired, set_focus, focus, window_state,
  window_x11, window_retired, is_ready, minimized, scene, aims_at, same_window, focuses,
}
use floe_native_apps.Python.Number.{int_of_text}
use floe_native_apps.DesktopNative.Fields.{
  protocol_of, pid_of, one, two, context_fields, surrounding_fields, display_fields, title_fields,
  focus_fields, window_fields, barrier_fields,
}
use floe_native_apps.DesktopNative.Observe.{
  Kind, native_version, clipboard_record, cursor_record, reply, context, context_retired,
  surrounding, display, instance_of, title_of, surface_of, surface_gone, focused, state, binding,
  window_gone, scene_of, scene_barrier, damaged, ignored, Codecs, branch, observe_kind, observe,
  kind_of,
}
use floe_native_apps.DesktopNative.Records.Texts.{
  reply_in, text_reply, text_context, text_context_retired, native_display, scene_at,
}

-- The target is in the scene of this generation, in a window that has the ready focus.
abbrev pub Aims : Option Target → Option NativeFocus → Dict ℕ NativeWindow → ℕ → Type 0
Aims none f windows generation = Unit
Aims (some t) f windows generation =
    (is_ready t.window f ≡ true)
    × (is_some (get t.window windows) ≡ true)
    × (minimized (get t.window windows) ≡ false)
    × (t.generation ≡ generation)

pub record IsAimed (s : Desktop) : Type 0 where
  pub aims : Aims s.target s.focus s.windows s.generation
  pub shut : s.closed ≡ true → s.target ≡ none
  pub nonzero : is_some (get 0 s.windows) ≡ false

pub lost-IsAimed : (s : Desktop) → IsAimed s → IsAimed (lost s).0
unfolding lost changed
lost-IsAimed s h = elim (Bool-cases s.closed) [
  | inl e ↦ simp e h
  | inr e ↦ simp e (record { aims = tt; shut = λ c. refl; nonzero = h.nonzero })
]

pub window_instance-IsAimed :
    (wid : ℕ) (s : Desktop) → IsAimed s → IsAimed (window_instance wid s).1
unfolding window_instance
window_instance-IsAimed wid s h = ground arith

pub window_title-IsAimed : (x : ℕ × Text) (s : Desktop) → IsAimed s → IsAimed (window_title x s).1
unfolding window_title
window_title-IsAimed (wid, title) s h = ground arith

pub surface_instance-IsAimed :
    (sid : ℕ) (s : Desktop) → IsAimed s → IsAimed (surface_instance sid s).1
unfolding surface_instance
surface_instance-IsAimed sid s h = ground arith

pub surface_retired-IsAimed :
    (sid : ℕ) (s : Desktop) → IsAimed s → IsAimed (surface_retired sid s).1
unfolding surface_retired changed
surface_retired-IsAimed sid s h = ground arith

set_focus-IsAimed : (f : Option NativeFocus) (s : Desktop) → IsAimed s → IsAimed (set_focus f s).1
unfolding set_focus changed
set_focus-IsAimed f s h = ground arith

pub focus-IsAimed : (x : ℕ × ℕ × ℕ × ℕ × ℕ) (s : Desktop) → IsAimed s → IsAimed (focus x s).1
unfolding focus
focus-IsAimed (sid, wid, pid, surface, ready) s h =
    let f : NativeFocus = record {
      identity = sid;
      window = wid;
      pid = pid;
      surface = surface;
      available = not (ready == 0);
    } in
    ground (arith, set_focus-IsAimed none s h, set_focus-IsAimed (some f) s h)

-- A window that is not aimed at, or that stays visible, may change.
Aims-put :
    (t : Option Target) (f : Option NativeFocus) (w : NativeWindow) (d : Dict ℕ NativeWindow)
    (g : ℕ)
    → (aims_at w.window t && is_minimized w) ≡ false
    → Aims t f d g
    → Aims t f (put w.window w d) g
Aims-put none f w d g e h = tt
Aims-put (some t) f w d g e h =
    rw (get-put w.window t.window w d) (on_window (w.window == t.window) refl)
  where
    on_window :
        (b : Bool)
        → (w.window == t.window) ≡ b
        → (is_ready t.window f ≡ true)
          × (is_some (if b then some w else get t.window d) ≡ true)
          × (minimized (if b then some w else get t.window d) ≡ false)
          × (t.generation ≡ g)
    on_window true k = (h.0, refl, ground arith, h.3)
    on_window false k = h

-- A window that did not change is as visible as it was.
same-visible :
    (t : Option Target) (f : Option NativeFocus) (w : NativeWindow) (d : Dict ℕ NativeWindow)
    (g : ℕ)
    → same_window w (get w.window d) ≡ true
    → Aims t f d g
    → (aims_at w.window t && is_minimized w) ≡ false
same-visible none f w d g e h = refl
same-visible (some t) f w d g e h = elim (Bool-cases (t.window == w.window)) [
  | inr k ↦ ground arith
  | inl k ↦
      on_previous (get w.window d) e
        (subst (λ x. minimized (get x d) ≡ false) ((==_iff t.window w.window).0 k) h.2)
]
  where
    on_previous :
        (x : Option NativeWindow)
        → same_window w x ≡ true
        → minimized x ≡ false
        → (aims_at w.window (some t) && is_minimized w) ≡ false
    on_previous none e m = cc
    on_previous (some v) e m = ground arith

pub window_state-IsAimed :
    (w : NativeWindow) (s : Desktop) → 1 ≤ w.window → IsAimed s → IsAimed (window_state w s).1
unfolding window_state changed
window_state-IsAimed w s l h =
    let zero_free = get-put w.window 0 w s.windows in
    let stays = Aims-put s.target s.focus w s.windows s.generation in
    let same = same-visible s.target s.focus w s.windows s.generation in
    elim (Bool-cases (same_window w (get w.window s.windows))) [
      | inl e ↦ let kept = stays (same e h.aims) h.aims in ground (arith, kept, zero_free)
      | inr e ↦ elim (Bool-cases (aims_at w.window s.target && is_minimized w)) [
        | inl m ↦ ground (arith, zero_free)
        | inr m ↦ let kept = stays m h.aims in ground (arith, kept, zero_free)
      ]
    ]

pub window_x11-IsAimed : (x : ℕ × ℕ) (s : Desktop) → IsAimed s → IsAimed (window_x11 x s).1
unfolding window_x11
window_x11-IsAimed (wid, xid) s h = ground arith

-- A window that is not aimed at may be removed.
Aims-remove :
    (t : Option Target) (f : Option NativeFocus) (wid : ℕ) (d : Dict ℕ NativeWindow) (g : ℕ)
    → aims_at wid t ≡ false
    → Aims t f d g
    → Aims t f (remove wid d) g
Aims-remove none f wid d g e h = tt
Aims-remove (some t) f wid d g e h = rw (get-remove wid t.window d) (ground arith)

pub window_retired-IsAimed : (wid : ℕ) (s : Desktop) → IsAimed s → IsAimed (window_retired wid s).1
unfolding window_retired changed
window_retired-IsAimed wid s h =
    let zero_free = get-remove wid 0 s.windows in
    elim (Bool-cases (aims_at wid s.target)) [
      | inl e ↦ ground (arith, zero_free)
      | inr e ↦
          let kept = Aims-remove s.target s.focus wid s.windows s.generation e h.aims in
          ground (arith, kept, zero_free)
    ]

pub scene-IsAimed : (x : ℕ × ℕ) (s : Desktop) → s.closed ≡ false → IsAimed s → IsAimed (scene x s).1
unfolding scene changed
scene-IsAimed (generation, wid) s c h =
    let known = λ (z : wid ≡ 0). subst (λ n. is_some (get n s.windows) ≡ false) (sym z) h.nonzero in
    elim (Bool-cases (wid == 0)) [
      | inl z ↦ let k = known ((==_iff wid 0).0 z) in ground arith
      | inr z ↦ ground arith
    ]

pub text_reply-IsAimed :
    (p : Phase) (b : Bool) (n : ℕ) (s : Desktop) → IsAimed s → IsAimed (text_reply p b n s).1
unfolding text_reply
text_reply-IsAimed p b n s h = ground arith

pub text_context-IsAimed :
    (c : NativeTextContext) (s : Desktop) → IsAimed s → IsAimed (text_context c s).1
unfolding text_context
text_context-IsAimed c s h = ground arith

pub text_context_retired-IsAimed :
    (n : ℕ) (s : Desktop) → IsAimed s → IsAimed (text_context_retired n s).1
unfolding text_context_retired
text_context_retired-IsAimed n s h = record { aims = h.aims; shut = h.shut; nonzero = h.nonzero }

pub native_display-IsAimed :
    (d : Option Text) (s : Desktop) → IsAimed s → IsAimed (native_display d s).1
unfolding native_display
native_display-IsAimed d s h = ground arith

pub scene_at-IsAimed : (x : ℕ × ℕ × ℕ) (s : Desktop) → IsAimed s → IsAimed (scene_at x s).1
unfolding scene_at
scene_at-IsAimed (n, g, w) s h = ground arith
