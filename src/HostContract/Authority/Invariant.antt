-- ===== src/HostContract/Authority/Invariant.antt =====
-- What holds of a `DesktopAuthority` between two calls.
use floe_native_apps.Prelude.{ℕ, ◌≤◌, ◌<◌, ◌≡◌, some, List, [], ◌∷◌, arith}
use floe_native_apps.Python.Int.{pos}
use floe_native_apps.Python.Value.{Value, int}
use floe_native_apps.HostContract.{integer, max_safe}
use floe_native_apps.HostContract.Authority.{
  Authority, active, locked, Call, binds, revokes, binds_locked_frame, sends, paints, new, step,
  run,
}

pub record IsConsistent (s : Authority) : Type 0 where
  pub painted_sent : s.last_painted ≤ s.last_sent
  pub painted_active : 0 < s.last_painted → s.state ≡ active
  pub locked_only : 0 < s.locked_frame → s.state ≡ locked
  pub sent_safe : s.last_sent ≤ max_safe
  pub locked_safe : s.locked_frame ≤ max_safe

pub integer_bounds :
    (v : Value) (low high : ℕ) {n : ℕ}
    → integer v low high ≡ some n
    → (v ≡ int (pos n)) × (low ≤ n) × (n ≤ high)
unfolding integer
integer_bounds v low high h = ground arith

pub new-IsConsistent : IsConsistent new
unfolding new
new-IsConsistent = ground arith

-- Every call, accepted or refused, keeps the object consistent.
pub step-IsConsistent : (s : Authority) (c : Call) → IsConsistent s → IsConsistent (step s c)
unfolding step integer
step-IsConsistent s (binds d m) h = ground arith
step-IsConsistent s (revokes st) h = ground arith
step-IsConsistent s (binds_locked_frame f) h = ground arith
step-IsConsistent s (sends f) h = ground arith
step-IsConsistent s (paints g f) h = ground arith

-- A consistent object stays consistent under any calls, so every object that `new` leads to is.
pub run-IsConsistent : (s : Authority) (cs : List Call) → IsConsistent s → IsConsistent (run s cs)
unfolding run
run-IsConsistent s [] h = h
run-IsConsistent s (c ∷ cs) h = run-IsConsistent (step s c) cs (step-IsConsistent s c h)
