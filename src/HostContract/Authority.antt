-- ===== src/HostContract/Authority.antt =====
-- `DesktopAuthority` of host_desktop_contract.py: which generation of the desktop may receive input.
-- A method that raises leaves the object as it was, so an error carries no state.
pub mod Invariant
pub mod Evidence
use floe_native_apps.Prelude.{
  ℕ, suc, ◌+◌, max, ◌≡◌, Bool, true, false, not, ◌&&◌, ◌||◌, Option, none, some, List, [], ◌∷◌, ltb,
  leb, ◌==◌, if◌then◌else◌, length, Result, ok, err,
}
use floe_native_apps.Python.Text.{Text, codes, text_eq}
use floe_native_apps.Python.Value.{Value, text, eq_nat}
use floe_native_apps.HostContract.{
  ErrorCode, invalid_argument, stale_desktop, invalid_frame, view_only, integer, max_safe,
}

pub data Mode : Type 0 where
  view control : Mode

-- The states that the methods test by name; `reason` is any other text given to `revoke`.
pub data DesktopState : Type 0 where
  disconnected active locked : DesktopState
  reason : Text → DesktopState

pub record Authority : Type 0 where
  pub generation : ℕ
  pub display : Option Text
  pub mode : Mode
  pub state : DesktopState
  pub last_sent : ℕ
  pub last_painted : ℕ
  pub locked_frame : ℕ

unfoldable pub new : Authority
new = record {
  generation = 0;
  display = none;
  mode = view;
  state = disconnected;
  last_sent = 0;
  last_painted = 0;
  locked_frame = 0;
}

-- `mode in ('view', 'control')`.
unfoldable pub mode_value : Value → Option Mode
mode_value (text t) =
    if text_eq t (codes "view")
    then some view
    else if text_eq t (codes "control")
    then some control
    else none
mode_value _ = none

-- `isinstance(display, str) and 0 < len(display) <= 160`.
unfoldable pub display_value : Value → Option Text
display_value (text t) = if ltb 0 (length t) && leb (length t) 160 then some t else none
display_value _ = none

abbrev is_active : DesktopState → Bool
is_active active = true
is_active _ = false

abbrev is_locked : DesktopState → Bool
is_locked locked = true
is_locked _ = false

abbrev is_control : Mode → Bool
is_control control = true
is_control view = false

bind_checked : Option Text → Option Mode → Authority → Result ErrorCode (ℕ × Authority)
bind_checked (some d) (some m) s = ok (
  s.generation + 1,
  record {
    generation = s.generation + 1;
    display = some d;
    mode = m;
    state = active;
    last_sent = 0;
    last_painted = 0;
    locked_frame = 0;
  },
)
bind_checked _ _ s = err invalid_argument

-- The new generation, and the bound authority.
unfoldable pub bind : Value → Value → Authority → Result ErrorCode (ℕ × Authority)
unfolding bind_checked
bind display mode s = bind_checked (display_value display) (mode_value mode) s

unfoldable pub revoke : DesktopState → Authority → Authority
revoke state s = record s {
  generation = s.generation + 1;
  state = state;
  last_sent = 0;
  last_painted = 0;
  locked_frame = 0;
}

unfoldable pub bind_locked_frame : Value → Authority → Result ErrorCode Authority
bind_locked_frame frame s = elim (integer frame 1 max_safe) [
  | none ↦ err stale_desktop
  | some f ↦ if is_locked s.state then ok (record s { locked_frame = f }) else err stale_desktop
]

-- Raises, or returns with nothing changed.
unfoldable pub unlock_input : Value → Value → Authority → Result ErrorCode (Unit {0})
unlock_input generation frame s =
    if is_locked s.state && eq_nat generation s.generation && eq_nat frame s.locked_frame
    then ok tt
    else err stale_desktop

unfoldable pub sent : Value → Authority → Result ErrorCode Authority
sent frame s = elim (integer frame (s.last_sent + 1) max_safe) [
  | none ↦ err invalid_frame
  | some f ↦ ok (record s { last_sent = f })
]

unfoldable pub paint : Value → Value → Authority → Result ErrorCode Authority
paint generation frame s = elim (integer frame (max 1 s.last_painted) s.last_sent) [
  | none ↦ err stale_desktop
  | some f ↦
      if is_active s.state && eq_nat generation s.generation
      then ok (record s { last_painted = f })
      else err stale_desktop
]

-- Raises, or returns with nothing changed.
unfoldable pub input : Value → Authority → Result ErrorCode (Unit {0})
input generation s =
    if not (is_active s.state && eq_nat generation s.generation && not (s.last_painted == 0))
    then err stale_desktop
    else if is_control s.mode
    then ok tt
    else err view_only

-- One call of a method that may change the object, with the arguments it is given.
pub data Call : Type 0 where
  binds : Value → Value → Call
  revokes : DesktopState → Call
  binds_locked_frame : Value → Call
  sends : Value → Call
  paints : Value → Value → Call

-- The object after a call: a call that raises changes nothing.
abbrev pub after : Authority → Result ErrorCode Authority → Authority
after s (ok t) = t
after s (err e) = s

abbrev pub after_bind : Authority → Result ErrorCode (ℕ × Authority) → Authority
after_bind s (ok (g, t)) = t
after_bind s (err e) = s

unfoldable pub step : Authority → Call → Authority
unfolding bind revoke bind_locked_frame sent paint
step s (binds d m) = after_bind s (bind d m s)
step s (revokes st) = revoke st s
step s (binds_locked_frame f) = after s (bind_locked_frame f s)
step s (sends f) = after s (sent f s)
step s (paints g f) = after s (paint g f s)

-- The calls are listed in the order in which they are made.
unfoldable pub run : Authority → List Call → Authority
run s [] = s
run s (c ∷ cs) = run (step s c) cs
