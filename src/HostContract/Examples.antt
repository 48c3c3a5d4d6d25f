-- ===== src/HostContract/Examples.antt =====
-- The theorems on `DesktopAuthority` at one session: a bind for control, a frame sent and painted; and
-- those on `FrameCredit` at a credit of two frames.
use floe_native_apps.Prelude.{Bool, List, [], ◌∷◌, ◌≡◌, refl, err}
use floe_native_apps.Python.Int.{pos}
use floe_native_apps.Python.Text.{codes, text_eq}
use floe_native_apps.Python.Value.{int, text, eq_nat}
use floe_native_apps.HostContract.{stale_desktop, integer}
use floe_native_apps.HostContract.Authority.{
  active, control, reason, Call, binds, sends, paints, new, run, step, bind, sent, paint,
  display_value, mode_value, input, revoke,
}
use floe_native_apps.HostContract.Credit
use floe_native_apps.HostContract.Authority.Invariant.{
  IsConsistent, run-IsConsistent, new-IsConsistent,
}
use floe_native_apps.HostContract.Authority.Evidence.{Shown, input-Shown, input-revoke}

abbrev session : List Call
session =
    binds (text (codes "eDP-1")) (text (codes "control"))
    ∷ sends (int (pos 1))
    ∷ sends (int (pos 2))
    ∷ paints (int (pos 1)) (int (pos 1))
    ∷ []

run-IsConsistent_example : IsConsistent (run new session)
run-IsConsistent_example = run-IsConsistent new session new-IsConsistent

input-Shown_example :
    (eq_nat (int (pos 1)) (run new session).generation ≡ Bool.true)
    × ((run new session).state ≡ active)
    × ((run new session).mode ≡ control)
    × Shown new session
unfolding run step bind sent paint input integer new display_value mode_value text_eq
input-Shown_example = input-Shown (int (pos 1)) session refl

input-revoke_example :
    input (int (pos 1)) (run (revoke (reason (codes "idle")) (run new session)) session)
    ≡ err stale_desktop
unfolding run step bind sent paint integer new display_value mode_value text_eq
input-revoke_example =
    input-revoke (run new session) (reason (codes "idle")) session (int (pos 1)) refl

abbrev credit : Credit.FrameCredit
credit = record { capacity = 2; sequence = 0; acknowledged = 0 }

abbrev frames : List Credit.Call
frames =
    Credit.reserves
    ∷ Credit.reserves
    ∷ Credit.reserves
    ∷ Credit.acknowledges (int (pos 2))
    ∷ Credit.reserves
    ∷ Credit.resets
    ∷ Credit.reserves
    ∷ []

run-IsWithin_example : Credit.IsWithin (Credit.run credit frames)
unfolding Credit.new integer
run-IsWithin_example = Credit.run-IsWithin (int (pos 2)) frames {c = credit} refl

reserved-Consecutive_example : Credit.Consecutive 0 (Credit.reserved credit frames)
reserved-Consecutive_example = Credit.reserved-Consecutive credit frames
