-- ===== src/DesktopClipboard/Examples.antt =====
-- The theorem on the clipboard at a publication that the channel confirms.
use floe_native_apps.Prelude.{ℕ, ◌+◌, ◌*◌, ◌-◌, ◌≤◌, ◌≡◌, refl, false, Option, some, List, [], ◌∷◌}
use floe_native_apps.Python.Int.{ℤ, pos}
use floe_native_apps.Python.Text.{Text, codes, text_eq, encode}
use floe_native_apps.Python.Value.{text}
use floe_native_apps.DesktopClipboard.{
  Target, Native, submitted, lost, changed, new, commit, conclude, close, token, valid,
}
use floe_native_apps.DesktopClipboard.Observe.{
  Call, commits, observes, closes, run, step, observe, observe_state, observe_data, state_fields,
  then_pump,
}
use floe_native_apps.DesktopClipboard.Settled.{
  completions, committed, lost_in, holds, completions-committed,
}

-- Decimal digits.
number_in : ℕ → Text → Option ℤ
number_in n [] = some (pos n)
number_in n (c ∷ cs) = number_in (n * 10 + (c - 48)) cs

abbrev number : Text → Option ℤ
number = number_in 0

abbrev decode : List ℕ → Option Text
decode = λ bytes. some bytes

abbrev target : Target
target = record { id = 1; window = 5; generation = 2 }

abbrev native : Native
native = record { closed = false; epoch = 3; target = some target }

abbrev calls : List Call
calls =
    commits (record { id = 9; epoch = 3; target = target }) (text (codes "hi")) 4 submitted native
    ∷ observes 10 (codes "clipboard-published" ∷ codes "1" ∷ []) native
    ∷ closes
    ∷ []

completions-committed_example :
    completions number decode 4 new calls + holds 4 (run number decode new calls).pending
    ≤ committed 4 calls + lost_in 4 calls
completions-committed_example = completions-committed number decode 4 calls

abbrev lost_calls : List Call
lost_calls =
    commits (record { id = 9; epoch = 3; target = target }) (text (codes "hi")) 4 lost native ∷ []

-- A submission that closes the channel completes the publication twice.
completed_twice : completions number decode 4 new lost_calls ≡ 2
unfolding completions step commit conclude close valid new encode
completed_twice = refl

abbrev selection : List Call
selection =
    observes 10
      (codes "clipboard-state" ∷ codes "1" ∷ codes "3" ∷ codes "2" ∷ codes "5" ∷ codes "2" ∷ [])
      native
    ∷ []

-- A selection of two bytes is read in one chunk.
selection_read :
    (observe number decode 11
      (codes "clipboard-data" ∷ codes "1" ∷ codes "0" ∷ codes "6869" ∷ [])
      native
      (run number decode new selection)).2
    ≡ changed target 3 (some (codes "hi")) ∷ []
unfolding observe run step text_eq number_in new observe_state state_fields token then_pump
    observe_data valid
selection_read = refl
