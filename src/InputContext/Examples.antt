-- ===== src/InputContext/Examples.antt =====
-- The theorems on the contexts at one text that is registered, committed, taken and done.
use floe_native_apps.Prelude.{◌≡◌, ◌≤◌, ◌+◌, refl, true, none, some, List, [], ◌∷◌, get, put}
use floe_native_apps.Python.Text.{Text, codes, text_eq}
use floe_native_apps.InputContext.{
  Operation, Token, Call, commits, takes, registers, new, run, step, register, commit, take, done,
  finish,
}
use floe_native_apps.InputContext.Sequence.{done_taken, was_taken}
use floe_native_apps.InputContext.Completion.{completions, committed, completions-le, holds}

abbrev app : Text
app = codes ":1.5"

abbrev token : Token
token = record { pid = 40; xid = 7; sender = app }

abbrev calls : List Call
calls =
    registers app 40 1 (codes "qt6")
    ∷ commits token (codes "hi") 3 100 true
    ∷ takes app 100 true
    ∷ []

done_taken_example :
    (o : Operation) × ((run new calls).pending ≡ some o)
    × (o.sender ≡ app)
    × (o.sequence ≡ 100)
    × (was_taken o.sender 100 (run new calls).taken ≡ true)
    × ((done app 100 (run new calls)).2 ≡ some (o.completed, none))
    × ((done app 100 (run new calls)).1.pending ≡ none)
unfolding run step register commit take done finish new text_eq get put
done_taken_example = done_taken calls app 100 refl

completions-le_example :
    completions 3 new calls + holds 3 (run new calls).pending ≤ committed 3 calls
completions-le_example = completions-le 3 calls
