-- ===== src/HostWire/Examples.antt =====
-- The theorem on the writer at two packets of which one is written before a close that drops the other.
use floe_native_apps.Prelude.{◌≡◌, refl, false, some, List, [], ◌∷◌, ◌++◌}
use floe_native_apps.HostWire.{aborted, new, send}
use floe_native_apps.HostWire.Steps.{
  Step, sends, gets, settles, advances, writes, closes, step, run, get, write, settle, close,
  advance, take_pending,
}
use floe_native_apps.HostWire.Pending.{IsCounted, run-IsCounted}

abbrev calls : List Step
calls =
    sends (1 ∷ 2 ∷ 3 ∷ [])
    ∷ sends (4 ∷ 5 ∷ [])
    ∷ gets
    ∷ writes (some 2)
    ∷ writes (some 1)
    ∷ settles
    ∷ closes false
    ∷ advances
    ∷ []

run-IsCounted_example : IsCounted (run (new 4 64) calls)
run-IsCounted_example = run-IsCounted 4 64 calls

-- The worker takes the last value between the test of `close` and its `get_nowait`, which raises.
race_aborts : (run (new 4 64) (calls ++ gets ∷ advances ∷ [])).phase ≡ aborted
unfolding run step new send get write settle close advance take_pending
race_aborts = refl
