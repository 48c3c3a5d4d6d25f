-- ===== src/InputOrder/Examples.antt =====
-- The theorems on the scheduler with concrete callbacks: owner 9 is gone, operation 0 is ordinary
-- input, 7 raises, any other is a text that its adapter completes later, and the world counts the calls.
use floe_native_apps.Prelude.{
  ℕ, ◌+◌, ◌≡◌, refl, not, false, none, some, List, [], ◌∷◌, ◌++◌, ◌==◌, if◌then◌else◌, Sub,
}
use floe_native_apps.InputOrder.{
  Env, Call, enqueues, completes, deferred, new, run, step, drain, loop_in, turn, deliver,
  after_commit, enqueue, invalidates, invalidate, invalidated, retire, cancel_pending, cancel_in,
  others, complete, complete_in, settle, report, clear_timer, expire,
}
use floe_native_apps.InputOrder.Fifo.{arrivals, run-Sub}
use floe_native_apps.InputOrder.Steady.{run-timer, ended_once}

abbrev callbacks : Env ℕ ℕ
callbacks = record {
  available = λ o w. not (o == 9);
  admit = λ o op w. (
    w + 1,
    [],
    if op == 0 then none else some (record { sequence = op; adapter = 1; token = 2; text = [] }),
  );
  admit_raises = λ o op w. op == 7;
  result = λ o n e w. (w + 1, []);
  after_result = λ o n e w v. v;
  result_raises = λ o n e w. false;
  overflow = λ o w. (w + 1, []);
  timeout_add = λ ms w. (w + 1, w + 1);
  timeout_remove = λ t w. w + 1;
  commit = λ a t text w. (w + 1, [], deferred);
  cancel = λ a t w. w + 1;
}

abbrev calls : List (Call ℕ ℕ)
calls = enqueues 1 5 ∷ enqueues 2 0 ∷ enqueues 9 0 ∷ []

run-Sub_example :
    Sub
      ((run callbacks (new 0) calls).admitted ++ (run callbacks (new 0) calls).queue)
      (arrivals calls)
run-Sub_example = run-Sub callbacks 0 calls

run-timer_example : (run callbacks (new 0) (enqueues 1 5 ∷ invalidates 1 ∷ [])).timer ≡ 0
unfolding run step enqueue drain loop_in turn deliver after_commit invalidate invalidated retire
    cancel_pending cancel_in clear_timer others new
run-timer_example = run-timer callbacks 0 (enqueues 1 5 ∷ invalidates 1 ∷ []) refl

ended_once_example :
    (complete callbacks 0 none
        (run callbacks (run callbacks (run callbacks (new 0) calls) (completes 0 none ∷ [])) calls)
      ≡ run callbacks (run callbacks (run callbacks (new 0) calls) (completes 0 none ∷ [])) calls)
    × (expire callbacks 0 (
          run callbacks (run callbacks (run callbacks (new 0) calls) (completes 0 none ∷ [])) calls)
        ≡ run callbacks (run callbacks (run callbacks (new 0) calls) (completes 0 none ∷ [])) calls)
unfolding run step enqueue drain loop_in turn deliver after_commit complete complete_in settle
    report clear_timer new
ended_once_example = ended_once callbacks 0 calls (completes 0 none ∷ []) calls 0 none refl refl

abbrev raising : List (Call ℕ ℕ)
raising = enqueues 1 5 ∷ enqueues 1 7 ∷ enqueues 2 0 ∷ completes 0 none ∷ []

-- An exception of `admit` leaves what follows in the queue, with nothing pending.
left_by_exception : (run callbacks (new 0) raising).queue ≡ (2, 0) ∷ []
unfolding run step enqueue drain loop_in turn deliver after_commit complete complete_in settle
    report clear_timer new
left_by_exception = refl
