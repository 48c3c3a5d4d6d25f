-- ===== src/InputDispatch/Examples.antt =====
-- The theorems on the dispatch with a server of one window, whose adapter takes every text at once.
use floe_native_apps.Prelude.{ℕ, ◌≡◌, refl, true, false, none, some, List, [], ◌∷◌, get, put}
use floe_native_apps.Python.Int.{pos}
use floe_native_apps.Python.Text.{codes, valid_text}
use floe_native_apps.Python.Value.{Value, int, text}
use floe_native_apps.InputOrder.{completed}
use floe_native_apps.InputOrder as Order
use floe_native_apps.InputDispatch.{
  lacks_target, sendable, admit_raises, Host, available, admit, result, after_result, state_of,
}
use floe_native_apps.InputDispatch.Calls.{
  Call, enqueues_text, step, run, new, enqueue_text, packet_fields,
}
use floe_native_apps.InputDispatch.Sequence.{Increasing, delivered_of, run-Increasing, run-failed}

-- The state of the server is the window that has the number 5.
abbrev host : Host ℕ
host = record {
  source = λ o h. some (record { version = 1; uuid = o });
  is_closed = λ o h. false;
  window = λ wid h. some h;
  readonly = λ h. false;
  can_send = λ o x h. true;
  driver = λ h. none;
  focused = λ x h. true;
  context = λ x h. none;
  xim_context = λ x h. some 9;
  clear_keys = λ h. h;
  send = λ o n e h. h;
  close_protocol = λ o h. (h, []);
  handle = λ n o h. (h, []);
  handle_raises = λ n o h. false;
  timeout_add = λ n h. (h, 1);
  timeout_remove = λ n h. h;
  commit = λ a t x h. (h, [], completed none);
  cancel = λ a t h. h;
  shut = λ h. h;
}

abbrev packet : ℕ → List Value
packet n = text (codes "floe-input") ∷ int (pos n) ∷ int (pos 5) ∷ text (codes "a") ∷ []

-- The second packet repeats a sequence, and the third comes after its refusal.
abbrev calls : List (Call ℕ)
calls = enqueues_text 1 (packet 4) ∷ enqueues_text 1 (packet 4) ∷ enqueues_text 1 (packet 6) ∷ []

run-Increasing_example : Increasing (run host (new 3) calls).world.delivered
run-Increasing_example = run-Increasing host 3 calls

one_delivered : (run host (new 3) calls).world.delivered ≡ (1, 4) ∷ []
unfolding run new step enqueue_text get Order.new available packet_fields valid_text Order.enqueue
    Order.drain admit lacks_target sendable admit_raises after_result Order.clear_timer put result
    Order.retire
one_delivered = refl

run-failed_example :
    ((state_of 1 (run host (run host (new 3) calls) calls).world).failed ≡ true)
    × (delivered_of 1 (run host (run host (new 3) calls) calls).world.delivered
        ≡ delivered_of 1 (run host (new 3) calls).world.delivered)
unfolding run new step enqueue_text get Order.new available packet_fields valid_text Order.enqueue
    Order.drain admit lacks_target sendable admit_raises after_result Order.clear_timer put result
    Order.retire
run-failed_example = run-failed host 1 (run host (new 3) calls) calls refl
