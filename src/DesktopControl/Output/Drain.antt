-- ===== src/DesktopControl/Output/Drain.antt =====
-- Writing keeps the counters of a peer's output.
use floe_native_apps.Prelude.{
  ℕ, ◌+◌, ◌-◌, ◌≤◌, ◌≡◌, min, refl, sym, ap, inl, inr, Bool, true, false, Option, none, some, List,
  [], ◌∷◌, ◌++◌, ltb, ◌==◌, if◌then◌else◌, length, take, drop, arith, subst, Bool-cases,
  length-drop,
}
use floe_native_apps.DesktopControl.Reader.{Bytes, max_message}
use floe_native_apps.DesktopControl.Output.{
  max_output, max_frame, max_cursor, Completed, nothing, frame, cursor, Entry, Peer, new, Answer,
  takes, blocks, fails, finish, took, round, write_in, write, Call, authenticates, shuts, sends,
  sends_frame, sends_cursor, writes, step, run,
}
use floe_native_apps.DesktopControl.Output.Account.{
  bit, IsAccounted, total_bound, shut-IsAccounted, send-IsAccounted, send_frame-IsAccounted,
  send_cursor-IsAccounted,
}

-- The peer with the entry `e` in front of its queue.
with_first : Entry → List Entry → Peer → Peer
with_first e rest p = record p { output = e ∷ rest }

finished :
    (c : Completed) (n : ℕ) (b : Bool) (bs : Bytes) (rest : List Entry) (p : Peer)
    → n ≡ length bs
    → IsAccounted (with_first (record { bytes = bs; payload = b; completed = c }) rest p)
    → IsAccounted (
        finish c (record p {
          buffered = p.buffered - n;
          control_buffered = if b then p.control_buffered else p.control_buffered - n;
          sent = p.sent ++ take n bs;
          output = rest;
        }))
unfolding with_first
finished nothing n b bs rest p e h = ground arith
finished frame n b bs rest p e h = ground arith
finished cursor n b bs rest p e h = ground arith

shortened :
    (c : Completed) (n : ℕ) (b : Bool) (bs : Bytes) (rest : List Entry) (p : Peer)
    → n ≤ length bs
    → IsAccounted (with_first (record { bytes = bs; payload = b; completed = c }) rest p)
    → IsAccounted (record p {
      buffered = p.buffered - n;
      control_buffered = if b then p.control_buffered else p.control_buffered - n;
      sent = p.sent ++ take n bs;
      output = record { bytes = drop n bs; payload = b; completed = c } ∷ rest;
    })
unfolding with_first
shortened c n b bs rest p l h = ground (arith, length-drop n bs)

took-IsAccounted :
    (n : ℕ) (e : Entry) (rest : List Entry) (p : Peer)
    → n ≤ length e.bytes
    → IsAccounted (with_first e rest p)
    → IsAccounted (took n e rest p)
unfolding took
took-IsAccounted n e rest p l h = elim (Bool-cases (n == length e.bytes)) [
  | inl b ↦ simp b (finished e.completed n e.payload e.bytes rest p (ground arith) h)
  | inr b ↦ simp b (shortened e.completed n e.payload e.bytes rest p l h)
]

first_of :
    (e : Entry) (rest : List Entry) (p : Peer) → p.output ≡ e ∷ rest → with_first e rest p ≡ p
unfolding with_first
first_of e rest p h = ap (λ x. record p { output = x }) (sym h)

round-IsAccounted :
    (a : Answer) (n : ℕ) (es : List Entry) (p : Peer)
    → p.output ≡ es
    → IsAccounted p
    → IsAccounted (round a n es p).1
unfolding round
round-IsAccounted a n [] p e h = h
round-IsAccounted blocks n (x ∷ es) p e h = h
round-IsAccounted fails n (x ∷ es) p e h = shut-IsAccounted p h
round-IsAccounted (takes k) n (x ∷ es) p e h =
    let count = min k (min n (length x.bytes)) in
    elim (Bool-cases (count == 0)) [
      | inl c ↦ simp c (shut-IsAccounted p h)
      | inr c ↦ simp c (
          took-IsAccounted count x es p (omega arith)
            (subst (λ y. IsAccounted y) (sym (first_of x es p e)) h))
    ]

write_in-IsAccounted :
    (answers : List Answer) (budget : Option ℕ) (p : Peer)
    → IsAccounted p
    → IsAccounted (write_in answers budget p)
unfolding write_in
write_in-IsAccounted [] budget p h = h
write_in-IsAccounted (a ∷ answers) none p h = h
write_in-IsAccounted (a ∷ answers) (some n) p h = elim (Bool-cases (ltb 0 n)) [
  | inl e ↦ simp e (
      write_in-IsAccounted answers (round a n p.output p).0 (round a n p.output p).1
        (round-IsAccounted a n p.output p refl h))
  | inr e ↦ simp e h
]

write-IsAccounted :
    (answers : List Answer) (p : Peer) → IsAccounted p → IsAccounted (write answers p)
unfolding write
write-IsAccounted answers p h = elim (Bool-cases p.closed) [
  | inl e ↦ simp e h
  | inr e ↦ simp e (write_in-IsAccounted answers (some max_message) p h)
]

authenticated-IsAccounted :
    (p : Peer) → IsAccounted p → IsAccounted (record p { authenticated = true })
authenticated-IsAccounted p h = ground arith

step-IsAccounted : (p : Peer) (c : Call) → IsAccounted p → IsAccounted (step p c)
unfolding step
step-IsAccounted p authenticates h = authenticated-IsAccounted p h
step-IsAccounted p shuts h = shut-IsAccounted p h
step-IsAccounted p (sends body) h = send-IsAccounted body p h
step-IsAccounted p (sends_frame body pixels) h = send_frame-IsAccounted body pixels p h
step-IsAccounted p (sends_cursor body pixels) h = send_cursor-IsAccounted body pixels p h
step-IsAccounted p (writes answers) h = write-IsAccounted answers p h

run-IsAccounted_from : (p : Peer) (cs : List Call) → IsAccounted p → IsAccounted (run p cs)
unfolding run
run-IsAccounted_from p [] h = h
run-IsAccounted_from p (c ∷ cs) h = run-IsAccounted_from (step p c) cs (step-IsAccounted p c h)

new-IsAccounted : IsAccounted new
unfolding new
new-IsAccounted = record {
  buffered = refl;
  control_buffered = refl;
  frame_pending = refl;
  cursor_pending = refl;
  fitting = tt;
  control_bound = omega arith;
  records = omega arith;
}

-- Whatever is sent and written on a new peer, the counters are the sizes of what is in its queue, a
-- frame or a cursor is in the queue exactly when its flag is set, and then once, and the queue holds at
-- most 514 records and 2 MiB + 5 of control bytes.
pub run-IsAccounted : (cs : List Call) → IsAccounted (run new cs)
run-IsAccounted cs = run-IsAccounted_from new cs new-IsAccounted

bit_le : (b : Bool) → bit b ≤ 1
bit_le true = omega arith
bit_le false = omega arith

-- A new peer, after any calls, buffers at most its control bytes, one frame and one cursor.
pub buffered-le : (cs : List Call) → (run new cs).buffered ≤ max_output + 5 + max_frame + max_cursor
buffered-le cs =
    let p = run new cs in
    let h = run-IsAccounted cs in
    omega (
      arith,
      total_bound p.output h.fitting,
      bit_le p.frame_pending,
      bit_le p.cursor_pending,
      h.buffered,
      h.control_buffered,
      h.frame_pending,
      h.cursor_pending,
      h.control_bound,
    )
