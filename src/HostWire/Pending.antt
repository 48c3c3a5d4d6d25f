-- ===== src/HostWire/Pending.antt =====
-- The bytes that wait for the worker are counted, and bounded.
use floe_native_apps.Prelude.{
  ℕ, ◌+◌, ◌≤◌, ◌≡◌, refl, Bool, true, false, Option, none, some, List, [], ◌∷◌, ◌++◌, length, arith,
  Bool-cases, inl, inr,
}
use floe_native_apps.DesktopControl.Reader.{Bytes}
use floe_native_apps.HostWire.{
  Worker, waits, writes_rest, fails, ended, Closing, uncalled, emptying, taking, marking, flushing,
  removing, placing, finished, aborted, Writer, new, is_locked, send,
}
use floe_native_apps.HostWire.Steps.{
  get, write, settle, close, take_pending, remove, advance, Step, sends, gets, settles, advances,
  writes, closes, step, run,
}

-- The bytes of the values in the queue.
abbrev pub total : List (Option Bytes) → ℕ
total [] = 0
total (none ∷ q) = total q
total (some v ∷ q) = length v + total q

-- The bytes of the value that the worker holds.
abbrev pub held : Worker → ℕ
held (writes_rest value left) = length value
held (fails value) = length value
held _ = 0

-- `pending` counts at least the bytes that wait, exactly these while the writer is open, and at most
-- `maximum`.
pub record IsCounted (s : Writer) : Type 0 where
  pub counted : total s.queue + held s.worker ≤ s.pending
  pub bounded : s.pending ≤ s.maximum
  pub exact : s.closed ≡ false → s.pending ≡ total s.queue + held s.worker

abbrev is_called : Closing → Bool
is_called uncalled = false
is_called _ = true

-- A writer on which `close` was called is closed.
abbrev IsClosing : Writer → Type 0
IsClosing s = is_called s.phase ≡ true → s.closed ≡ true

total-append :
    (q : List (Option Bytes)) (x : Option Bytes) → total (q ++ x ∷ []) ≡ total q + total (x ∷ [])
total-append [] none = omega arith
total-append [] (some v) = omega arith
total-append (none ∷ q) x = total-append q x
total-append (some v ∷ q) x = omega (arith, total-append q x)

send-IsCounted : (v : Bytes) (s : Writer) → IsCounted s → IsCounted (send v s).0
unfolding send
send-IsCounted v s h = ground (arith, total-append s.queue (some v))

get-IsCounted :
    (w : Worker) (q : List (Option Bytes)) (s : Writer)
    → s.worker ≡ w
    → s.queue ≡ q
    → IsCounted s
    → IsCounted (get w q s)
unfolding get
get-IsCounted waits [] s e f h = h
get-IsCounted waits (none ∷ q) s e f h = ground arith
get-IsCounted waits (some v ∷ q) s e f h = ground arith
get-IsCounted (writes_rest v l) q s e f h = h
get-IsCounted (fails v) q s e f h = h
get-IsCounted ended q s e f h = h

write-IsCounted :
    (n : Option ℕ) (w : Worker) (s : Writer) → s.worker ≡ w → IsCounted s → IsCounted (write n w s)
unfolding write
write-IsCounted none (writes_rest v []) s e h = h
write-IsCounted none (writes_rest v (b ∷ l)) s e h = ground arith
write-IsCounted (some n) (writes_rest v []) s e h = h
write-IsCounted (some n) (writes_rest v (b ∷ l)) s e h = ground arith
write-IsCounted none waits s e h = h
write-IsCounted none (fails v) s e h = h
write-IsCounted none ended s e h = h
write-IsCounted (some n) waits s e h = h
write-IsCounted (some n) (fails v) s e h = h
write-IsCounted (some n) ended s e h = h

settle-IsCounted : (w : Worker) (s : Writer) → s.worker ≡ w → IsCounted s → IsCounted (settle w s).0
unfolding settle
settle-IsCounted (writes_rest v []) s e h = ground arith
settle-IsCounted (writes_rest v (b ∷ l)) s e h = h
settle-IsCounted (fails v) s e h = ground arith
settle-IsCounted waits s e h = h
settle-IsCounted ended s e h = h

close-IsCounted :
    (drain : Bool) (p : Closing) (s : Writer) → IsCounted s → IsCounted (close drain p s)
unfolding close
close-IsCounted drain p s h = ground arith

take_pending-IsCounted :
    (q : List (Option Bytes)) (s : Writer)
    → s.queue ≡ q
    → s.closed ≡ true
    → IsCounted s
    → IsCounted (take_pending q s)
unfolding take_pending
take_pending-IsCounted [] s e c h = ground arith
take_pending-IsCounted (none ∷ q) s e c h = ground arith
take_pending-IsCounted (some v ∷ q) s e c h = ground arith

remove-IsCounted :
    (q : List (Option Bytes)) (s : Writer)
    → s.queue ≡ q
    → s.closed ≡ true
    → IsCounted s
    → IsCounted (remove q s)
unfolding remove
remove-IsCounted [] s e c h = ground arith
remove-IsCounted (none ∷ q) s e c h = ground arith
remove-IsCounted (some v ∷ q) s e c h = ground arith

advance-IsCounted :
    (p : Closing) (s : Writer)
    → (is_called p ≡ true → s.closed ≡ true)
    → IsCounted s
    → IsCounted (advance p s)
unfolding advance
advance-IsCounted uncalled s c h = h
advance-IsCounted emptying s c h = ground arith
advance-IsCounted taking s c h = take_pending-IsCounted s.queue s refl (c refl) h
advance-IsCounted marking s c h = ground (arith, total-append s.queue none)
advance-IsCounted flushing s c h = ground arith
advance-IsCounted removing s c h = remove-IsCounted s.queue s refl (c refl) h
advance-IsCounted placing s c h = ground (arith, total-append s.queue none)
advance-IsCounted finished s c h = h
advance-IsCounted aborted s c h = h

-- Nothing opens a writer again.
step-closed : (s : Writer) (c : Step) → s.closed ≡ true → (step s c).closed ≡ true
unfolding step send get settle close advance write take_pending remove
step-closed s c h = ground arith

step-IsClosing : (s : Writer) (c : Step) → IsClosing s → IsClosing (step s c)
unfolding step send get settle close advance write take_pending remove
step-IsClosing s c h = ground arith

step-IsCounted : (s : Writer) (c : Step) → IsClosing s → IsCounted s → IsCounted (step s c)
unfolding step
step-IsCounted s gets k h = get-IsCounted s.worker s.queue s refl refl h
step-IsCounted s advances k h = advance-IsCounted s.phase s k h
step-IsCounted s (writes n) k h = write-IsCounted n s.worker s refl h
step-IsCounted s (sends v) k h = elim (Bool-cases (is_locked s.phase)) [
  | inl e ↦ simp e h
  | inr e ↦ simp e (send-IsCounted v s h)
]
step-IsCounted s settles k h = elim (Bool-cases (is_locked s.phase)) [
  | inl e ↦ simp e h
  | inr e ↦ simp e (settle-IsCounted s.worker s refl h)
]
step-IsCounted s (closes d) k h = elim (Bool-cases (is_locked s.phase)) [
  | inl e ↦ simp e h
  | inr e ↦ simp e (close-IsCounted d s.phase s h)
]

run-IsCounted_from :
    (s : Writer) (cs : List Step) → IsClosing s → IsCounted s → IsCounted (run s cs)
unfolding run
run-IsCounted_from s [] k h = h
run-IsCounted_from s (c ∷ cs) k h =
    run-IsCounted_from (step s c) cs (step-IsClosing s c k) (step-IsCounted s c k h)

-- However the steps of the callers of `send` and `close` and of the worker interleave on a new writer,
-- the bytes that wait or are in the worker's hands are never more than `pending`, which is never more
-- than `maximum`, and they are exactly `pending` while the writer is open.
pub run-IsCounted :
    (capacity maximum : ℕ) (cs : List Step) → IsCounted (run (new capacity maximum) cs)
unfolding new
run-IsCounted capacity maximum cs =
    run-IsCounted_from (new capacity maximum) cs (λ e. cc)
      (record { counted = omega arith; bounded = omega arith; exact = λ e. omega arith })
