-- ===== src/InputOrder/Steady.antt =====
-- What holds of the scheduler between two calls, and that a transaction ends once.
use floe_native_apps.Prelude.{
  ℕ, zero, suc, ◌<◌, ◌≡◌, refl, true, false, Option, none, some, List, [], ◌∷◌, ◌++◌, length, arith,
}
use floe_native_apps.InputOrder.{
  Owner, InputError, Env, Pending, State, Call, queue_limit, clear_timer, loop_in, drain, enqueue,
  complete_in, complete, expire, is_pending, run, is_some, new,
}
use floe_native_apps.InputOrder.Preserve.{Keeps, keep_run}

module _ {W Op : Type 0} (env : Env W Op) where
  -- The timer is armed only while a transaction is pending.
  abbrev pub IsTimed : State W Op → Type 0
  IsTimed s = is_some s.pending ≡ false → s.timer ≡ 0

  IsTimed-Keeps : Keeps env IsTimed
  unfolding clear_timer
  IsTimed-Keeps = record {
    rest = λ s q a c d b w r h. h;
    idle = λ s w h. ground arith;
    begin = λ o d s n w h e. cc;
    ran_out = λ s p e h. ground arith;
  }

  pub run-timer :
      (w : W) (cs : List (Call W Op))
      → is_some (run env (new w) cs).pending ≡ false
      → (run env (new w) cs).timer ≡ 0
  run-timer w cs = keep_run env IsTimed IsTimed-Keeps (new w) cs (unfold new in λ e. refl)

  -- Serials below the counter, of transactions that are over.
  abbrev IsOver : ℕ → State W Op → Type 0
  IsOver n s = (n < s.serial) × (is_pending n s.pending ≡ false)

  IsOver-Keeps : (n : ℕ) → Keeps env (IsOver n)
  unfolding clear_timer
  IsOver-Keeps n = record {
    rest = λ s q a c d b w r h. h;
    idle = λ s w h. (ground arith, refl);
    begin = λ o d s m w h. (omega arith, ground arith);
    ran_out = λ s p e h. h;
  }

  abbrev IsBegun : ℕ → State W Op → Type 0
  IsBegun n s = n < s.serial

  IsBegun-Keeps : (n : ℕ) → Keeps env (IsBegun n)
  unfolding clear_timer
  IsBegun-Keeps n = record {
    rest = λ s q a c d b w r h. h;
    idle = λ s w h. ground arith;
    begin = λ o d s m w h. omega arith;
    ran_out = λ s p e h. h;
  }

  abbrev IsFresh : State W Op → Type 0
  IsFresh s = (n : ℕ) → is_pending n s.pending ≡ true → n < s.serial

  IsFresh-Keeps : Keeps env IsFresh
  unfolding clear_timer
  IsFresh-Keeps = record {
    rest = λ s q a c d b w r h. h;
    idle = λ s w h n e. cc;
    begin = λ o d s m w h n e. ground arith;
    ran_out = λ s p e h. h;
  }

  complete-over :
      (x : Option Pending) (n : ℕ) (e : Option InputError) (s : State W Op)
      → is_pending n x ≡ false
      → complete_in env x n e s ≡ s
  unfolding complete_in
  complete-over none n e s h = refl
  complete-over (some p) n e s h = rw h

  -- A transaction that has ended, in whatever way, is never pending again: its late completion and
  -- its timer then change nothing.
  pub ended_once :
      (w : W) (before between after : List (Call W Op)) (n : ℕ) (e : Option InputError)
      → is_pending n (run env (new w) before).pending ≡ true
      → is_pending n (run env (run env (new w) before) between).pending ≡ false
      → (complete env n e (run env (run env (run env (new w) before) between) after)
          ≡ run env (run env (run env (new w) before) between) after)
        × (expire env n (run env (run env (run env (new w) before) between) after)
            ≡ run env (run env (run env (new w) before) between) after)
  unfolding complete expire
  ended_once w before between after n e h k =
      let s = run env (new w) before in
      let t = run env s between in
      let fresh : IsFresh (new w) = unfold new in λ m e. cc in
      let begun = keep_run env IsFresh IsFresh-Keeps (new w) before fresh n h in
      let over =
        keep_run env (IsOver n) (IsOver-Keeps n) t after
          (keep_run env (IsBegun n) (IsBegun-Keeps n) s between begun, k) in
      let u = run env t after in (complete-over u.pending n e u over.1, rw over.1)

  loop_in-pending :
      (fuel : ℕ) (q : List (Owner × Op)) (s : State W Op)
      → is_some s.pending ≡ true
      → loop_in env fuel q s ≡ s
  unfolding loop_in
  loop_in-pending zero q s h = refl
  loop_in-pending (suc fuel) [] s h = refl
  loop_in-pending (suc fuel) ((o, op) ∷ q) s h = simp h

  -- While a transaction is pending on an open scheduler with room, an available owner's `enqueue`
  -- appends the operation and does nothing else: no callback runs, and nothing overtakes the text.
  pub enqueue_pending :
      (o : Owner) (op : Op) (s : State W Op)
      → is_some s.pending ≡ true
      → s.closed ≡ false
      → s.draining ≡ false
      → env.available o s.world ≡ true
      → length s.queue < queue_limit
      → enqueue env o op s ≡ record s { queue = s.queue ++ (o, op) ∷ []; broken = false }
  unfolding enqueue drain
  enqueue_pending o op s p c d a l =
      let r : State W Op = record s {
        queue = s.queue ++ (o, op) ∷ [];
        draining = true;
        broken = false;
      } in
      let stays = loop_in-pending (length r.queue) r.queue r p in ground (arith, stays)
