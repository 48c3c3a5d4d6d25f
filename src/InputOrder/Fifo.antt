-- ===== src/InputOrder/Fifo.antt =====
-- The order in which operations are admitted, and the bound on those that wait.
use floe_native_apps.Prelude.{
  ℕ, ◌≡◌, refl, sym, subst, inl, inr, Bool, false, true, not, ◌||◌, Option, none, some, List, [],
  ◌∷◌, ◌++◌, leb, ◌==◌, length, Sub, Sub-refl, Sub-trans, Bool-cases, Sub-append, Sub-nil,
  append_assoc, append-nil, Sub-append_right,
}
use floe_native_apps.InputOrder.{
  Owner, InputError, Env, Pending, State, Call, enqueues, completes, expires, invalidates, closes,
  becomes, delivery_timeout, queue_limit, retire, settle, each, until_broken, invalidated,
  invalidate, enqueue, complete_in, complete, expire, is_pending, close, step, run, new,
}
use floe_native_apps.InputOrder.Settle.{Caused, each-Rel, settle-Rel}
use floe_native_apps.InputOrder.Shrink.{
  Drains, Drains-refl, Drains-trans, Shrinks-Drains, world-Shrinks, idle-Shrinks, retire-Shrinks,
  cancel_pending-Shrinks, until_broken-cases,
}
use floe_native_apps.InputOrder.Drain.{drain-Drains}

-- The operations that callers hand to `enqueue`, in the order in which they do.
abbrev pub arrivals : {W Op : Type 0} → List (Call W Op) → List (Owner × Op)
arrivals [] = []
arrivals (enqueues o op ∷ cs) = (o, op) ∷ arrivals cs
arrivals (_ ∷ cs) = arrivals cs

module _ {W Op : Type 0} (env : Env W Op) where
  pub invalidated-Drains : (o : Owner) (s : State W Op) → Drains s (invalidated env o s)
  unfolding invalidated
  invalidated-Drains o s =
      Drains-trans (Shrinks-Drains (retire-Shrinks env o s)) (drain-Drains env (retire env o s))

  pub until_broken-Drains : (o : Owner) (s : State W Op) → Drains s (until_broken env o s)
  until_broken-Drains o s = elim (until_broken-cases env o s) [
    | inl (e, b) ↦ subst (Drains s) (sym e) (Drains-refl s)
    | inr (e, b) ↦ subst (Drains s) (sym e) (invalidated-Drains o s)
  ]

  world-Drains :
      (s : State W Op) (b : Bool) (w : W)
      → Caused env s b
      → Drains s (record s { broken = b; world = w })
  world-Drains s b w r = Shrinks-Drains (world-Shrinks env s b w r)

  pub each-Drains : (os : List Owner) (s : State W Op) → Drains s (each (until_broken env) os s)
  each-Drains =
      each-Rel env Drains Drains-refl (λ s t u. Drains-trans) world-Drains
        (λ s w. Shrinks-Drains (idle-Shrinks env s w)) (until_broken env) until_broken-Drains

  pub overflow-Drains :
      (o : Owner) (os : List Owner) (s : State W Op) (w : W)
      → Drains s
          (until_broken env o (each (until_broken env) os (record s { world = w; broken = false })))
  overflow-Drains o os s w =
      Drains-trans (world-Drains s false w (λ x. absurd cc))
        (Drains-trans (each-Drains os _) (until_broken-Drains o _))

  pub settle-Drains :
      (p : Pending) (e : Option InputError) (s : State W Op)
      → Drains s (settle env (until_broken env) p e (record s { broken = false }))
  settle-Drains p e s = Drains-trans (world-Drains s false s.world (λ x. absurd cc)) (
      settle-Rel env Drains Drains-refl (λ s t u. Drains-trans) world-Drains
        (λ s w. Shrinks-Drains (idle-Shrinks env s w)) (until_broken env) until_broken-Drains p e
        (record s { broken = false }))

  complete_in-Drains :
      (x : Option Pending) (n : ℕ) (e : Option InputError) (s : State W Op)
      → Drains s (complete_in env x n e s)
  unfolding complete_in
  complete_in-Drains none n e s = Drains-refl s
  complete_in-Drains (some p) n e s = elim (Bool-cases (p.serial == n)) [
    | inl b ↦
        let h = settle-Drains p e s in
        let t = settle env (until_broken env) p e (record s { broken = false }) in
        elim (Bool-cases t.broken) [
          | inl c ↦ simp (b, c) h
          | inr c ↦ simp (b, c) (Drains-trans h (drain-Drains env t))
        ]
    | inr b ↦ simp b (Drains-refl s)
  ]

  pub complete-Drains :
      (n : ℕ) (e : Option InputError) (s : State W Op) → Drains s (complete env n e s)
  unfolding complete
  complete-Drains n e s = complete_in-Drains s.pending n e s

  pub expire-Drains : (n : ℕ) (s : State W Op) → Drains s (expire env n s)
  unfolding expire
  expire-Drains n s = elim (Bool-cases (is_pending n s.pending)) [
    | inl b ↦
        let h = complete-Drains n (some delivery_timeout) (record s { timer = 0 }) in
        simp b (record { order = h.order; sub = h.sub; closed = h.closed; draining = h.draining })
    | inr b ↦ simp b (Drains-refl s)
  ]

  pub close-Drains :
      (s : State W Op) → Sub ((close env s).admitted ++ (close env s).queue) (s.admitted ++ s.queue)
  unfolding close
  close-Drains s =
      let h =
        Shrinks-Drains (cancel_pending-Shrinks env (record s { closed = true; queue = [] })) in
      Sub-trans (Sub-append [] s.queue (Sub-refl s.admitted) (Sub-nil s.queue)) h.order

  -- What is admitted or waits after a call was so before it, in the same order, or is the operation
  -- enqueued by the call.
  step-arrivals :
      (s : State W Op) (c : Call W Op)
      → Sub
          ((step env s c).admitted ++ (step env s c).queue)
          ((s.admitted ++ s.queue) ++ arrivals (c ∷ []))
  unfolding step invalidate enqueue
  step-arrivals s (enqueues o op) = elim (Bool-cases (s.closed || not (env.available o s.world))) [
    | inl b ↦ simp b unchanged
    | inr b ↦ elim (Bool-cases (leb queue_limit (length s.queue))) [
      | inl f ↦
          simp (b, f)
            (Sub-trans unchanged
              (let called = env.overflow o s.world in overflow-Drains o called.1 s called.0).order)
      | inr f ↦
          simp (b, f)
            (rw append_assoc
              (drain-Drains env (record s { queue = s.queue ++ (o, op) ∷ [] })).order)
    ]
  ]
    where
      unchanged : Sub (s.admitted ++ s.queue) ((s.admitted ++ s.queue) ++ (o, op) ∷ [])
      unchanged = Sub-append_right (s.admitted ++ s.queue) ((o, op) ∷ [])
  step-arrivals s (completes n e) = rw append-nil (complete-Drains n e s).order
  step-arrivals s (expires n) = rw append-nil (expire-Drains n s).order
  step-arrivals s (invalidates o) = rw append-nil (invalidated-Drains o s).order
  step-arrivals s closes = rw append-nil (close-Drains s)
  step-arrivals s (becomes w) = rw append-nil (Sub-refl (s.admitted ++ s.queue))

  arrivals-cons :
      (c : Call W Op) (cs : List (Call W Op)) → arrivals (c ∷ []) ++ arrivals cs ≡ arrivals (c ∷ cs)
  arrivals-cons (enqueues o op) cs = refl
  arrivals-cons (completes n e) cs = refl
  arrivals-cons (expires n) cs = refl
  arrivals-cons (invalidates o) cs = refl
  arrivals-cons closes cs = refl
  arrivals-cons (becomes w) cs = refl

  run-arrivals :
      (s : State W Op) (cs : List (Call W Op))
      → Sub
          ((run env s cs).admitted ++ (run env s cs).queue)
          ((s.admitted ++ s.queue) ++ arrivals cs)
  unfolding run
  run-arrivals s [] = rw append-nil (Sub-refl (s.admitted ++ s.queue))
  run-arrivals s (c ∷ cs) =
      rw (← arrivals-cons c cs, ← append_assoc)
        (Sub-trans
          (Sub-append (arrivals cs) (arrivals cs) (step-arrivals s c) (Sub-refl (arrivals cs)))
          (run-arrivals (step env s c) cs))

  -- From a new scheduler, under any calls: the operations admitted so far, followed by those that
  -- wait, are among those that were enqueued, in the order in which they were, none of them twice.
  pub run-Sub :
      (w : W) (cs : List (Call W Op))
      → Sub ((run env (new w) cs).admitted ++ (run env (new w) cs).queue) (arrivals cs)
  run-Sub w cs = unfold new in run-arrivals (new w) cs
