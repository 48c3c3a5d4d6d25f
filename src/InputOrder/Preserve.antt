-- ===== src/InputOrder/Preserve.antt =====
-- A rule for invariants of the scheduler: what each write of its methods keeps, every call keeps.
use floe_native_apps.Prelude.{
  ℕ, zero, suc, ◌+◌, ◌≡◌, refl, sym, subst, inl, inr, Bool, true, false, not, ◌||◌, Option, none,
  some, List, [], ◌∷◌, ◌++◌, leb, ◌==◌, if◌then◌else◌, length, Bool-cases,
}
use floe_native_apps.InputOrder.{
  Owner, InputError, Delivery, Env, Pending, State, Call, enqueues, completes, expires, invalidates,
  closes, becomes, delivery_timeout, queue_limit, others, clear_timer, cancel_pending, retire, turn,
  each, settle, loop_in, drain, until_broken, invalidated, invalidate, enqueue, complete_in,
  complete, expire, is_pending, close, step, run, is_some, transaction,
}
use floe_native_apps.InputOrder.Shrink.{until_broken-cases}
use floe_native_apps.InputOrder.Settle.{
  Caused, each-Rel, settle-Rel, retire-Rel, deliver-Rel, cancel_in-Rel,
}

-- The writes that keep `P`: of the fields that no transaction is in, of the end of a transaction, of
-- its begin, and of the timer that has run out.
pub record Keeps {ℓ} {W Op : Type 0} (env : Env W Op) (P : State W Op → Type ℓ) : Type ℓ where
  pub rest :
      (s : State W Op) (q a : List (Owner × Op)) (c d b : Bool) (w : W)
      → Caused env s b
      → P s
      → P (record s { queue = q; admitted = a; closed = c; draining = d; broken = b; world = w })
  pub idle :
      (s : State W Op) (w : W) → P s → P (record (clear_timer env s) { pending = none; world = w })
  pub begin :
      (o : Owner) (d : Delivery) (s : State W Op) (n : ℕ) (w : W)
      → P s
      → P (record s {
        pending = some (transaction o d s.serial);
        serial = s.serial + 1;
        timer = n;
        world = w;
      })
  pub ran_out :
      (s : State W Op) (p : Pending) → s.pending ≡ some p → P s → P (record s { timer = 0 })

module _ {ℓ} {W Op : Type 0} (env : Env W Op) (P : State W Op → Type ℓ) (k : Keeps env P) where
  abbrev R : State W Op → State W Op → Type ℓ
  R s t = P s → P t

  R-refl : (s : State W Op) → R s s
  R-refl s h = h

  R-trans : (s t u : State W Op) → R s t → R t u → R s u
  R-trans s t u f g h = g (f h)

  keep_world :
      (s : State W Op) (b : Bool) (w : W)
      → Caused env s b
      → R s (record s { broken = b; world = w })
  keep_world s b w r = k.rest s s.queue s.admitted s.closed s.draining b w r

  keep_filter : (o : Owner) (s : State W Op) → R s (record s { queue = others o s.queue })
  keep_filter o s =
      k.rest s (others o s.queue) s.admitted s.closed s.draining s.broken s.world (λ x. inl x)

  keep_retire : (o : Owner) (s : State W Op) → R s (retire env o s)
  keep_retire = retire-Rel env R R-refl R-trans keep_world k.idle keep_filter

  keep_turn : (o : Owner) (op : Op) (s : State W Op) → R s (turn env o op s)
  unfolding turn
  keep_turn o op s h = elim (Bool-cases (env.available o s.world)) [
    | inl a ↦
        let called = env.admit o op s.world in
        let t : State W Op = record s { admitted = s.admitted ++ (o, op) ∷ []; world = called.0 } in
        let u = each (retire env) called.1 t in
        let handed =
          each-Rel env R R-refl R-trans keep_world k.idle (retire env) keep_retire called.1 t (
            k.rest s s.queue (s.admitted ++ (o, op) ∷ []) s.closed s.draining s.broken called.0
              (λ x. inl x) h) in
        elim (Bool-cases (env.admit_raises o op s.world)) [
          | inl b ↦
              simp (a, b) (keep_world u true u.world (λ x. inr (inl (o, op, s.world, b))) handed)
          | inr b ↦
              simp (a, b)
                (deliver-Rel env R R-refl R-trans keep_world k.idle keep_filter k.begin o called.2 u
                  handed)
        ]
    | inr a ↦ simp a h
  ]

  keep_loop : (fuel : ℕ) (q : List (Owner × Op)) (s : State W Op) → R s (loop_in env fuel q s)
  unfolding loop_in
  keep_loop zero q s h = h
  keep_loop (suc fuel) [] s h = h
  keep_loop (suc fuel) ((o, op) ∷ q) s h =
      let r : State W Op = record s { queue = q } in
      let t = turn env o op r in
      let more = keep_loop fuel t.queue t (
        keep_turn o op r
          (k.rest s q s.admitted s.closed s.draining s.broken s.world (λ x. inl x) h)) in
      elim (Bool-cases (is_some s.pending || s.closed || s.broken)) [
        | inl b ↦ simp b h
        | inr b ↦ simp b more
      ]

  keep_drain : (s : State W Op) → R s (drain env s)
  unfolding drain
  keep_drain s h =
      let r : State W Op = record s { draining = true; broken = false } in
      let t = loop_in env (length s.queue) s.queue r in
      elim (Bool-cases (s.draining || s.closed)) [
        | inl b ↦ simp b h
        | inr b ↦ simp b (
            k.rest t t.queue t.admitted t.closed false t.broken t.world (λ x. inl x)
              (keep_loop (length s.queue) s.queue r
                (k.rest s s.queue s.admitted s.closed true false s.world (λ x. absurd cc) h)))
      ]

  keep_invalidated : (o : Owner) (s : State W Op) → R s (invalidated env o s)
  unfolding invalidated
  keep_invalidated o s h = keep_drain (retire env o s) (keep_retire o s h)

  keep_until_broken : (o : Owner) (s : State W Op) → R s (until_broken env o s)
  keep_until_broken o s h = elim (until_broken-cases env o s) [
    | inl (e, b) ↦ subst P (sym e) h
    | inr (e, b) ↦ subst P (sym e) (keep_invalidated o s h)
  ]

  keep_overflow :
      (o : Owner) (os : List Owner) (s : State W Op) (w : W)
      → R s
          (until_broken env o (each (until_broken env) os (record s { world = w; broken = false })))
  keep_overflow o os s w h = keep_until_broken o _ (
      each-Rel env R R-refl R-trans keep_world k.idle (until_broken env) keep_until_broken os _
        (keep_world s false w (λ x. absurd cc) h))

  keep_enqueue : (o : Owner) (op : Op) (s : State W Op) → R s (enqueue env o op s)
  unfolding enqueue
  keep_enqueue o op s h = elim (Bool-cases (s.closed || not (env.available o s.world))) [
    | inl b ↦ simp b h
    | inr b ↦ elim (Bool-cases (leb queue_limit (length s.queue))) [
      | inl f ↦
          simp (b, f) (let called = env.overflow o s.world in keep_overflow o called.1 s called.0 h)
      | inr f ↦
          simp (b, f)
            (keep_drain _ (
              k.rest s (s.queue ++ (o, op) ∷ []) s.admitted s.closed s.draining s.broken s.world
                (λ x. inl x) h))
    ]
  ]

  keep_complete_in :
      (x : Option Pending) (n : ℕ) (e : Option InputError) (s : State W Op)
      → R s (complete_in env x n e s)
  unfolding complete_in
  keep_complete_in none n e s h = h
  keep_complete_in (some p) n e s h = elim (Bool-cases (p.serial == n)) [
    | inl b ↦
        let t = settle env (until_broken env) p e (record s { broken = false }) in
        let done : P t =
          settle-Rel env R R-refl R-trans keep_world k.idle (until_broken env) keep_until_broken p e
            (record s { broken = false }) (keep_world s false s.world (λ x. absurd cc) h) in
        elim (Bool-cases t.broken) [
          | inl c ↦ simp (b, c) done
          | inr c ↦ simp (b, c) (keep_drain t done)
        ]
    | inr b ↦ simp b h
  ]

  keep_complete : (n : ℕ) (e : Option InputError) (s : State W Op) → R s (complete env n e s)
  unfolding complete
  keep_complete n e s = keep_complete_in s.pending n e s

  keep_expire_in :
      (x : Option Pending) (n : ℕ) (s : State W Op)
      → s.pending ≡ x
      → P s
      → P (
          if is_pending n x
          then complete env n (some delivery_timeout) (record s { timer = 0 })
          else s)
  keep_expire_in none n s e h = h
  keep_expire_in (some p) n s e h = elim (Bool-cases (p.serial == n)) [
    | inl b ↦ simp b (keep_complete n _ _ (k.ran_out s p e h))
    | inr b ↦ simp b h
  ]

  keep_close : (s : State W Op) → R s (close env s)
  unfolding close cancel_pending
  keep_close s h =
      cancel_in-Rel env R R-refl R-trans keep_world k.idle s.pending _
        (k.rest s [] s.admitted true s.draining s.broken s.world (λ x. inl x) h)

  pub keep_step : (s : State W Op) (c : Call W Op) → P s → P (step env s c)
  unfolding step invalidate expire
  keep_step s (enqueues o op) = keep_enqueue o op s
  keep_step s (completes n e) = keep_complete n e s
  keep_step s (expires n) = keep_expire_in s.pending n s refl
  keep_step s (invalidates o) = keep_invalidated o s
  keep_step s closes = keep_close s
  keep_step s (becomes w) = keep_world s s.broken w (λ x. inl x)

  pub keep_run : (s : State W Op) (cs : List (Call W Op)) → P s → P (run env s cs)
  unfolding run
  keep_run s [] h = h
  keep_run s (c ∷ cs) h = keep_run (step env s c) cs (keep_step s c h)
