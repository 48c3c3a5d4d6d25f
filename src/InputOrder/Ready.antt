-- ===== src/InputOrder/Ready.antt =====
-- Between two calls the scheduler is ready: nothing waits without a reason, and a bound holds.
use floe_native_apps.Prelude.{
  ℕ, ◌≤◌, ◌≡◌, refl, sym, subst, ap, ◌∙◌, ◌⊎◌, inl, inr, true, false, not, ◌||◌, Option, none, some,
  List, [], ◌∷◌, leb, ◌==◌, length, arith, length-Sub, length-append, Bool-cases, keep_if-Sub,
}
use floe_native_apps.InputOrder.{
  Owner, InputError, Env, Pending, State, Call, enqueues, completes, expires, invalidates, closes,
  becomes, delivery_timeout, queue_limit, clear_timer, cancel_in, cancel_pending, retire, drain,
  each, settle, until_broken, invalidated, invalidate, enqueue, complete_in, complete, expire,
  is_pending, close, step, is_some, others,
}
use floe_native_apps.InputOrder.Settle.{Raises}
use floe_native_apps.InputOrder.Shrink.{until_broken-cases, retire-Shrinks, cancel_pending-Shrinks}
use floe_native_apps.InputOrder.Drain.{drain-Drains, drain_ends}
use floe_native_apps.InputOrder.Fifo.{each-Drains, settle-Drains}

pub record IsReady {W Op : Type 0} (s : State W Op) : Type 0 where
  -- At most 256 operations wait.
  pub bounded : length s.queue ≤ queue_limit
  pub still : s.draining ≡ false
  -- A closed scheduler holds nothing.
  pub over : s.closed ≡ true → (length s.queue ≡ 0) × (is_some s.pending ≡ false)
  -- An open one lets an operation wait only behind a pending transaction, or where an exception left the
  -- latest drain or kept the latest call from it.
  pub busy : s.closed ≡ false → (length s.queue ≡ 0) ⊎ (is_some s.pending || s.broken ≡ true)

module _ {W Op : Type 0} (env : Env W Op) where
  drain-IsReady :
      (s : State W Op)
      → s.draining ≡ false
      → s.closed ≡ false
      → length s.queue ≤ queue_limit
      → IsReady (drain env s)
  drain-IsReady s d c b =
      let h = drain-Drains env s in
      record {
        bounded = omega (arith, length-Sub h.sub);
        still = h.draining ∙ d;
        over = λ e. cc (h.closed, c);
        busy = λ e. elim (drain_ends env s d c) [ inl q ↦ inl (ap length q) | inr p ↦ inr p ];
      }

  invalidated_closed :
      (o : Owner) (s : State W Op)
      → s.closed ≡ true
      → is_some s.pending ≡ false
      → invalidated env o s ≡ record s { queue = others o s.queue }
  unfolding invalidated retire drain
  invalidated_closed o s c p = ground arith

  others-length : (o : Owner) (q : List (Owner × Op)) → length (others o q) ≤ length q
  unfolding others
  others-length o q = length-Sub (keep_if-Sub (λ item. not (item.0 == o)) q)

  invalidate_open :
      (o : Owner) (s : State W Op)
      → s.draining ≡ false
      → s.closed ≡ false
      → length s.queue ≤ queue_limit
      → IsReady (invalidated env o s)
  unfolding invalidated
  invalidate_open o s d c b =
      let r = retire-Shrinks env o s in
      drain-IsReady (retire env o s) (r.draining ∙ d) (r.closed ∙ c)
        (omega (arith, length-Sub r.sub, b))

  invalidated-IsReady : (o : Owner) (s : State W Op) → IsReady s → IsReady (invalidated env o s)
  invalidated-IsReady o s h = elim (Bool-cases s.closed) [
    | inl c ↦
        let n = others-length o s.queue in
        rw (invalidated_closed o s c (h.over c).1) (record {
          bounded = omega (arith, h.bounded);
          still = h.still;
          over = λ e. (omega (arith, h.over c), (h.over c).1);
          busy = λ e. cc (c, e);
        })
    | inr c ↦ invalidate_open o s h.still c h.bounded
  ]

  broken-IsReady :
      (s : State W Op)
      → s.draining ≡ false
      → s.closed ≡ false
      → length s.queue ≤ queue_limit
      → s.broken ≡ true
      → IsReady s
  broken-IsReady s d c b x = record {
    bounded = b;
    still = d;
    over = λ e. cc (c, e);
    busy = λ e. inr (ground arith);
  }

  -- An `invalidate` of a scheduler that is open, unless an exception keeps it.
  until_broken-IsReady :
      (o : Owner) (s : State W Op)
      → s.draining ≡ false
      → s.closed ≡ false
      → length s.queue ≤ queue_limit
      → IsReady (until_broken env o s)
  until_broken-IsReady o s d c b = elim (until_broken-cases env o s) [
    | inl (e, x) ↦ subst IsReady (sym e) (broken-IsReady s d c b x)
    | inr (e, x) ↦ subst IsReady (sym e) (invalidate_open o s d c b)
  ]

  overflow-IsReady :
      (o : Owner) (os : List Owner) (s : State W Op) (w : W)
      → s.closed ≡ false
      → IsReady s
      → IsReady
          (until_broken env o (each (until_broken env) os (record s { world = w; broken = false })))
  overflow-IsReady o os s w c h =
      let r = each-Drains env os (record s { world = w; broken = false }) in
      until_broken-IsReady o _ (r.draining ∙ h.still) (r.closed ∙ c)
        (omega (arith, length-Sub r.sub, h.bounded))

  complete_in-IsReady :
      (x : Option Pending) (n : ℕ) (e : Option InputError) (s : State W Op)
      → s.pending ≡ x
      → IsReady s
      → IsReady (complete_in env x n e s)
  unfolding complete_in
  complete_in-IsReady none n e s q h = h
  complete_in-IsReady (some p) n e s q h = elim (Bool-cases (p.serial == n)) [
    | inr b ↦ simp b h
    | inl b ↦
        let t = settle-Drains env p e s in
        let c : s.closed ≡ false = ground (arith, h.over) in
        let u = settle env (until_broken env) p e (record s { broken = false }) in
        let l : length u.queue ≤ queue_limit = omega (arith, length-Sub t.sub, h.bounded) in
        elim (Bool-cases u.broken) [
          | inl x ↦ simp (b, x) (broken-IsReady u (t.draining ∙ h.still) (t.closed ∙ c) l x)
          | inr x ↦ simp (b, x) (drain-IsReady u (t.draining ∙ h.still) (t.closed ∙ c) l)
        ]
  ]

  cancel_in-idle :
      (x : Option Pending) (s : State W Op)
      → s.pending ≡ x
      → is_some (cancel_in env x s).pending ≡ false
  unfolding cancel_in clear_timer
  cancel_in-idle none s e = rw e
  cancel_in-idle (some p) s e = ground arith

  close-IsReady : (s : State W Op) → IsReady s → IsReady (close env s)
  unfolding close
  close-IsReady s h =
      let r : State W Op = record s { closed = true; queue = [] } in
      let c = cancel_pending-Shrinks env r in
      let p : is_some (cancel_pending env r).pending ≡ false =
        unfold cancel_pending in cancel_in-idle s.pending r refl in
      record {
        bounded = omega (arith, length-Sub c.sub);
        still = c.draining ∙ h.still;
        over = λ e. (omega (arith, length-Sub c.sub), p);
        busy = λ e. cc (c.closed, e);
      }

  -- Every call leaves the scheduler ready.
  pub step-IsReady : (s : State W Op) (c : Call W Op) → IsReady s → IsReady (step env s c)
  unfolding step invalidate enqueue complete expire
  step-IsReady s (enqueues o op) h = elim (Bool-cases (s.closed || not (env.available o s.world))) [
    | inl b ↦ simp b h
    | inr b ↦ elim (Bool-cases (leb queue_limit (length s.queue))) [
      | inl f ↦
          let called = env.overflow o s.world in
          simp (b, f) (overflow-IsReady o called.1 s called.0 (ground arith) h)
      | inr f ↦
          simp (b, f)
            (drain-IsReady _ h.still (ground arith)
              (ground (arith, length-append s.queue ((o, op) ∷ []))))
    ]
  ]
  step-IsReady s (completes n e) h = complete_in-IsReady s.pending n e s refl h
  step-IsReady s (expires n) h = elim (Bool-cases (is_pending n s.pending)) [
    | inl b ↦ simp b (
        complete_in-IsReady s.pending n (some delivery_timeout) (record s { timer = 0 }) refl
          (record { bounded = h.bounded; still = h.still; over = h.over; busy = h.busy }))
    | inr b ↦ simp b h
  ]
  step-IsReady s (invalidates o) h = invalidated-IsReady o s h
  step-IsReady s closes h = close-IsReady s h
  step-IsReady s (becomes w) h = record {
    bounded = h.bounded;
    still = h.still;
    over = h.over;
    busy = h.busy;
  }

  -- An exception that broke a drain is that of a callback which raises.
  abbrev pub IsBlamed : State W Op → Type 0
  IsBlamed s = s.broken ≡ true → Raises env
