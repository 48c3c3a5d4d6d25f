-- ===== src/InputOrder/Settle.antt =====
-- A rule for the parts of a drain that end or begin a transaction: a relation between states that
-- holds across each of their writes holds across the whole.
use floe_native_apps.Prelude.{
  ℕ, ◌+◌, ◌≡◌, sym, ◌⊎◌, inl, inr, true, Option, none, some, List, [], ◌∷◌, ◌==◌, Bool, false,
  Bool-cases, subst,
}
use floe_native_apps.InputOrder.{
  Owner, InputError, Delivery, Outcome, deferred, completed, raised, Env, Pending, State,
  delivery_failed, others, clear_timer, cancel_in, cancel_pending, retire, each, report, settle,
  after_commit, deliver, is_some, is_pending, owned_by, transaction, delivery_timeout_ms,
}

-- One of the callbacks raises somewhere.
abbrev pub Raises : {W Op : Type 0} → Env W Op → Type 0
Raises {W} {Op} env =
    ((o : Owner) × (op : Op) × (w : W) × (env.admit_raises o op w ≡ true))
    ⊎ ((o : Owner) × (n : ℕ) × (e : Option InputError) × (w : W) × (env.result_raises o n e w
          ≡ true))

-- What `broken` may become in `s`: it becomes true only by a callback that raises.
abbrev pub Caused : {W Op : Type 0} → Env W Op → State W Op → Bool → Type 0
Caused env s b = b ≡ true → (s.broken ≡ true) ⊎ Raises env

-- The timer may be cleared before or after the transaction is taken out.
clear_timer-idle :
    {W Op : Type 0} (env : Env W Op) (s : State W Op)
    → clear_timer env (record s { pending = none }) ≡ record (clear_timer env s) { pending = none }
unfolding clear_timer
clear_timer-idle env s = elim (Bool-cases (s.timer == 0)) [ inl e ↦ simp e | inr e ↦ simp e ]

module _ {ℓ} {W Op : Type 0} (env : Env W Op) (R : State W Op → State W Op → Type ℓ)
    (R-refl : (s : State W Op) → R s s) (R-trans : (s t u : State W Op) → R s t → R t u → R s u)
    (world : (s : State W Op) (b : Bool) (w : W)
      → Caused env s b
      → R s (record s { broken = b; world = w }))
    (idle : (s : State W Op) (w : W)
      → R s (record (clear_timer env s) { pending = none; world = w })) where
  pub each-Rel :
      (f : Owner → State W Op → State W Op)
      → ((o : Owner) (s : State W Op) → R s (f o s))
      → (os : List Owner) (s : State W Op) → R s (each f os s)
  each-Rel f h [] s = R-refl s
  each-Rel f h (o ∷ os) s = R-trans s (f o s) (each f os (f o s)) (h o s) (each-Rel f h os (f o s))

  pub report-Rel :
      (invalidate : Owner → State W Op → State W Op)
      → ((o : Owner) (s : State W Op) → R s (invalidate o s))
      → (p : Pending) (e : Option InputError) (s : State W Op) → R s (report env invalidate p e s)
  unfolding report
  report-Rel invalidate h p e s = elim (Bool-cases (env.available p.owner s.world)) [
    | inl a ↦
        let called = env.result p.owner p.sequence e s.world in
        let t = each invalidate called.1 (record s { world = called.0 }) in
        let handed =
          R-trans s (record s { world = called.0 }) t (world s s.broken called.0 (λ x. inl x))
            (each-Rel invalidate h called.1 (record s { world = called.0 })) in
        elim (Bool-cases t.broken) [
          | inl b ↦ simp (a, b) handed
          | inr b ↦
              simp (a, b)
                (R-trans s t _ handed
                  (world t _ _ (λ x. inr (inr (p.owner, p.sequence, e, s.world, x)))))
        ]
    | inr a ↦ simp a (R-refl s)
  ]

  pub settle-Rel :
      (invalidate : Owner → State W Op → State W Op)
      → ((o : Owner) (s : State W Op) → R s (invalidate o s))
      → (p : Pending) (e : Option InputError) (s : State W Op) → R s (settle env invalidate p e s)
  unfolding settle
  settle-Rel invalidate h p e s =
      let c = clear_timer env s in
      elim (Bool-cases (is_some e)) [
        | inl a ↦
            let w = env.cancel p.adapter p.token c.world in
            simp a (
              R-trans s (record c { pending = none; world = w }) _ (idle s w)
                (report-Rel invalidate h p e _))
        | inr a ↦ simp a (
            R-trans s (record c { pending = none }) _ (idle s c.world)
              (report-Rel invalidate h p e _))
      ]

  pub cancel_in-Rel : (p : Option Pending) (s : State W Op) → R s (cancel_in env p s)
  unfolding cancel_in
  cancel_in-Rel none s = R-refl s
  cancel_in-Rel (some p) s =
      subst (λ t. R s (record t { world = env.cancel p.adapter p.token t.world }))
        (sym (clear_timer-idle env s))
        (idle s (env.cancel p.adapter p.token (clear_timer env s).world))

  module _
      (filter : (o : Owner) (s : State W Op) → R s (record s { queue = others o s.queue })) where
    pub retire-Rel : (o : Owner) (s : State W Op) → R s (retire env o s)
    unfolding retire cancel_pending
    retire-Rel o s = elim (Bool-cases (owned_by o s.pending)) [
      | inl e ↦ simp e (
          R-trans s _ _ (filter o s)
            (cancel_in-Rel s.pending (record s { queue = others o s.queue })))
      | inr e ↦ simp e (filter o s)
    ]

    after_commit-Rel : (p : Pending) (x : Outcome) (s : State W Op) → R s (after_commit env p x s)
    unfolding after_commit
    after_commit-Rel p deferred s = R-refl s
    after_commit-Rel p (completed e) s =
        let t = settle env (retire env) p e s in
        R-trans s t _ (settle-Rel (retire env) retire-Rel p e s)
          (world t false t.world (λ x. absurd cc))
    after_commit-Rel p raised s = settle-Rel (retire env) retire-Rel p (some delivery_failed) s

    pub deliver-Rel :
        ((o : Owner) (d : Delivery) (s : State W Op) (n : ℕ) (w : W)
          → R s (record s {
            pending = some (transaction o d s.serial);
            serial = s.serial + 1;
            timer = n;
            world = w;
          }))
        → (o : Owner) (d : Option Delivery) (s : State W Op) → R s (deliver env o d s)
    unfolding deliver
    deliver-Rel begin o none s = R-refl s
    deliver-Rel begin o (some d) s =
        let added = env.timeout_add delivery_timeout_ms s.world in
        let committed = env.commit d.adapter d.token d.text added.0 in
        let p = transaction o d s.serial in
        let u : State W Op = record s {
          pending = some p;
          serial = s.serial + 1;
          timer = added.1;
          world = committed.0;
        } in
        let t = each (retire env) committed.1 u in
        let begun =
          R-trans s u t (begin o d s added.1 committed.0)
            (each-Rel (retire env) retire-Rel committed.1 u) in
        elim (Bool-cases (is_pending s.serial t.pending)) [
          | inl a ↦ simp a (R-trans s t _ begun (after_commit-Rel p committed.2 t))
          | inr a ↦ simp a begun
        ]
