-- ===== src/InputOrder/Shrink.antt =====
-- What a drain may change: its queue loses items, and it hands some of them to `admit` in order.
use floe_native_apps.Prelude.{
  ℕ, ◌+◌, ◌≡◌, refl, ◌∙◌, ◌⊎◌, inl, inr, Bool, true, false, if◌then◌else◌, not, Option, none, some,
  [], ◌∷◌, ◌++◌, ◌==◌, Sub, Sub-refl, Sub-trans, keep_if-Sub, Bool-cases, Sub-append,
}
use floe_native_apps.InputOrder.Settle.{Caused, each-Rel, retire-Rel, deliver-Rel, cancel_in-Rel}
use floe_native_apps.InputOrder.{
  Owner, Delivery, Env, Pending, State, others, each, until_broken, invalidated, clear_timer,
  cancel_pending, retire, turn, transaction,
}

-- From `s` to `t` the queue loses items; those handed to `admit` go there in the queue's order.
pub record Drains {W Op : Type 0} (s t : State W Op) : Type 0 where
  pub order : Sub (t.admitted ++ t.queue) (s.admitted ++ s.queue)
  pub sub : Sub t.queue s.queue
  pub closed : t.closed ≡ s.closed
  pub draining : t.draining ≡ s.draining

-- From `s` to `t` the queue loses items, and nothing is admitted.
pub record Shrinks {W Op : Type 0} (s t : State W Op) : Type 0 where
  pub sub : Sub t.queue s.queue
  pub closed : t.closed ≡ s.closed
  pub draining : t.draining ≡ s.draining
  pub admitted : t.admitted ≡ s.admitted

module _ {W Op : Type 0} where
  pub Shrinks-refl : (s : State W Op) → Shrinks s s
  Shrinks-refl s = record {
    sub = Sub-refl s.queue;
    closed = refl;
    draining = refl;
    admitted = refl;
  }

  pub Shrinks-trans : {s t u : State W Op} → Shrinks s t → Shrinks t u → Shrinks s u
  Shrinks-trans a b = record {
    sub = Sub-trans a.sub b.sub;
    closed = b.closed ∙ a.closed;
    draining = b.draining ∙ a.draining;
    admitted = b.admitted ∙ a.admitted;
  }

  pub Drains-refl : (s : State W Op) → Drains s s
  Drains-refl s = record {
    order = Sub-refl _;
    sub = Sub-refl s.queue;
    closed = refl;
    draining = refl;
  }

  pub Drains-trans : {s t u : State W Op} → Drains s t → Drains t u → Drains s u
  Drains-trans a b = record {
    order = Sub-trans a.order b.order;
    sub = Sub-trans a.sub b.sub;
    closed = b.closed ∙ a.closed;
    draining = b.draining ∙ a.draining;
  }

  pub Shrinks-Drains : {s t : State W Op} → Shrinks s t → Drains s t
  Shrinks-Drains {s} {t} h = record {
    order = rw h.admitted (Sub-append t.queue s.queue (Sub-refl s.admitted) h.sub);
    sub = h.sub;
    closed = h.closed;
    draining = h.draining;
  }

  -- Fields that the relation does not read may change.
  pub Shrinks-adjust :
      {s t : State W Op}
      → Shrinks s t
      → (p : Option Pending) (n m : ℕ) (w : W) → (b : Bool)
      → Shrinks s (record t { pending = p; timer = n; serial = m; broken = b; world = w })
  Shrinks-adjust h p n m w b = record {
    sub = h.sub;
    closed = h.closed;
    draining = h.draining;
    admitted = h.admitted;
  }

if-cases :
    {A : Type 0} (b : Bool) (x y : A)
    → (((if b then x else y) ≡ x) × (b ≡ true)) ⊎ (((if b then x else y) ≡ y) × (b ≡ false))
if-cases true x y = inl (refl, refl)
if-cases false x y = inr (refl, refl)

module _ {W Op : Type 0} (env : Env W Op) where
  pub until_broken-cases :
      (o : Owner) (s : State W Op)
      → ((until_broken env o s ≡ s) × (s.broken ≡ true))
        ⊎ ((until_broken env o s ≡ invalidated env o s) × (s.broken ≡ false))
  unfolding until_broken
  until_broken-cases o s = if-cases s.broken s (invalidated env o s)

  clear_timer-Shrinks : (s : State W Op) → Shrinks s (clear_timer env s)
  unfolding clear_timer
  clear_timer-Shrinks s = elim (Bool-cases (s.timer == 0)) [
    | inl e ↦ simp e (Shrinks-refl s)
    | inr e ↦ simp e (
        Shrinks-adjust (Shrinks-refl s) s.pending 0 s.serial (env.timeout_remove s.timer s.world)
          s.broken)
  ]

  pub world-Shrinks :
      (s : State W Op) (b : Bool) (w : W)
      → Caused env s b
      → Shrinks s (record s { broken = b; world = w })
  world-Shrinks s b w r = Shrinks-adjust (Shrinks-refl s) s.pending s.timer s.serial w b

  pub idle-Shrinks :
      (s : State W Op) (w : W)
      → Shrinks s (record (clear_timer env s) { pending = none; world = w })
  idle-Shrinks s w =
      let c = clear_timer env s in
      Shrinks-adjust (clear_timer-Shrinks s) none c.timer c.serial w c.broken

  filter-Shrinks : (o : Owner) (s : State W Op) → Shrinks s (record s { queue = others o s.queue })
  unfolding others
  filter-Shrinks o s = record {
    sub = keep_if-Sub (λ item. not (item.0 == o)) s.queue;
    closed = refl;
    draining = refl;
    admitted = refl;
  }

  begin-Shrinks :
      (o : Owner) (d : Delivery) (s : State W Op) (n : ℕ) (w : W)
      → Shrinks s (record s {
        pending = some (transaction o d s.serial);
        serial = s.serial + 1;
        timer = n;
        world = w;
      })
  begin-Shrinks o d s n w = Shrinks-adjust (Shrinks-refl s) _ n (s.serial + 1) w s.broken

  pub cancel_pending-Shrinks : (s : State W Op) → Shrinks s (cancel_pending env s)
  unfolding cancel_pending
  cancel_pending-Shrinks s =
      cancel_in-Rel env Shrinks Shrinks-refl (λ s t u. Shrinks-trans) world-Shrinks idle-Shrinks
        s.pending s

  pub retire-Shrinks : (o : Owner) (s : State W Op) → Shrinks s (retire env o s)
  retire-Shrinks =
      retire-Rel env Shrinks Shrinks-refl (λ s t u. Shrinks-trans) world-Shrinks idle-Shrinks
        filter-Shrinks

  -- One round takes the item off the queue, and hands it to `admit` or drops it.
  pub turn-Shrinks :
      (o : Owner) (op : Op) (s : State W Op)
      → Shrinks s (turn env o op s)
        ⊎ Shrinks (record s { admitted = s.admitted ++ (o, op) ∷ [] }) (turn env o op s)
  unfolding turn
  turn-Shrinks o op s = elim (Bool-cases (env.available o s.world)) [
    | inl a ↦
        let called = env.admit o op s.world in
        let t : State W Op = record s { admitted = s.admitted ++ (o, op) ∷ [] } in
        let u = each (retire env) called.1 (record t { world = called.0 }) in
        let h = Shrinks-trans (world-Shrinks t t.broken called.0 (λ x. inl x)) (
          each-Rel env Shrinks Shrinks-refl (λ s t u. Shrinks-trans) world-Shrinks idle-Shrinks
            (retire env) retire-Shrinks called.1 _) in
        inr (elim (Bool-cases (env.admit_raises o op s.world)) [
          | inl b ↦
              simp (a, b)
                (Shrinks-trans h
                  (world-Shrinks u true u.world (λ x. inr (inl (o, op, s.world, b)))))
          | inr b ↦
              simp (a, b)
                (Shrinks-trans h (
                  deliver-Rel env Shrinks Shrinks-refl (λ s t u. Shrinks-trans) world-Shrinks
                    idle-Shrinks filter-Shrinks begin-Shrinks o called.2 _))
        ])
    | inr a ↦ inl (simp a (Shrinks-refl s))
  ]
