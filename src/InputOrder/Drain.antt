-- ===== src/InputOrder/Drain.antt =====
-- A drain ends, and admits what it takes from the queue in the queue's order.
use floe_native_apps.Prelude.{
  ℕ, zero, suc, ◌≤◌, ◌≡◌, refl, ◌⊎◌, inl, inr, true, false, ◌||◌, List, [], ◌∷◌, length, arith,
  Sub-refl, length-Sub, Bool-cases, Sub-append, skip, keep, append_assoc,
}
use floe_native_apps.InputOrder.{Owner, Env, State, turn, loop_in, drain, is_some}
use floe_native_apps.InputOrder.Shrink.{Drains, Drains-refl, Drains-trans, turn-Shrinks}

module _ {W Op : Type 0} (env : Env W Op) where
  -- One round of the loop, from the state that still has the item in its queue.
  turn-Drains :
      (o : Owner) (op : Op) (rest : List (Owner × Op)) (s : State W Op)
      → s.queue ≡ (o, op) ∷ rest
      → Drains s (turn env o op (record s { queue = rest }))
  turn-Drains o op rest s e =
      let r : State W Op = record s { queue = rest } in
      let t = turn env o op r in
      elim (turn-Shrinks env o op r) [
        | inl h ↦ record {
          order =
              rw (h.admitted, e) (Sub-append t.queue _ (Sub-refl s.admitted) (skip (o, op) h.sub));
          sub = rw e (skip (o, op) h.sub);
          closed = h.closed;
          draining = h.draining;
        }
        | inr h ↦ record {
          order =
              rw (h.admitted, e, append_assoc)
                (Sub-append ((o, op) ∷ t.queue) _ (Sub-refl s.admitted) (keep (o, op) h.sub));
          sub = rw e (skip (o, op) h.sub);
          closed = h.closed;
          draining = h.draining;
        }
      ]

  turn-length :
      (o : Owner) (op : Op) (rest : List (Owner × Op)) (s : State W Op)
      → length (turn env o op (record s { queue = rest })).queue ≤ length rest
  turn-length o op rest s = elim (turn-Shrinks env o op (record s { queue = rest })) [
    | inl h ↦ length-Sub h.sub
    | inr h ↦ length-Sub h.sub
  ]

  loop_in-Drains :
      (fuel : ℕ) (q : List (Owner × Op)) (s : State W Op)
      → s.queue ≡ q
      → Drains s (loop_in env fuel q s)
  unfolding loop_in
  loop_in-Drains zero q s e = Drains-refl s
  loop_in-Drains (suc fuel) [] s e = Drains-refl s
  loop_in-Drains (suc fuel) ((o, op) ∷ rest) s e =
      let t = turn env o op (record s { queue = rest }) in
      let ih = loop_in-Drains fuel t.queue t refl in
      elim (Bool-cases (is_some s.pending || s.closed || s.broken)) [
        | inl b ↦ simp b (Drains-refl s)
        | inr b ↦ simp b (Drains-trans (turn-Drains o op rest s e) ih)
      ]

  -- The loop has enough fuel: it ends with an empty queue, a pending transaction, a closed scheduler
  -- or an exception.
  loop_in_ends :
      (fuel : ℕ) (q : List (Owner × Op)) (s : State W Op)
      → s.queue ≡ q
      → length q ≤ fuel
      → ((loop_in env fuel q s).queue ≡ [])
        ⊎ (is_some (loop_in env fuel q s).pending
              || (loop_in env fuel q s).closed
              || (loop_in env fuel q s).broken
            ≡ true)
  unfolding loop_in
  loop_in_ends zero [] s e h = inl e
  loop_in_ends zero (x ∷ q) s e h = absurd (omega arith)
  loop_in_ends (suc fuel) [] s e h = inl e
  loop_in_ends (suc fuel) ((o, op) ∷ rest) s e h =
      let t = turn env o op (record s { queue = rest }) in
      let ih = loop_in_ends fuel t.queue t refl (omega (arith, turn-length o op rest s)) in
      elim (Bool-cases (is_some s.pending || s.closed || s.broken)) [
        | inl b ↦ simp b (inr refl)
        | inr b ↦ simp b ih
      ]

  -- A drain changes nothing but the queue, in order, and what follows from admitting its items.
  pub drain-Drains : (s : State W Op) → Drains s (drain env s)
  unfolding drain
  drain-Drains s = elim (Bool-cases (s.draining || s.closed)) [
    | inl b ↦ simp b (Drains-refl s)
    | inr b ↦
        let h =
          loop_in-Drains (length s.queue) s.queue (record s { draining = true; broken = false })
            refl in
        simp b (record { order = h.order; sub = h.sub; closed = h.closed; draining = ground arith })
  ]

  -- After a drain of an open scheduler no item waits without a reason: the queue is empty, a
  -- transaction is pending, or an exception ended the drain.
  pub drain_ends :
      (s : State W Op)
      → s.draining ≡ false
      → s.closed ≡ false
      → ((drain env s).queue ≡ []) ⊎ (is_some (drain env s).pending || (drain env s).broken ≡ true)
  unfolding drain
  drain_ends s d c =
      let r : State W Op = record s { draining = true; broken = false } in
      let t = loop_in env (length s.queue) s.queue r in
      let h = loop_in-Drains (length s.queue) s.queue r refl in
      let going : (s.draining || s.closed) ≡ false = ground arith in
      elim (loop_in_ends (length s.queue) s.queue r refl (omega arith)) [
        | inl e ↦ inl (simp going e)
        | inr e ↦ inr (simp going (ground (arith, h.closed)))
      ]
