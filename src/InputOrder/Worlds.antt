-- ===== src/InputOrder/Worlds.antt =====
-- A rule for invariants of the world that the callbacks of the scheduler share: what each callback
-- keeps, every call of the scheduler keeps.
use floe_native_apps.Prelude.{
  ℕ, zero, suc, ◌+◌, ◌≡◌, sym, subst, false, true, not, ◌||◌, Option, none, some, List, [], ◌∷◌,
  ◌++◌, leb, ◌==◌, length, Bool-cases, inl, inr,
}
use floe_native_apps.Python.Text.{Text}
use floe_native_apps.InputOrder.Shrink.{until_broken-cases}
use floe_native_apps.InputOrder.{
  Owner, InputError, Outcome, deferred, completed, raised, Delivery, Env, Pending, State,
  delivery_timeout, delivery_timeout_ms, delivery_failed, queue_limit, others, each, owned_by,
  is_pending, clear_timer, cancel_in, cancel_pending, retire, report, settle, after_commit, deliver,
  turn, loop_in, drain, until_broken, invalidated, enqueue, complete_in, complete, expire, close,
  is_some, transaction,
}

-- `admit` and `result` are called for an owner that is available.
pub record KeepsWorld {ℓ} {W Op : Type 0} (env : Env W Op) (Q : W → Type ℓ) : Type ℓ where
  pub admit :
      (o : Owner) (op : Op) (w : W) → env.available o w ≡ true → Q w → Q (env.admit o op w).0
  pub result :
      (o : Owner) (n : ℕ) (e : Option InputError) (w : W)
      → env.available o w ≡ true
      → Q w
      → Q (env.result o n e w).0
  pub after_result :
      (o : Owner) (n : ℕ) (e : Option InputError) (w v : W) → Q v → Q (env.after_result o n e w v)
  pub overflow : (o : Owner) (w : W) → Q w → Q (env.overflow o w).0
  pub timeout_add : (n : ℕ) (w : W) → Q w → Q (env.timeout_add n w).0
  pub timeout_remove : (n : ℕ) (w : W) → Q w → Q (env.timeout_remove n w)
  pub commit : (a t : ℕ) (x : Text) (w : W) → Q w → Q (env.commit a t x w).0
  pub cancel : (a t : ℕ) (w : W) → Q w → Q (env.cancel a t w)

module _ {ℓ} {W Op : Type 0} (env : Env W Op) (Q : W → Type ℓ) (k : KeepsWorld env Q) where
  world_clear_timer : (s : State W Op) → Q s.world → Q (clear_timer env s).world
  unfolding clear_timer
  world_clear_timer s h = elim (Bool-cases (s.timer == 0)) [
    | inl e ↦ simp e h
    | inr e ↦ simp e (k.timeout_remove s.timer s.world h)
  ]

  world_cancel_in : (p : Option Pending) (s : State W Op) → Q s.world → Q (cancel_in env p s).world
  unfolding cancel_in
  world_cancel_in none s h = h
  world_cancel_in (some p) s h =
      k.cancel p.adapter p.token _ (world_clear_timer (record s { pending = none }) h)

  world_retire : (o : Owner) (s : State W Op) → Q s.world → Q (retire env o s).world
  unfolding retire cancel_pending
  world_retire o s h = elim (Bool-cases (owned_by o s.pending)) [
    | inl e ↦ simp e (world_cancel_in s.pending (record s { queue = others o s.queue }) h)
    | inr e ↦ simp e h
  ]

  pub world_each :
      (f : Owner → State W Op → State W Op)
      → ((o : Owner) (s : State W Op) → Q s.world → Q (f o s).world)
      → (os : List Owner) (s : State W Op) → Q s.world
      → Q (each f os s).world
  world_each f g [] s h = h
  world_each f g (o ∷ os) s h = world_each f g os (f o s) (g o s h)

  world_report :
      (f : Owner → State W Op → State W Op)
      → ((o : Owner) (s : State W Op) → Q s.world → Q (f o s).world)
      → (p : Pending) (e : Option InputError) (s : State W Op) → Q s.world
      → Q (report env f p e s).world
  unfolding report
  world_report f g p e s h =
      let r = env.result p.owner p.sequence e s.world in
      elim (Bool-cases (env.available p.owner s.world)) [
        | inl a ↦
            let u : State W Op = record s { world = r.0 } in
            let handed = world_each f g r.1 u (k.result p.owner p.sequence e s.world a h) in
            elim (Bool-cases (each f r.1 u).broken) [
              | inl b ↦ simp (a, b) handed
              | inr b ↦ simp (a, b) (k.after_result p.owner p.sequence e s.world _ handed)
            ]
        | inr a ↦ simp a h
      ]

  world_settle :
      (f : Owner → State W Op → State W Op)
      → ((o : Owner) (s : State W Op) → Q s.world → Q (f o s).world)
      → (p : Pending) (e : Option InputError) (s : State W Op) → Q s.world
      → Q (settle env f p e s).world
  unfolding settle
  world_settle f g p none s h =
      world_report f g p none (record (clear_timer env s) { pending = none })
        (world_clear_timer s h)
  world_settle f g p (some e) s h =
      let t : State W Op = record (clear_timer env s) { pending = none } in
      world_report f g p (some e) (record t { world = env.cancel p.adapter p.token t.world })
        (k.cancel p.adapter p.token t.world (world_clear_timer s h))

  world_after_commit :
      (p : Pending) (o : Outcome) (s : State W Op) → Q s.world → Q (after_commit env p o s).world
  unfolding after_commit
  world_after_commit p deferred s h = h
  world_after_commit p (completed e) s h = world_settle (retire env) world_retire p e s h
  world_after_commit p raised s h =
      world_settle (retire env) world_retire p (some delivery_failed) s h

  world_deliver :
      (o : Owner) (d : Option Delivery) (s : State W Op) → Q s.world → Q (deliver env o d s).world
  unfolding deliver
  world_deliver o none s h = h
  world_deliver o (some d) s h =
      let added = env.timeout_add delivery_timeout_ms s.world in
      let called = env.commit d.adapter d.token d.text added.0 in
      let u : State W Op = record s {
        pending = some (transaction o d s.serial);
        serial = s.serial + 1;
        timer = added.1;
        world = called.0;
      } in
      let t = each (retire env) called.1 u in
      let begun =
        world_each (retire env) world_retire called.1 u
          (k.commit d.adapter d.token d.text _ (k.timeout_add delivery_timeout_ms s.world h)) in
      elim (Bool-cases (is_pending s.serial t.pending)) [
        | inl a ↦ simp a (world_after_commit (transaction o d s.serial) called.2 t begun)
        | inr a ↦ simp a begun
      ]

  world_turn : (o : Owner) (op : Op) (s : State W Op) → Q s.world → Q (turn env o op s).world
  unfolding turn
  world_turn o op s h =
      let r = env.admit o op s.world in
      elim (Bool-cases (env.available o s.world)) [
        | inl a ↦
            let u : State W Op = record s { admitted = s.admitted ++ (o, op) ∷ []; world = r.0 } in
            let handed = world_each (retire env) world_retire r.1 u (k.admit o op s.world a h) in
            elim (Bool-cases (env.admit_raises o op s.world)) [
              | inl b ↦ simp (a, b) handed
              | inr b ↦ simp (a, b) (world_deliver o r.2 _ handed)
            ]
        | inr a ↦ simp a h
      ]

  world_loop :
      (fuel : ℕ) (q : List (Owner × Op)) (s : State W Op)
      → Q s.world
      → Q (loop_in env fuel q s).world
  unfolding loop_in
  world_loop zero q s h = h
  world_loop (suc fuel) [] s h = h
  world_loop (suc fuel) ((o, op) ∷ q) s h =
      let t = turn env o op (record s { queue = q }) in
      let more = world_loop fuel t.queue t (world_turn o op (record s { queue = q }) h) in
      elim (Bool-cases (is_some s.pending || s.closed || s.broken)) [
        | inl b ↦ simp b h
        | inr b ↦ simp b more
      ]

  world_drain : (s : State W Op) → Q s.world → Q (drain env s).world
  unfolding drain
  world_drain s h = elim (Bool-cases (s.draining || s.closed)) [
    | inl b ↦ simp b h
    | inr b ↦
        simp b
          (world_loop (length s.queue) s.queue (record s { draining = true; broken = false }) h)
  ]

  pub world_invalidated : (o : Owner) (s : State W Op) → Q s.world → Q (invalidated env o s).world
  unfolding invalidated
  world_invalidated o s h = world_drain (retire env o s) (world_retire o s h)

  pub world_until_broken : (o : Owner) (s : State W Op) → Q s.world → Q (until_broken env o s).world
  world_until_broken o s h = elim (until_broken-cases env o s) [
    | inl (e, b) ↦ subst (λ t. Q t.world) (sym e) h
    | inr (e, b) ↦ subst (λ t. Q t.world) (sym e) (world_invalidated o s h)
  ]

  pub world_enqueue :
      (o : Owner) (op : Op) (s : State W Op) → Q s.world → Q (enqueue env o op s).world
  unfolding enqueue
  world_enqueue o op s h = elim (Bool-cases (s.closed || not (env.available o s.world))) [
    | inl b ↦ simp b h
    | inr b ↦ elim (Bool-cases (leb queue_limit (length s.queue))) [
      | inl f ↦
          simp (b, f)
            (let called = env.overflow o s.world in
              world_until_broken o _ (
                world_each (until_broken env) world_until_broken called.1
                  (record s { world = called.0; broken = false }) (k.overflow o s.world h)))
      | inr f ↦ simp (b, f) (world_drain (record s { queue = s.queue ++ (o, op) ∷ [] }) h)
    ]
  ]

  world_complete_in :
      (x : Option Pending) (n : ℕ) (e : Option InputError) (s : State W Op)
      → Q s.world
      → Q (complete_in env x n e s).world
  unfolding complete_in
  world_complete_in none n e s h = h
  world_complete_in (some p) n e s h = elim (Bool-cases (p.serial == n)) [
    | inl b ↦
        let t = settle env (until_broken env) p e (record s { broken = false }) in
        let done : Q t.world =
          world_settle (until_broken env) world_until_broken p e (record s { broken = false }) h in
        elim (Bool-cases t.broken) [
          | inl c ↦ simp (b, c) done
          | inr c ↦ simp (b, c) (world_drain t done)
        ]
    | inr b ↦ simp b h
  ]

  pub world_complete :
      (n : ℕ) (e : Option InputError) (s : State W Op) → Q s.world → Q (complete env n e s).world
  unfolding complete
  world_complete n e s h = world_complete_in s.pending n e s h

  pub world_expire : (n : ℕ) (s : State W Op) → Q s.world → Q (expire env n s).world
  unfolding expire
  world_expire n s h = elim (Bool-cases (is_pending n s.pending)) [
    | inl b ↦ simp b (world_complete n (some delivery_timeout) (record s { timer = 0 }) h)
    | inr b ↦ simp b h
  ]

  pub world_close : (s : State W Op) → Q s.world → Q (close env s).world
  unfolding close cancel_pending
  world_close s h = world_cancel_in s.pending (record s { closed = true; queue = [] }) h
