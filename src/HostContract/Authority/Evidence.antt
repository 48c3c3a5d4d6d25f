-- ===== src/HostContract/Authority/Evidence.antt =====
-- What must have happened in a generation before its input is accepted.
use floe_native_apps.Prelude.{
  ◌+◌, ◌≤◌, ◌<◌, ◌≡◌, refl, ◌⊎◌, inl, inr, ap, sym, ◌∙◌, List, [], ◌∷◌, ◌++◌, arith, ok, err, true,
  Result-cases,
}
use floe_native_apps.Python.Value.{Value, eq_nat, eq_nat_unique}
use floe_native_apps.HostContract.{integer, stale_desktop}
use floe_native_apps.HostContract.Authority.{
  Authority, DesktopState, active, control, Call, binds, revokes, binds_locked_frame, sends, paints,
  new, sent, paint, revoke, input, step, run,
}

-- A call never lowers the generation.
step-generation : (s : Authority) (c : Call) → s.generation ≤ (step s c).generation
unfolding step
step-generation s (binds d m) = ground arith
step-generation s (revokes st) = ground arith
step-generation s (binds_locked_frame f) = ground arith
step-generation s (sends f) = ground arith
step-generation s (paints g f) = ground arith

pub run-generation : (s : Authority) (cs : List Call) → s.generation ≤ (run s cs).generation
unfolding run
run-generation s [] = omega arith
run-generation s (c ∷ cs) = omega (arith, step-generation s c, run-generation (step s c) cs)

generation-revoke :
    (s : Authority) (st : DesktopState) → (revoke st s).generation ≡ s.generation + 1
unfolding revoke
generation-revoke s st = refl

-- After a revocation no later call makes the earlier generation's input acceptable again.
pub input-revoke :
    (s : Authority) (st : DesktopState) (cs : List Call) (g : Value)
    → eq_nat g s.generation ≡ true
    → input g (run (revoke st s) cs) ≡ err stale_desktop
unfolding input
input-revoke s st cs g h = ground (
  arith,
  run-generation (revoke st s) cs,
  eq_nat_unique g s.generation (run (revoke st s) cs).generation,
  generation-revoke s st,
)

-- The call of `paint` that set a positive `last_painted`.
pub record PaintedBy (s : Authority) (cs : List Call) : Type 0 where
  pub before : List Call
  pub after : List Call
  pub generation : Value
  pub frame : Value
  pub split : cs ≡ before ++ paints generation frame ∷ after
  pub accepted : (t : Authority) × (paint generation frame (run s before) ≡ ok t)
  pub same : (run s before).generation ≡ (run s cs).generation

paint-generation :
    (s : Authority) (g f : Value) {t : Authority}
    → paint g f s ≡ ok t
    → (step s (paints g f)).generation ≡ s.generation
unfolding step
paint-generation s g f e = ground arith

paint-step :
    (s : Authority) (c : Call)
    → 0 < (step s c).last_painted
    → ((0 < s.last_painted) × ((step s c).generation ≡ s.generation))
      ⊎ ((g f : Value) × (t : Authority) × (c ≡ paints g f)
          × (paint g f s ≡ ok t)
          × ((step s c).generation ≡ s.generation))
unfolding step
paint-step s (binds d m) h = ground arith
paint-step s (revokes st) h = ground arith
paint-step s (binds_locked_frame f) h = ground arith
paint-step s (sends f) h = ground arith
paint-step s (paints g f) h = elim (Result-cases (paint g f s)) [
  | inl (t, e) ↦ inr (g, f, t, refl, e, paint-generation s g f e)
  | inr (x, e) ↦ inl (ground arith)
]

-- A painted frame was there from the start, or a `paint` of the same generation set it.
painted_cases :
    (s : Authority) (cs : List Call)
    → 0 < (run s cs).last_painted
    → ((0 < s.last_painted) × ((run s cs).generation ≡ s.generation)) ⊎ PaintedBy s cs
unfolding run
painted_cases s [] h = inl (h, refl)
painted_cases s (c ∷ cs) h = elim (painted_cases (step s c) cs h) [
  | inl (p, e) ↦ elim (paint-step s c p) [
    | inl (q, e') ↦ inl (q, e ∙ e')
    | inr (g, f, t, ec, a, e') ↦ inr (record {
      before = [];
      after = cs;
      generation = g;
      frame = f;
      split = ap (λ x. x ∷ cs) ec;
      accepted = (t, a);
      same = sym (e ∙ e');
    })
  ]
  | inr p ↦ inr (record {
    before = c ∷ p.before;
    after = p.after;
    generation = p.generation;
    frame = p.frame;
    split = ap (λ x. c ∷ x) p.split;
    accepted = p.accepted;
    same = p.same;
  })
]

-- The call of `sent` that set a positive `last_sent`.
pub record SentBy (s : Authority) (cs : List Call) : Type 0 where
  pub before : List Call
  pub after : List Call
  pub frame : Value
  pub split : cs ≡ before ++ sends frame ∷ after
  pub accepted : (t : Authority) × (sent frame (run s before) ≡ ok t)
  pub same : (run s before).generation ≡ (run s cs).generation

sent-generation :
    (s : Authority) (f : Value) {t : Authority}
    → sent f s ≡ ok t
    → (step s (sends f)).generation ≡ s.generation
unfolding step
sent-generation s f e = ground arith

sent-step :
    (s : Authority) (c : Call)
    → 0 < (step s c).last_sent
    → ((0 < s.last_sent) × ((step s c).generation ≡ s.generation))
      ⊎ ((f : Value) × (t : Authority) × (c ≡ sends f)
          × (sent f s ≡ ok t)
          × ((step s c).generation ≡ s.generation))
unfolding step
sent-step s (binds d m) h = ground arith
sent-step s (revokes st) h = ground arith
sent-step s (binds_locked_frame f) h = ground arith
sent-step s (paints g f) h = inl (ground arith)
sent-step s (sends f) h = elim (Result-cases (sent f s)) [
  | inl (t, e) ↦ inr (f, t, refl, e, sent-generation s f e)
  | inr (x, e) ↦ inl (ground arith)
]

sent_cases :
    (s : Authority) (cs : List Call)
    → 0 < (run s cs).last_sent
    → ((0 < s.last_sent) × ((run s cs).generation ≡ s.generation)) ⊎ SentBy s cs
unfolding run
sent_cases s [] h = inl (h, refl)
sent_cases s (c ∷ cs) h = elim (sent_cases (step s c) cs h) [
  | inl (p, e) ↦ elim (sent-step s c p) [
    | inl (q, e') ↦ inl (q, e ∙ e')
    | inr (f, t, ec, a, e') ↦ inr (record {
      before = [];
      after = cs;
      frame = f;
      split = ap (λ x. x ∷ cs) ec;
      accepted = (t, a);
      same = sym (e ∙ e');
    })
  ]
  | inr p ↦ inr (record {
    before = c ∷ p.before;
    after = p.after;
    frame = p.frame;
    split = ap (λ x. c ∷ x) p.split;
    accepted = p.accepted;
    same = p.same;
  })
]

input-painted :
    (g : Value) (s : Authority)
    → input g s ≡ ok tt
    → (0 < s.last_painted)
      × (eq_nat g s.generation ≡ true)
      × (s.state ≡ active)
      × (s.mode ≡ control)
unfolding input
input-painted g s h = ground arith

paint-sent : (g f : Value) (s : Authority) {t : Authority} → paint g f s ≡ ok t → 0 < s.last_sent
unfolding paint integer
paint-sent g f s h = ground arith

-- A frame that was sent and then painted, both in the generation that the calls end in.
pub record Shown (s : Authority) (cs : List Call) : Type 0 where
  pub painted : PaintedBy s cs
  pub shown : SentBy s painted.before

-- Input is accepted from a new object only in the current generation, bound for control and active,
-- after an accepted `sent` and then an accepted `paint` in that same generation.
pub input-Shown :
    (g : Value) (cs : List Call)
    → input g (run new cs) ≡ ok tt
    → (eq_nat g (run new cs).generation ≡ true)
      × ((run new cs).state ≡ active)
      × ((run new cs).mode ≡ control)
      × Shown new cs
unfolding new
input-Shown g cs h =
    let facts = input-painted g (run new cs) h in
    elim (painted_cases new cs facts.0) [
      | inl (p, e) ↦ absurd (omega arith)
      | inr p ↦
          elim (sent_cases new p.before
            (paint-sent p.generation p.frame (run new p.before) p.accepted.1)) [
              | inl (q, e') ↦ absurd (omega arith)
              | inr q ↦ (facts.1, facts.2, facts.3, record { painted = p; shown = q })
            ]
    ]
