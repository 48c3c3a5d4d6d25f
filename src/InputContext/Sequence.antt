-- ===== src/InputContext/Sequence.antt =====
-- Sequences are never used twice, and a completed text was handed to the toolkit that completes it.
use floe_native_apps.Prelude.{
  ℕ, ◌≤◌, ◌≡◌, refl, Bool, true, false, ◌&&◌, Option, none, some, List, [], ◌∷◌, ◌==◌, any, arith,
  Option-cases, Bool-cases, subst, sym, ◌∙◌, ap, inl, inr,
}
use floe_native_apps.Python.Text.{Text, text_eq, text_eq_refl, eq_of_text_eq}
use floe_native_apps.InputContext.{
  Operation, Contexts, InputError, new, finish, owner_changed, commit, cancel, hand_over, take_in,
  take, done_in, done, register, close, Call, owner_changes, commits, cancels, takes, dones,
  registers, closes, step, run, max_sequence, is_some, matches,
}

-- Whether the text of a sequence was handed to a sender.
abbrev pub was_taken : Text → ℕ → List (Text × ℕ) → Bool
was_taken sender n log = any (λ e. text_eq e.0 sender && e.1 == n) log

abbrev pub IsSound : Option Operation → ℕ → List (Text × ℕ) → Type 0
IsSound none n log = Unit
IsSound (some o) n log =
    (o.sequence ≤ n)
    × (o.sequence ≤ max_sequence)
    × (is_some o.text ≡ false → was_taken o.sender o.sequence log ≡ true)

abbrev pub IsValid : Contexts → Type 0
IsValid s = IsSound s.pending s.sequence s.taken

-- The counter of sequences never falls, and every new operation is above all before it.
step-sequence : (s : Contexts) (c : Call) → s.sequence ≤ (step s c).0.sequence
unfolding step owner_changed commit finish cancel take done register close
step-sequence s (owner_changes x g) = ground arith
step-sequence s (commits t x c k m) = ground arith
step-sequence s (cancels t) = ground arith
step-sequence s (takes x n a) = ground arith
step-sequence s (dones x n) = ground arith
step-sequence s (registers x p v t) = ground arith
step-sequence s closes = ground arith

hand_over-IsValid :
    (o : Operation) (x : Option Text) (a : Bool) (s : Contexts)
    → o.text ≡ x
    → s.pending ≡ some o
    → IsValid s
    → IsValid (hand_over o x a s).1
unfolding hand_over finish
hand_over-IsValid o none a s e p h = h
hand_over-IsValid o (some t) true s e p h = ground (arith, text_eq_refl o.sender)
hand_over-IsValid o (some t) false s e p h = ground arith

take_in-IsValid :
    (x : Option Operation) (sender : Text) (n : ℕ) (a : Bool) (s : Contexts)
    → s.pending ≡ x
    → IsValid s
    → IsValid (take_in x sender n a s).1
unfolding take_in
take_in-IsValid none sender n a s e h = h
take_in-IsValid (some o) sender n a s e h = elim (Bool-cases (matches sender n o)) [
  | inl b ↦ simp b (hand_over-IsValid o o.text a s refl e h)
  | inr b ↦ simp b h
]

step-IsValid : (s : Contexts) (c : Call) → IsValid s → IsValid (step s c).0
unfolding step owner_changed commit finish cancel take done register close
step-IsValid s (owner_changes x g) h = ground arith
step-IsValid s (commits t x c k m) h = ground arith
step-IsValid s (cancels t) h = ground arith
step-IsValid s (takes x n a) h = take_in-IsValid s.pending x n a s refl h
step-IsValid s (dones x n) h = ground arith
step-IsValid s (registers x p v t) h = ground arith
step-IsValid s closes h = tt

run-IsValid : (s : Contexts) (cs : List Call) → IsValid s → IsValid (run s cs)
unfolding run
run-IsValid s [] h = h
run-IsValid s (c ∷ cs) h = run-IsValid (step s c).0 cs (step-IsValid s c h)

new-IsValid : IsValid new
unfolding new
new-IsValid = tt

finish-pending : (e : Option InputError) (s : Contexts) → (finish e s).0.pending ≡ none
unfolding finish
finish-pending e s = ground arith

finish_call :
    (e : Option InputError) (s : Contexts) {o : Operation}
    → s.pending ≡ some o
    → (finish e s).1 ≡ some (o.completed, e)
unfolding finish
finish_call e s h = ground arith

done_in_accepted :
    (o : Operation) (sender : Text) (n : ℕ) (s : Contexts)
    → (done_in (some o) sender n s).0 ≡ true
    → (text_eq o.sender sender ≡ true)
      × (o.sequence ≡ n)
      × (is_some o.text ≡ false)
      × ((done_in (some o) sender n s).1 ≡ (finish none s).0)
      × ((done_in (some o) sender n s).2 ≡ (finish none s).1)
unfolding done_in
done_in_accepted o sender n s h = ground arith

-- From new contexts, after any calls: a `done` that is accepted names the sender and the sequence of
-- the pending operation, whose text that same sender has taken; it calls `completed` of this operation
-- with no error, and nothing is pending after it.
pub done_taken :
    (cs : List Call) (sender : Text) (n : ℕ)
    → (done sender n (run new cs)).0 ≡ true
    → (o : Operation) × ((run new cs).pending ≡ some o)
      × (o.sender ≡ sender)
      × (o.sequence ≡ n)
      × (was_taken o.sender n (run new cs).taken ≡ true)
      × ((done sender n (run new cs)).2 ≡ some (o.completed, none))
      × ((done sender n (run new cs)).1.pending ≡ none)
unfolding done
done_taken cs sender n h = elim (Option-cases (run new cs).pending) [
  | inl e ↦ cc (rw (e, done_in) at h)
  | inr (o, e) ↦
      let s = run new cs in
      let k = done_in_accepted o sender n s (subst (λ x. (done_in x sender n s).0 ≡ true) e h) in
      let v = run-IsValid new cs new-IsValid in
      (
        o,
        e,
        eq_of_text_eq o.sender sender k.0,
        k.1,
        subst (λ m. was_taken o.sender m s.taken ≡ true) k.1
            ((subst (λ p. IsSound p s.sequence s.taken) e v).2 k.2),
        subst (λ x. (done_in x sender n s).2 ≡ some (o.completed, none)) (sym e)
            (k.4 ∙ finish_call none s e),
        subst (λ x. (done_in x sender n s).1.pending ≡ none) (sym e)
            (ap (λ (c : Contexts). c.pending) k.3 ∙ finish-pending none s),
      )
]
