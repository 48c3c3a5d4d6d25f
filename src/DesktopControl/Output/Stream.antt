-- ===== src/DesktopControl/Output/Stream.antt =====
-- The bytes of a peer reach the socket in the order in which they were queued.
use floe_native_apps.Prelude.{
  ℕ, ◌≡◌, min, refl, sym, ap, ◌∙◌, ◌⊎◌, inl, inr, true, Option, none, some, List, [], ◌∷◌, ◌++◌,
  ltb, ◌==◌, length, take, drop, take-append-drop, arith, Bool-cases, append_assoc,
}
use floe_native_apps.DesktopControl.Reader.{Bytes, max_message}
use floe_native_apps.DesktopControl.Output.{
  Completed, nothing, frame, cursor, Entry, Peer, shut, Answer, takes, blocks, fails, finish, took,
  round, write_in, write,
}

abbrev pub flat : List Entry → Bytes
flat [] = []
flat (e ∷ es) = e.bytes ++ flat es

-- What the socket took, and then what is queued.
abbrev pub stream : Peer → Bytes
stream p = p.sent ++ flat p.output

take_whole : (n : ℕ) (bs : Bytes) → n ≡ length bs → take n bs ≡ bs
take_whole n [] e = rw e refl
take_whole n (b ∷ bs) e = rw e (ap (λ r. b ∷ r) (take_whole (length bs) bs refl))

finish-stream : (c : Completed) (p : Peer) → stream (finish c p) ≡ stream p
finish-stream nothing p = refl
finish-stream frame p = refl
finish-stream cursor p = refl

moved :
    (n : ℕ) (bs sent tail : Bytes)
    → (sent ++ take n bs) ++ (drop n bs ++ tail) ≡ sent ++ (bs ++ tail)
moved n bs sent tail =
    append_assoc sent (take n bs) (drop n bs ++ tail)
    ∙ ap (λ x. sent ++ x)
        (sym (append_assoc (take n bs) (drop n bs) tail)
          ∙ ap (λ x. x ++ tail) (take-append-drop n bs))

took-stream :
    (n : ℕ) (e : Entry) (rest : List Entry) (p : Peer)
    → p.output ≡ e ∷ rest
    → stream (took n e rest p) ≡ stream p
unfolding took
took-stream n e rest p h =
    let end : p.sent ++ (e.bytes ++ flat rest) ≡ stream p = ap (λ x. p.sent ++ flat x) (sym h) in
    elim (Bool-cases (n == length e.bytes)) [
      | inl b ↦ simp b (
          finish-stream e.completed _
          ∙ ap (λ x. (p.sent ++ x) ++ flat rest) (take_whole n e.bytes (ground arith))
          ∙ append_assoc p.sent e.bytes (flat rest)
          ∙ end)
      | inr b ↦ simp b (moved n e.bytes p.sent (flat rest) ∙ end)
    ]

-- The peer closed, or its stream as it was.
abbrev pub Keeps : Peer → Peer → Type 0
Keeps p q = (q.closed ≡ true) ⊎ (stream q ≡ stream p)

shut-closed : (p : Peer) → (shut p).closed ≡ true
shut-closed p = elim (Bool-cases p.closed) [ inl e ↦ simp e refl | inr e ↦ simp e refl ]

-- A round keeps the stream, or closes the peer and ends the loop.
round_cases :
    (a : Answer) (n : ℕ) (es : List Entry) (p : Peer)
    → p.output ≡ es
    → (stream (round a n es p).1 ≡ stream p)
      ⊎ (((round a n es p).0 ≡ none) × ((round a n es p).1.closed ≡ true))
unfolding round
round_cases a n [] p e = inl refl
round_cases blocks n (x ∷ es) p e = inl refl
round_cases fails n (x ∷ es) p e = inr (refl, shut-closed p)
round_cases (takes k) n (x ∷ es) p e =
    let count = min k (min n (length x.bytes)) in
    elim (Bool-cases (count == 0)) [
      | inl c ↦ simp c (inr (refl, shut-closed p))
      | inr c ↦ simp c (inl (took-stream count x es p e))
    ]

write_in-none : (answers : List Answer) (p : Peer) → write_in answers none p ≡ p
unfolding write_in
write_in-none [] p = refl
write_in-none (a ∷ answers) p = refl

write_in-Keeps : (answers : List Answer) (b : Option ℕ) (p : Peer) → Keeps p (write_in answers b p)
unfolding write_in
write_in-Keeps [] b p = inr refl
write_in-Keeps (a ∷ answers) none p = inr refl
write_in-Keeps (a ∷ answers) (some n) p =
    let r = round a n p.output p in
    elim (Bool-cases (ltb 0 n)) [
      | inr e ↦ simp e (inr refl)
      | inl e ↦ elim (round_cases a n p.output p refl) [
        | inr (o, c) ↦ inl (rw (e, o, write_in-none answers r.1) c)
        | inl s ↦
            simp e (elim (write_in-Keeps answers r.0 r.1) [ inl c ↦ inl c | inr t ↦ inr (t ∙ s) ])
      ]
    ]

-- A write, whatever the socket takes of what it is offered, closes the peer or loses, repeats and
-- reorders nothing: what was taken, followed by what is queued, is as before.
pub write-Keeps : (answers : List Answer) (p : Peer) → Keeps p (write answers p)
unfolding write
write-Keeps answers p = elim (Bool-cases p.closed) [
  | inl e ↦ simp e (inr refl)
  | inr e ↦ simp e (write_in-Keeps answers (some max_message) p)
]
