-- ===== src/DesktopControl/Reader/Chunks.antt =====
-- How the bytes of the messages are spread over reads makes no difference.
use floe_native_apps.Prelude.{
  ℕ, zero, suc, ◌+◌, ◌≤◌, ◌<◌, ◌≡◌, ◌≢◌, ◌⊎◌, refl, sym, ap, ◌∙◌, true, false, not, ◌||◌, [], ◌∷◌,
  ◌++◌, ltb, ◌==◌, length, length-append, length-drop, take, drop, arith, Bool-cases, inl, inr,
  append_assoc,
}
use floe_native_apps.DesktopControl.Reader.{
  Bytes, max_message, unpack, App, Reader, Split, short, bad, whole, body_of, split, shut,
  admission, request, parsed, message, loop, extend, read,
}

-- More bytes leave what is found before them.
abbrev onto : Bytes → Split → Split
onto b short = short
onto b bad = bad
onto b (whole body rest) = whole body (rest ++ b)

take-append : (n : ℕ) (xs ys : Bytes) → n ≤ length xs → take n (xs ++ ys) ≡ take n xs
take-append zero xs ys h = refl
take-append (suc n) [] ys h = ground arith
take-append (suc n) (x ∷ xs) ys h = ap (λ r. x ∷ r) (take-append n xs ys (omega arith))

drop-append : (n : ℕ) (xs ys : Bytes) → n ≤ length xs → drop n (xs ++ ys) ≡ drop n xs ++ ys
drop-append zero xs ys h = refl
drop-append (suc n) [] ys h = ground arith
drop-append (suc n) (x ∷ xs) ys h = drop-append n xs ys (omega arith)

body_of-append :
    (n : ℕ) (xs b : Bytes) → body_of n xs ≢ short → body_of n (xs ++ b) ≡ onto b (body_of n xs)
unfolding body_of
body_of-append n xs b h = elim (Bool-cases (ltb (length xs) n)) [
  | inl e ↦ absurd (h (simp e))
  | inr e ↦
      let l = length-append xs b in
      simp (e, take-append n xs b (ground arith), drop-append n xs b (ground arith)) (ground arith)
]

split-append : (xs b : Bytes) → split xs ≢ short → split (xs ++ b) ≡ onto b (split xs)
unfolding split
split-append [] b h = absurd (h refl)
split-append (k ∷ []) b h = absurd (h refl)
split-append (k ∷ x ∷ []) b h = absurd (h refl)
split-append (k ∷ x ∷ y ∷ []) b h = absurd (h refl)
split-append (k ∷ x ∷ y ∷ z ∷ []) b h = absurd (h refl)
split-append (k ∷ x ∷ y ∷ z ∷ w ∷ rest) b h =
    elim (Bool-cases (not (k == 1) || unpack x y z w == 0 || ltb max_message (unpack x y z w))) [
      | inl e ↦ simp e
      | inr e ↦ simp e (body_of-append (unpack x y z w) rest b (λ s. h (simp e s)))
    ]

pub split_none : (xs : Bytes) → length xs ≤ 0 → split xs ≡ short
unfolding split
split_none [] h = refl
split_none (x ∷ xs) h = absurd (omega (arith, h))

-- A message takes at least its header.
pub split-length :
    (xs : Bytes) {body rest : Bytes} → split xs ≡ whole body rest → length rest < length xs
unfolding split body_of
split-length [] e = cc
split-length (k ∷ []) e = cc
split-length (k ∷ x ∷ []) e = cc
split-length (k ∷ x ∷ y ∷ []) e = cc
split-length (k ∷ x ∷ y ∷ z ∷ []) e = cc
split-length (k ∷ x ∷ y ∷ z ∷ w ∷ rest) e = ground (arith, length-drop (unpack x y z w) rest)

pub Split-cases :
    (x : Split)
    → (x ≡ short) ⊎ (x ≡ bad) ⊎ ((body : Bytes) × (rest : Bytes) × (x ≡ whole body rest))
Split-cases short = inl refl
Split-cases bad = inr (inl refl)
Split-cases (whole body rest) = inr (inr (body, rest, refl))

split_bad : (xs b : Bytes) → split xs ≡ bad → split (xs ++ b) ≡ bad
split_bad xs b e = split-append xs b (λ s. cc (sym s ∙ e)) ∙ ap (onto b) e

split_whole :
    (xs b : Bytes) {body rest : Bytes}
    → split xs ≡ whole body rest
    → split (xs ++ b) ≡ whole body (rest ++ b)
split_whole xs b e = split-append xs b (λ s. cc (sym s ∙ e)) ∙ ap (onto b) e

module _ {W : Type 0} (app : App W) where
  pub loop_closed : (n : ℕ) (r : Reader W) → r.closed ≡ true → loop app n r ≡ r
  unfolding loop
  loop_closed zero r c = refl
  loop_closed (suc n) r c = simp c

  pub loop_short :
      (n : ℕ) (r : Reader W) → r.closed ≡ false → split r.input ≡ short → loop app n r ≡ r
  unfolding loop
  loop_short zero r c e = refl
  loop_short (suc n) r c e = simp (c, e)

  pub loop_bad :
      (n : ℕ) (r : Reader W)
      → r.closed ≡ false
      → split r.input ≡ bad
      → loop app (suc n) r ≡ shut app r
  unfolding loop
  loop_bad n r c e = simp (c, e)

  pub loop_whole :
      (n : ℕ) (r : Reader W) (body rest : Bytes)
      → r.closed ≡ false
      → split r.input ≡ whole body rest
      → loop app (suc n) r ≡ loop app n (message app body (record r { input = rest }))
  unfolding loop
  loop_whole n r body rest c e = simp (c, e)

  message-extend :
      (body b : Bytes) (r : Reader W)
      → r.closed ≡ false
      → message app body (record r { input = r.input ++ b }) ≡ extend app b (message app body r)
  unfolding message parsed admission request
  message-extend body b r c = ground arith

  pub message-length :
      (body : Bytes) (r : Reader W) → length (message app body r).input ≤ length r.input
  unfolding message parsed admission request
  message-length body r = ground arith

  loop-length : (n : ℕ) (r : Reader W) → length (loop app n r).input ≤ length r.input
  loop-length zero r = unfold loop in omega arith
  loop-length (suc n) r = elim (Bool-cases r.closed) [
    | inl c ↦ rw (loop_closed (suc n) r c) (omega arith)
    | inr c ↦ elim (Split-cases (split r.input)) [
      | inl e ↦ rw (loop_short (suc n) r c e) (omega arith)
      | inr (inl e) ↦ rw (loop_bad n r c e) (omega arith)
      | inr (inr (body, rest, e)) ↦
          let t = record r { input = rest } in
          rw (loop_whole n r body rest c e) (
            omega (
              arith,
              loop-length n (message app body t),
              message-length body t,
              split-length r.input e,
            ))
    ]
  ]

  loop_none : (n : ℕ) (r : Reader W) → length r.input ≤ 0 → loop app n r ≡ r
  loop_none n r h = elim (Bool-cases r.closed) [
    | inl c ↦ loop_closed n r c
    | inr c ↦ loop_short n r c (split_none r.input h)
  ]

  -- Fuel beyond the length of the input changes nothing.
  loop_fuel :
      (n m : ℕ) (r : Reader W)
      → length r.input ≤ n
      → length r.input ≤ m
      → loop app n r ≡ loop app m r
  loop_fuel zero m r h k = loop_none zero r h ∙ sym (loop_none m r h)
  loop_fuel (suc n) zero r h k = loop_none (suc n) r k ∙ sym (loop_none zero r k)
  loop_fuel (suc n) (suc m) r h k = elim (Bool-cases r.closed) [
    | inl c ↦ loop_closed (suc n) r c ∙ sym (loop_closed (suc m) r c)
    | inr c ↦ elim (Split-cases (split r.input)) [
      | inl e ↦ loop_short (suc n) r c e ∙ sym (loop_short (suc m) r c e)
      | inr (inl e) ↦ loop_bad n r c e ∙ sym (loop_bad m r c e)
      | inr (inr (body, rest, e)) ↦
          let t = message app body (record r { input = rest }) in
          let l : length t.input < length r.input =
            omega
              (arith, message-length body (record r { input = rest }), split-length r.input e) in
          loop_whole n r body rest c e
          ∙ loop_fuel n m t (omega (arith, l)) (omega (arith, l))
          ∙ sym (loop_whole m r body rest c e)
    ]
  ]

  extend_open :
      (b : Bytes) (r : Reader W)
      → r.closed ≡ false
      → extend app b r ≡ record r { input = r.input ++ b }
  extend_open b r c = simp c

  pub extend-length :
      (b : Bytes) (r : Reader W) → length (extend app b r).input ≤ length r.input + length b
  extend-length b r = ground (arith, length-append r.input b)

  extend-extend :
      (a b : Bytes) (r : Reader W) → extend app b (extend app a r) ≡ extend app (a ++ b) r
  extend-extend a b r = elim (Bool-cases r.closed) [
    | inl c ↦ simp c
    | inr c ↦ simp (c, append_assoc r.input a b)
  ]

  -- Reading on after the loop is the loop over all of the input.
  loop_more :
      (n k : ℕ) (b : Bytes) (r : Reader W)
      → length r.input ≤ n
      → length r.input + length b ≤ k
      → loop app k (extend app b r) ≡ loop app k (extend app b (loop app n r))
  loop_more zero k b r h l = ap (λ x. loop app k (extend app b x)) (sym (loop_none zero r h))
  loop_more (suc n) zero b r h l =
      ap (λ x. loop app zero (extend app b x)) (sym (loop_none (suc n) r (omega (arith, l))))
  loop_more (suc n) (suc k) b r h l =
      let again =
        λ (e : loop app (suc n) r ≡ r). ap (λ x. loop app (suc k) (extend app b x)) (sym e) in
      elim (Bool-cases r.closed) [
        | inl c ↦ again (loop_closed (suc n) r c)
        | inr c ↦ elim (Split-cases (split r.input)) [
          | inl e ↦ again (loop_short (suc n) r c e)
          | inr (inl e) ↦
              let x = record r { input = r.input ++ b } in
              ap (loop app (suc k)) (extend_open b r c)
              ∙ loop_bad k x c (split_bad r.input b e)
              ∙ sym (
                  ap (λ y. loop app (suc k) (extend app b y)) (loop_bad n r c e)
                  ∙ loop_closed (suc k) (shut app r) refl)
          | inr (inr (body, rest, e)) ↦
              let x = record r { input = r.input ++ b } in
              let u = record r { input = rest } in
              let t = message app body u in
              let small : length t.input < length r.input =
                omega (arith, message-length body u, split-length r.input e) in
              let end : length (extend app b (loop app n t)).input ≤ k =
                omega (arith, extend-length b (loop app n t), loop-length n t, small, l) in
              ap (loop app (suc k)) (extend_open b r c)
              ∙ loop_whole k x body (rest ++ b) c (split_whole r.input b e)
              ∙ ap (loop app k) (message-extend body b u c)
              ∙ loop_more n k b t (omega (arith, small, h)) (omega (arith, small, l))
              ∙ loop_fuel k (suc k) (extend app b (loop app n t)) end (omega (arith, end))
              ∙ ap (λ y. loop app (suc k) (extend app b y)) (sym (loop_whole n r body rest c e))
        ]
      ]

  -- Reading some bytes and then more is reading all of them at once: the messages that are handled,
  -- what they do and what stays in the buffer depend on the stream alone.
  pub read-append :
      (a b : Bytes) (r : Reader W)
      → a ≢ []
      → b ≢ []
      → read app b (read app a r) ≡ read app (a ++ b) r
  unfolding read
  read-append [] b r h k = absurd (h refl)
  read-append (x ∷ xs) [] r h k = absurd (k refl)
  read-append (x ∷ xs) (y ∷ ys) r h k =
      let a = x ∷ xs in
      let b = y ∷ ys in
      let s = extend app a r in
      let n = length r.input + length a in
      let m = length r.input + length (a ++ b) in
      let fits : length (extend app b (loop app n s)).input ≤ m = omega (
        arith,
        extend-length b (loop app n s),
        loop-length n s,
        extend-length a r,
        length-append a b,
      ) in
      loop_fuel (length (loop app n s).input + length b) m (extend app b (loop app n s))
        (extend-length b (loop app n s)) fits
      ∙ sym (
          loop_more n m b s (extend-length a r)
            (omega (arith, extend-length a r, length-append a b)))
      ∙ ap (loop app m) (extend-extend a b r)
