-- ===== src/DesktopControl/Reader/Frames.antt =====
-- A message that `encode_message` framed is read as that message.
use floe_native_apps.Prelude.{
  ℕ, zero, suc, ◌+◌, ◌/◌, ◌%◌, ◌≤◌, ◌<◌, ◌≡◌, refl, sym, ap, ◌∙◌, subst, false, ◌&&◌, some,
  some-injective, [], ◌∷◌, ◌++◌, leb, ltb, length, take, drop, arith, Bool-cases, inl, inr,
}
use floe_native_apps.DesktopControl.Reader.{
  Bytes, max_message, pack, unpack, encode_message, App, Reader, whole, body_of, split, admission,
  request, parsed, message, loop, extend, read,
}
use floe_native_apps.DesktopControl.Reader.Chunks.{loop_whole}

pub unpack-pack :
    (n : ℕ)
    → n < 4294967296
    → unpack (n / 16777216 % 256) (n / 65536 % 256) (n / 256 % 256) (n % 256) ≡ n
unfolding unpack
unpack-pack n h = omega arith

take_all : (xs : Bytes) → take (length xs) xs ≡ xs
take_all [] = refl
take_all (x ∷ xs) = ap (λ r. x ∷ r) (take_all xs)

drop_all : (xs : Bytes) → drop (length xs) xs ≡ []
drop_all [] = refl
drop_all (x ∷ xs) = drop_all xs

split-pack :
    (body : Bytes)
    → 1 ≤ length body
    → length body ≤ max_message
    → split (1 ∷ pack (length body) ++ body) ≡ whole body []
unfolding split pack body_of
split-pack body l h =
    let e = unpack-pack (length body) (omega arith) in
    rw (e, take_all body, drop_all body) (ground arith)

module _ {W : Type 0} (app : App W) where
  message-input : (body : Bytes) (r : Reader W) → r.input ≡ [] → (message app body r).input ≡ []
  unfolding message parsed admission request
  message-input body r h = ground arith

  loop_empty : (n : ℕ) (r : Reader W) → r.input ≡ [] → loop app n r ≡ r
  unfolding loop split
  loop_empty zero r h = refl
  loop_empty (suc n) r h = elim (Bool-cases r.closed) [ inl e ↦ simp e | inr e ↦ simp (e, h) ]

  extend_open :
      (bs : Bytes) (r : Reader W)
      → r.closed ≡ false
      → r.input ≡ []
      → extend app bs r ≡ record r { input = bs }
  extend_open bs r c i = simp (c, i)

  empty_input : (r : Reader W) → r.input ≡ [] → record r { input = [] } ≡ r
  empty_input r i = ap (λ x. record r { input = x }) (sym i)

  read_framed :
      (body : Bytes) (r : Reader W)
      → r.closed ≡ false
      → r.input ≡ []
      → 1 ≤ length body
      → length body ≤ max_message
      → read app (1 ∷ pack (length body) ++ body) r ≡ message app body r
  unfolding read
  read_framed body r c i l h =
      let bs = 1 ∷ pack (length body) ++ body in
      let n = length (pack (length body) ++ body) in
      let fuel : length r.input + length bs ≡ suc n = omega (arith, ap length i) in
      ap (λ k. loop app k (extend app bs r)) fuel
      ∙ ap (loop app (suc n)) (extend_open bs r c i)
      ∙ loop_whole app n (record r { input = bs }) body [] c (split-pack body l h)
      ∙ ap (λ x. loop app n (message app body x)) (empty_input r i)
      ∙ loop_empty n (message app body r) (message-input body r i)

  -- What `encode_message` makes of a body within the limit of the reader, an open reader with an empty
  -- buffer reads as exactly that one message.
  pub read-encode_message :
      (body : Bytes) (r : Reader W) {framed : Bytes}
      → r.closed ≡ false
      → r.input ≡ []
      → encode_message body max_message ≡ some framed
      → read app framed r ≡ message app body r
  unfolding encode_message
  read-encode_message body r {framed} c i e =
      elim (Bool-cases (ltb 0 (length body) && leb (length body) max_message)) [
        | inr b ↦ cc (simp b at e)
        | inl b ↦
            subst (λ x. read app x r ≡ message app body r) (some-injective _ _ (simp b at e))
              (read_framed body r c i (ground arith) (ground arith))
      ]
