-- ===== src/DesktopControl/Reader/Room.antt =====
-- The buffer always has room for the message that it begins.
use floe_native_apps.Prelude.{
  ℕ, zero, suc, ◌+◌, ◌≤◌, ◌<◌, ◌≡◌, refl, ◌⊎◌, inl, inr, true, [], ◌∷◌, length, arith, Bool-cases,
}
use floe_native_apps.DesktopControl.Reader.{
  Bytes, max_message, App, Reader, short, body_of, split, message, loop, extend, read,
}
use floe_native_apps.DesktopControl.Reader.Chunks.{
  Split-cases, split-length, message-length, extend-length, loop_closed, loop_short, loop_bad,
  loop_whole,
}

split_short : (xs : Bytes) → split xs ≡ short → length xs < max_message + 5
unfolding split body_of
split_short [] e = omega arith
split_short (k ∷ []) e = omega arith
split_short (k ∷ x ∷ []) e = omega arith
split_short (k ∷ x ∷ y ∷ []) e = omega arith
split_short (k ∷ x ∷ y ∷ z ∷ []) e = omega arith
split_short (k ∷ x ∷ y ∷ z ∷ w ∷ rest) e = ground arith

-- A closed peer, or one whose buffer holds less than a message of the greatest size.
abbrev pub HasRoom : {W : Type 0} → Reader W → Type 0
HasRoom r = (r.closed ≡ true) ⊎ (length r.input < max_message + 5)

module _ {W : Type 0} (app : App W) where
  loop-HasRoom : (n : ℕ) (r : Reader W) → length r.input ≤ n → HasRoom (loop app n r)
  loop-HasRoom zero r h = unfold loop in inr (omega (arith, h))
  loop-HasRoom (suc n) r h = elim (Bool-cases r.closed) [
    | inl c ↦ rw (loop_closed app (suc n) r c) (inl c)
    | inr c ↦ elim (Split-cases (split r.input)) [
      | inl e ↦ rw (loop_short app (suc n) r c e) (inr (split_short r.input e))
      | inr (inl e) ↦ rw (loop_bad app n r c e) (inl refl)
      | inr (inr (body, rest, e)) ↦
          let t = record r { input = rest } in
          rw (loop_whole app n r body rest c e) (
            loop-HasRoom n (message app body t)
              (omega (arith, message-length app body t, split-length r.input e, h)))
    ]
  ]

  -- After every read, of any reader, the peer is closed or the buffer is shorter than the greatest message with its
  -- header, so the size that `read` gives to recv is never zero.
  pub read-HasRoom : (bs : Bytes) (r : Reader W) → HasRoom (read app bs r)
  unfolding read
  read-HasRoom [] r = elim (Bool-cases r.closed) [
    | inl c ↦ simp c (inl refl)
    | inr c ↦ simp c (inl refl)
  ]
  read-HasRoom (b ∷ bs) r =
      loop-HasRoom (length r.input + length (b ∷ bs)) (extend app (b ∷ bs) r)
        (extend-length app (b ∷ bs) r)
