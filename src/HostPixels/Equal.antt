-- ===== src/HostPixels/Equal.antt =====
-- The probes of `equal_pixels` change nothing of its answer.
use floe_native_apps.Prelude.{
  ℕ, zero, suc, ◌+◌, ◌-◌, ◌*◌, ◌≤◌, ◌<◌, ◌≡◌, refl, ap, subst, true, false, [], ◌∷◌, length, arith,
  Bool-cases, inl, inr,
}
use floe_native_apps.DesktopControl.Reader.{Bytes}
use floe_native_apps.HostPixels.{span, same, offset, probes_differ, equal_pixels}

same_refl : (a : Bytes) → same a a ≡ true
unfolding same
same_refl [] = refl
same_refl (x ∷ xs) = ground (arith, same_refl xs)

same-eq : (a b : Bytes) → same a b ≡ true → a ≡ b
unfolding same
same-eq [] [] e = refl
same-eq [] (y ∷ ys) e = cc
same-eq (x ∷ xs) [] e = cc
same-eq (x ∷ xs) (y ∷ ys) e = ground (arith, same-eq xs ys)

probes_differ_refl : (n : ℕ) (a : Bytes) → probes_differ n a a ≡ false
unfolding probes_differ
probes_differ_refl zero a = refl
probes_differ_refl (suc n) a =
    ground (arith, same_refl (span (offset (length a) n) 128 a), probes_differ_refl n a)

probes_differ-same : (n : ℕ) (a b : Bytes) → same a b ≡ true → probes_differ n a b ≡ false
probes_differ-same n a b e =
    subst (λ c. probes_differ n a c ≡ false) (same-eq a b e) (probes_differ_refl n a)

length-same : (a b : Bytes) → same a b ≡ true → length a ≡ length b
length-same a b e = ap length (same-eq a b e)

same-nil : (a b : Bytes) → length a ≡ length b → length a ≡ 0 → same a b ≡ true
unfolding same
same-nil [] [] l e = refl
same-nil [] (y ∷ ys) l e = absurd (omega (arith, l))
same-nil (x ∷ xs) b l e = absurd (omega (arith, e))

times-le : (n m s : ℕ) → n ≤ m → n * s ≤ m * s
times-le n m s l = grind arith

-- No probe reads past the end of a buffer that is probed.
offset-le : (n size : ℕ) → n < 32 → 8192 ≤ size → offset size n + 128 ≤ size
unfolding offset
offset-le n size l m = let h = times-le n 31 (size - 128) (omega (arith, l)) in omega (arith, h, m)

-- `equal_pixels` answers what comparing all of the bytes does, for buffers of any length.
pub equal_pixels-same : (a b : Bytes) → equal_pixels a b ≡ same a b
unfolding equal_pixels
equal_pixels-same a b = elim (Bool-cases (same a b)) [
  | inl e ↦ ground (arith, e, probes_differ-same 32 a b e, length-same a b e)
  | inr e ↦ ground (arith, e, same-nil a b)
]
