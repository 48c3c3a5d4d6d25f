-- ===== src/Prelude/Lists.antt =====
-- Lists measured by native numbers, and predicates on all or some of their elements.
use Prim.Native.Nat.{ℕ, zero, suc, ◌+◌, ◌-◌, ◌≤◌, min}
use mathlib.Core.Path.{◌≡◌, refl, ap}
use mathlib.Core.Bool.{Bool, true, false, ◌||◌, ◌&&◌}
use mathlib.Core.List.{List, [], ◌∷◌, ◌++◌}
use native.Mathlib.Omega.{arith}

module _ {ℓ} {A : Type ℓ} where
  abbrev pub length : List A → ℕ
  length [] = 0
  length (x ∷ xs) = suc (length xs)

  abbrev pub take : ℕ → List A → List A
  take zero xs = []
  take (suc n) [] = []
  take (suc n) (x ∷ xs) = x ∷ take n xs

  abbrev pub drop : ℕ → List A → List A
  drop zero xs = xs
  drop (suc n) [] = []
  drop (suc n) (x ∷ xs) = drop n xs

  -- Python's any and all.
  abbrev pub any : (A → Bool) → List A → Bool
  any p [] = false
  any p (x ∷ xs) = p x || any p xs

  abbrev pub all : (A → Bool) → List A → Bool
  all p [] = true
  all p (x ∷ xs) = p x && all p xs

  -- The elements that a test keeps.
  abbrev pub keep_if : (A → Bool) → List A → List A
  keep_if p [] = []
  keep_if p (x ∷ xs) = let rest = keep_if p xs in elim (p x) [ true ↦ x ∷ rest | false ↦ rest ]

  pub length-append : (xs ys : List A) → length (xs ++ ys) ≡ length xs + length ys
  length-append [] ys = omega arith
  length-append (x ∷ xs) ys = omega (arith, length-append xs ys)

  pub take-append-drop : (n : ℕ) (xs : List A) → take n xs ++ drop n xs ≡ xs
  take-append-drop zero xs = refl
  take-append-drop (suc n) [] = refl
  take-append-drop (suc n) (x ∷ xs) = ap (λ r. x ∷ r) (take-append-drop n xs)

  pub length-take : (n : ℕ) (xs : List A) → length (take n xs) ≡ min n (length xs)
  length-take zero xs = omega arith
  length-take (suc n) [] = omega arith
  length-take (suc n) (x ∷ xs) = omega (arith, length-take n xs)

  pub length-drop : (n : ℕ) (xs : List A) → length (drop n xs) ≡ length xs - n
  length-drop zero xs = omega arith
  length-drop (suc n) [] = omega arith
  length-drop (suc n) (x ∷ xs) = omega (arith, length-drop n xs)

module _ {ℓ κ} {A : Type ℓ} where
  abbrev pub All : (A → Type κ) → List A → Type κ
  All P [] = Unit
  All P (x ∷ xs) = P x × All P xs

-- `Sub xs ys`: the elements of `xs` are among those of `ys`, in the same order.
pub data Sub {ℓ} {A : Type ℓ} : List A → List A → Type ℓ where
  done : Sub [] []
  skip : {xs ys : List A} (y : A) → Sub xs ys → Sub xs (y ∷ ys)
  keep : {xs ys : List A} (x : A) → Sub xs ys → Sub (x ∷ xs) (x ∷ ys)

module _ {ℓ} {A : Type ℓ} where
  pub Sub-refl : (xs : List A) → Sub xs xs
  Sub-refl [] = done
  Sub-refl (x ∷ xs) = keep x (Sub-refl xs)

  pub Sub-nil : (xs : List A) → Sub [] xs
  Sub-nil [] = done
  Sub-nil (x ∷ xs) = skip x (Sub-nil xs)

  -- The longer pair comes first.
  pub Sub-trans : {ys zs : List A} → Sub ys zs → {xs : List A} → Sub xs ys → Sub xs zs
  Sub-trans done a = a
  Sub-trans (skip y b) a = skip y (Sub-trans b a)
  Sub-trans (keep y b) (skip x a) = skip y (Sub-trans b a)
  Sub-trans (keep y b) (keep x a) = keep y (Sub-trans b a)

  pub Sub-append :
      {xs ys : List A} (zs ws : List A) → Sub xs ys → Sub zs ws → Sub (xs ++ zs) (ys ++ ws)
  Sub-append zs ws done b = b
  Sub-append zs ws (skip y a) b = skip y (Sub-append zs ws a b)
  Sub-append zs ws (keep x a) b = keep x (Sub-append zs ws a b)

  pub Sub-append_right : (xs ys : List A) → Sub xs (xs ++ ys)
  Sub-append_right [] ys = Sub-nil ys
  Sub-append_right (x ∷ xs) ys = keep x (Sub-append_right xs ys)

  pub length-Sub : {xs ys : List A} → Sub xs ys → length xs ≤ length ys
  length-Sub done = omega arith
  length-Sub (skip y a) = omega (arith, length-Sub a)
  length-Sub (keep x a) = omega (arith, length-Sub a)

  pub keep_if-Sub : (p : A → Bool) (xs : List A) → Sub (keep_if p xs) xs
  keep_if-Sub p [] = done
  keep_if-Sub p (x ∷ xs) =
      elim (p x)
        as (λ b.
          Sub (elim b as (λ c. List A) [ true ↦ x ∷ keep_if p xs | false ↦ keep_if p xs ])
            (x ∷ xs)) [ true ↦ keep x (keep_if-Sub p xs) | false ↦ skip x (keep_if-Sub p xs) ]

  pub All-Sub {κ} : (P : A → Type κ) {xs ys : List A} → Sub xs ys → All P ys → All P xs
  All-Sub P done h = tt
  All-Sub P (skip y a) h = All-Sub P a h.1
  All-Sub P (keep x a) h = (h.0, All-Sub P a h.1)
