-- ===== src/Prelude/Dicts.antt =====
-- Python's `dict` as an association list in insertion order, over any type of keys with a test.
use mathlib.Core.Path.{◌≡◌, refl, sym, subst}
use mathlib.Core.Logic.{◌↔◌, inl, inr}
use mathlib.Core.Bool.{Bool, true, false}
use mathlib.Core.Option.{Option, none, some, some-injective}
use mathlib.Core.List.{List, [], ◌∷◌}
use Prim.Native.Nat.{ℕ, ◌+◌, ◌≤◌}
use native.Mathlib.Omega.{arith}
use floe_native_apps.Prelude.Tests.{if◌then◌else◌, Bool-cases, ◌==◌, ==_iff}
use floe_native_apps.Prelude.Lists.{length}

-- A type of keys, with its `==`.
pub record Key {ℓ} (K : Type ℓ) : Type ℓ where
  pub beq : K → K → Bool
  pub beq_iff : (a b : K) → (beq a b ≡ true) ↔ (a ≡ b)

instance abbrev pub nat_key : Key ℕ
nat_key = record { beq = ◌==◌; beq_iff = ==_iff }

abbrev pub Dict {ℓ κ} : Type ℓ → Type κ → Type (ℓ ⊔ κ)
Dict K V = List (K × V)

pub beq_refl {ℓ} : {K : Type ℓ} ⦃key : Key K⦄ (k : K) → key.beq k k ≡ true
beq_refl ⦃key⦄ k = (key.beq_iff k k).1 refl

module _ {ℓ κ} {K : Type ℓ} {V : Type κ} ⦃key : Key K⦄ where
  -- d.get(k)
  unfoldable pub get : K → Dict K V → Option V
  get k [] = none
  get k ((j, v) ∷ d) = if key.beq j k then some v else get k d

  -- d[k] = v
  unfoldable pub put : K → V → Dict K V → Dict K V
  put k v [] = (k, v) ∷ []
  put k v ((j, w) ∷ d) = if key.beq j k then (j, v) ∷ d else (j, w) ∷ put k v d

  -- d.pop(k, None)
  unfoldable pub remove : K → Dict K V → Dict K V
  remove k [] = []
  remove k ((j, w) ∷ d) = let rest = remove k d in if key.beq j k then rest else (j, w) ∷ rest

  pub get-put :
      (k j : K) (v : V) (d : Dict K V)
      → get j (put k v d) ≡ (if key.beq k j then some v else get j d)
  unfolding get put
  get-put k j v [] = refl
  get-put k j v ((i, w) ∷ d) =
      ground (arith, key.beq_iff k j, key.beq_iff i k, key.beq_iff i j, get-put k j v d)

  pub get-remove :
      (k j : K) (d : Dict K V) → get j (remove k d) ≡ (if key.beq k j then none else get j d)
  unfolding get remove
  get-remove k j [] = ground arith
  get-remove k j ((i, w) ∷ d) =
      ground (arith, key.beq_iff k j, key.beq_iff i k, key.beq_iff i j, get-remove k j d)

  pub get-put_self : (k : K) (v : V) (d : Dict K V) → get k (put k v d) ≡ some v
  get-put_self k v d = simp (get-put, beq_refl)

  pub get-remove_self : (k : K) (d : Dict K V) → get k (remove k d) ≡ none
  get-remove_self k d = simp (get-remove, beq_refl)

  pub length-put : (k : K) (v : V) (d : Dict K V) → length (put k v d) ≤ length d + 1
  unfolding put
  length-put k v [] = ground arith
  length-put k v ((j, w) ∷ d) = ground (arith, length-put k v d)

  pub length-remove : (k : K) (d : Dict K V) → length (remove k d) ≤ length d
  unfolding remove
  length-remove k [] = ground arith
  length-remove k ((j, w) ∷ d) = ground (arith, length-remove k d)

module _ {ℓ κ} {K : Type ℓ} {V : Type κ} where
  -- {k: v for k, v in d.items() if p(v)}
  unfoldable pub keep_values : (V → Bool) → Dict K V → Dict K V
  keep_values p [] = []
  keep_values p ((j, w) ∷ d) = let rest = keep_values p d in if p w then (j, w) ∷ rest else rest

  -- The same change to every value.
  unfoldable pub map_values : (V → V) → Dict K V → Dict K V
  map_values f [] = []
  map_values f ((j, w) ∷ d) = (j, f w) ∷ map_values f d

  -- any(p(v) for v in d.values())
  unfoldable pub any_value : (V → Bool) → Dict K V → Bool
  any_value p [] = false
  any_value p ((j, w) ∷ d) = if p w then true else any_value p d

module _ {ℓ κ μ} {K : Type ℓ} {V : Type κ} where
  -- A property of every entry.
  abbrev pub Entries : (K → V → Type μ) → Dict K V → Type μ
  Entries P [] = Unit
  Entries P ((k, v) ∷ d) = P k v × Entries P d

pub Entries-map {ℓ κ μ} :
    {K : Type ℓ} {V : Type κ} (P Q : K → V → Type μ) (f : V → V)
    → ((k : K) (v : V) → P k v → Q k (f v))
    → (d : Dict K V) → Entries P d
    → Entries Q (map_values f d)
unfolding map_values
Entries-map P Q f h [] e = tt
Entries-map P Q f h ((j, w) ∷ d) e = (h j w e.0, Entries-map P Q f h d e.1)

module _ {ℓ κ μ} {K : Type ℓ} {V : Type κ} (P : K → V → Type μ) where
  pub Entries-keep : (p : V → Bool) (d : Dict K V) → Entries P d → Entries P (keep_values p d)
  unfolding keep_values
  Entries-keep p [] e = tt
  Entries-keep p ((j, w) ∷ d) e = elim (Bool-cases (p w)) [
    | inl t ↦ rw t (e.0, Entries-keep p d e.1)
    | inr t ↦ rw t (Entries-keep p d e.1)
  ]

  module _ ⦃key : Key K⦄ where
    pub Entries-get : (k : K) (d : Dict K V) {v : V} → Entries P d → get k d ≡ some v → P k v
    unfolding get
    Entries-get k [] e h = cc
    Entries-get k ((j, w) ∷ d) {v} e h = elim (Bool-cases (key.beq j k)) [
      | inl t ↦
          subst (λ i. P i v) ((key.beq_iff j k).0 t)
            (subst (λ x. P j x) (some-injective w v (rw t at h)) e.0)
      | inr t ↦ Entries-get k d e.1 (rw t at h)
    ]

    pub Entries-put : (k : K) (v : V) (d : Dict K V) → Entries P d → P k v → Entries P (put k v d)
    unfolding put
    Entries-put k v [] e h = (h, tt)
    Entries-put k v ((j, w) ∷ d) e h = elim (Bool-cases (key.beq j k)) [
      | inl t ↦ rw t (subst (λ i. P i v) (sym ((key.beq_iff j k).0 t)) h, e.1)
      | inr t ↦ rw t (e.0, Entries-put k v d e.1 h)
    ]

    pub Entries-remove : (k : K) (d : Dict K V) → Entries P d → Entries P (remove k d)
    unfolding remove
    Entries-remove k [] e = tt
    Entries-remove k ((j, w) ∷ d) e = elim (Bool-cases (key.beq j k)) [
      | inl t ↦ rw t (Entries-remove k d e.1)
      | inr t ↦ rw t (e.0, Entries-remove k d e.1)
    ]
