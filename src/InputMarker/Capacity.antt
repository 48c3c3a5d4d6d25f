-- ===== src/InputMarker/Capacity.antt =====
-- When `enqueue` finds no slot.
use floe_native_apps.Prelude.{
  ℕ, zero, suc, ◌+◌, ◌-◌, ◌%◌, ◌≤◌, ◌<◌, ◌≡◌, refl, inl, inr, true, false, Option, none, List, [],
  ◌∷◌, err, Dict, get, arith, Option-cases, nat_key, All, subst, ◌↔◌,
}
use floe_native_apps.Python.Text.{Text}
use floe_native_apps.InputMarker.{
  Transaction, Markers, capacity_exhausted, is_some, pending, rotation, candidates, first_free,
  enqueue, first_code, slot_count,
}
use floe_native_apps.InputMarker.Slots.{IsValid}

abbrev IsTaken : Dict ℕ Transaction → ℕ → Type 0
IsTaken d c = is_some (get c d) ≡ true

first_free-none :
    (cs : List ℕ) (d : Dict ℕ Transaction) → first_free cs d ≡ none → All (IsTaken d) cs
unfolding first_free
first_free-none [] d h = tt
first_free-none (x ∷ cs) d h = elim (Option-cases (get x d)) [
  | inl free ↦ cc (rw free at h)
  | inr (t, used) ↦ (rw used refl, first_free-none cs d (rw used at h))
]

first_free-taken :
    (cs : List ℕ) (d : Dict ℕ Transaction) → All (IsTaken d) cs → first_free cs d ≡ none
unfolding first_free
first_free-taken [] d a = refl
first_free-taken (x ∷ cs) d a = rw a.0 (first_free-taken cs d a.1)

-- The codes of a rotation, one offset after the other.
rotation_at :
    (P : ℕ → Type 0) (next n offset k : ℕ)
    → All P (rotation next n offset)
    → k < n
    → P (first_code + (next + (offset + k)) % slot_count)
unfolding rotation
rotation_at P next zero offset k a h = elim h [ ]
rotation_at P next (suc n) offset zero a h =
    subst (λ i. P (first_code + (next + i) % slot_count)) (omega arith) a.0
rotation_at P next (suc n) offset (suc k) a h =
    subst (λ i. P (first_code + (next + i) % slot_count)) (omega arith)
      (rotation_at P next n (offset + 1) k a.1 (omega arith))

-- The offset at which a rotation reaches a code.
reaches :
    (next c : ℕ)
    → next < 32
    → 2048 ≤ c
    → c < 2080
    → 2048 + (next + (0 + (c - 2048 + 32 - next) % 32)) % 32 ≡ c
reaches next c h k l = omega arith

all_rotated :
    (P : ℕ → Type 0) (next c : ℕ)
    → All P (rotation next slot_count 0)
    → next < slot_count
    → first_code ≤ c
    → c < first_code + slot_count
    → P c
all_rotated P next c a h k l =
    subst P (reaches next c h k l)
      (rotation_at P next slot_count 0 ((c - 2048 + 32 - next) % 32) a (omega arith))

All-rotation :
    (P : ℕ → Type 0) (next n offset : ℕ)
    → ((c : ℕ) → first_code ≤ c → c < first_code + slot_count → P c)
    → All P (rotation next n offset)
unfolding rotation
All-rotation P next zero offset h = tt
All-rotation P next (suc n) offset h =
    (h _ (omega arith) (omega arith), All-rotation P next n (offset + 1) h)

-- `enqueue` of a key marker reports exhaustion exactly when no text is pending and each of the
-- reserved key codes has a slot.
pub enqueue_exhausted :
    (t : Text) (o : Option Text) (m : Markers)
    → IsValid m
    → (enqueue t o false m ≡ err capacity_exhausted) ↔ (
        (pending m ≡ false)
        × ((c : ℕ) → first_code ≤ c → c < first_code + slot_count → is_some (get c m.slots) ≡ true))
unfolding enqueue candidates
enqueue_exhausted t o m v = (
  λ h.
      let free : (pending m ≡ false)
          × (first_free (rotation m.next_slot slot_count 0) m.slots ≡ none) =
        ground arith in
      (
        free.0,
        λ c k l.
            all_rotated (IsTaken m.slots) m.next_slot c
              (first_free-none (rotation m.next_slot slot_count 0) m.slots free.1) v.next k l,
      ),
  λ h. rw (
    h.0,
    first_free-taken (rotation m.next_slot slot_count 0) m.slots
        (All-rotation (IsTaken m.slots) m.next_slot slot_count 0 h.1),
  ),
)
