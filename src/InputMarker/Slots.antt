-- ===== src/InputMarker/Slots.antt =====
-- Which slots a marker may take, and that they stay within the reserved codes.
use floe_native_apps.Prelude.{
  ℕ, zero, suc, ◌+◌, ◌≤◌, ◌<◌, ◌≡◌, refl, ◌⊎◌, inl, inr, Bool, true, false, Option, none, some,
  List, [], ◌∷◌, if◌then◌else◌, ok, Dict, get, remove, Entries, arith, Bool-cases, Option-cases,
  Entries-map, Entries-keep, Entries-get, Entries-put, Entries-remove, nat_key, All, subst,
  some-injective, ◌≢◌, sym, Result-cases,
}
use floe_native_apps.Python.Text.{Text}
use floe_native_apps.InputMarker.{
  owner_eq, Transaction, Markers, new, pending, rotation, candidates, first_free, placed, press,
  key_in, enqueue, revoke, remove_owner, key, Call, enqueues, revokes, removes, keys, step, run,
  first_code, slot_count, x11_code,
}

-- A code that names a marker: the one of X11, or one of the reserved keys.
abbrev pub IsCode : ℕ → Type 0
IsCode c = (c ≡ x11_code) ⊎ ((first_code ≤ c) × (c < first_code + slot_count))

-- What holds of the slot `code` of an object in generation `g`.
abbrev pub IsSlot : ℕ → ℕ → Transaction → Type 0
IsSlot g c t =
    IsCode c × (t.generation ≤ g) × ((t.text ≢ none) → (t.generation ≡ g) × (t.pressed ≡ false))

pub record IsValid (m : Markers) : Type 0 where
  pub next : m.next_slot < slot_count
  pub entries : Entries (IsSlot m.generation) m.slots

rotation-IsCode : (next n offset : ℕ) → All IsCode (rotation next n offset)
unfolding rotation
rotation-IsCode next zero offset = tt
rotation-IsCode next (suc n) offset = (omega arith, rotation-IsCode next n (offset + 1))

candidates-IsCode : (x11 : Bool) (next : ℕ) → All IsCode (candidates x11 next)
unfolding candidates
candidates-IsCode true next = (inl refl, tt)
candidates-IsCode false next = rotation-IsCode next slot_count 0

-- The code found is one of those tried, and is free.
first_free_sound :
    (P : ℕ → Type 0) (cs : List ℕ) (d : Dict ℕ Transaction) {c : ℕ}
    → All P cs
    → first_free cs d ≡ some c
    → P c × (get c d ≡ none)
unfolding first_free
first_free_sound P [] d a h = cc
first_free_sound P (x ∷ cs) d {c} a h = elim (Option-cases (get x d)) [
  | inl free ↦
      let e : x ≡ c = some-injective x c (rw free at h) in
      (subst P e a.0, subst (λ i. get i d ≡ none) e free)
  | inr (t, used) ↦ first_free_sound P cs d a.1 (rw used at h)
]

-- What an accepted `enqueue` did.
pub enqueue-eq-ok :
    (t : Text) (o : Option Text) (x11 : Bool) (m : Markers) {c : ℕ} {m' : Markers}
    → enqueue t o x11 m ≡ ok (c, m')
    → (pending m ≡ false)
      × (first_free (candidates x11 m.next_slot) m.slots ≡ some c)
      × (m' ≡ placed t o x11 c m)
unfolding enqueue
enqueue-eq-ok t o x11 m h = ground arith

-- The code that `enqueue` returns names a marker, and its slot was free.
pub enqueue_free :
    (t : Text) (o : Option Text) (x11 : Bool) (m : Markers) {c : ℕ} {m' : Markers}
    → enqueue t o x11 m ≡ ok (c, m')
    → IsCode c × (get c m.slots ≡ none)
enqueue_free t o x11 m h =
    first_free_sound IsCode (candidates x11 m.next_slot) m.slots (candidates-IsCode x11 m.next_slot)
      (enqueue-eq-ok t o x11 m h).1

placed-IsValid :
    (t : Text) (o : Option Text) (x11 : Bool) (m : Markers) (c : ℕ)
    → IsCode c
    → IsValid m
    → IsValid (placed t o x11 c m)
unfolding placed
placed-IsValid t o x11 m c code v = record {
  next = ground (arith, v.next);
  entries =
      Entries-put (IsSlot m.generation) c _ m.slots v.entries
        (code, omega arith, λ _. (refl, refl));
}

pub enqueue-IsValid :
    (t : Text) (o : Option Text) (x11 : Bool) (m : Markers) {c : ℕ} {m' : Markers}
    → enqueue t o x11 m ≡ ok (c, m')
    → IsValid m
    → IsValid m'
enqueue-IsValid t o x11 m {c} h v =
    subst IsValid (sym (enqueue-eq-ok t o x11 m h).2)
      (placed-IsValid t o x11 m c (enqueue_free t o x11 m h).0 v)

revoke-IsSlot :
    (g c : ℕ) (t : Transaction) → IsSlot g c t → IsSlot (g + 1) c (record t { text = none })
revoke-IsSlot g c t h = (h.0, omega arith, λ n. absurd (n refl))

pub revoke-IsValid : (m : Markers) → IsValid m → IsValid (revoke m)
unfolding revoke
revoke-IsValid m v = record {
  next = v.next;
  entries =
      Entries-map (IsSlot m.generation) (IsSlot (m.generation + 1)) _ (revoke-IsSlot m.generation)
        m.slots v.entries;
}

pub remove_owner-IsValid : (o : Option Text) (m : Markers) → IsValid m → IsValid (remove_owner o m)
unfolding remove_owner
remove_owner-IsValid o m v = record {
  next = v.next;
  entries = Entries-keep (IsSlot m.generation) _ m.slots v.entries;
}

press-IsValid :
    (c : ℕ) (f : Bool) (t : Transaction) (m : Markers)
    → get c m.slots ≡ some t
    → IsValid m
    → IsValid (press c f t m).1
unfolding press
press-IsValid c f t m h v =
    let own = Entries-get (IsSlot m.generation) c m.slots v.entries h in
    record {
      next = v.next;
      entries =
          Entries-put (IsSlot m.generation) c _ m.slots v.entries
            (own.0, own.1, λ n. absurd (n refl));
    }

key_in-IsValid :
    (x : Option Transaction) (c : ℕ) (r f : Bool) (o : Option Text) (m : Markers)
    → get c m.slots ≡ x
    → IsValid m
    → IsValid (key_in x c r f o m).1
unfolding key_in
key_in-IsValid none c r f o m h v = v
key_in-IsValid (some t) c r f o m h v = elim (Bool-cases (owner_eq t.owner o)) [
  | inr e ↦ rw e v
  | inl e ↦ rw e (pressed_cases r (Bool-cases t.pressed))
]
  where
    removed : IsValid (record m { slots = remove c m.slots })
    removed = record {
      next = v.next;
      entries = Entries-remove (IsSlot m.generation) c m.slots v.entries;
    }

    pressed_cases :
        (r : Bool)
        → (t.pressed ≡ true) ⊎ (t.pressed ≡ false)
        → IsValid
            (if r
              then (none, if t.pressed then record m { slots = remove c m.slots } else m)
              else if t.pressed
              then (none, m)
              else press c f t m).1
    pressed_cases true (inl e) = rw e removed
    pressed_cases true (inr e) = rw e v
    pressed_cases false (inl e) = rw e v
    pressed_cases false (inr e) = simp e (press-IsValid c f t m h v)

pub key-IsValid :
    (c : ℕ) (r f : Bool) (o : Option Text) (m : Markers) → IsValid m → IsValid (key c r f o m).1
unfolding key
key-IsValid c r f o m v = key_in-IsValid (get c m.slots) c r f o m refl v

pub new-IsValid : IsValid new
unfolding new
new-IsValid = record { next = omega arith; entries = tt }

-- Every call keeps the slots valid: within the reserved codes, and with a text only where the slot
-- is of the current generation and not yet pressed.
pub step-IsValid : (m : Markers) (c : Call) → IsValid m → IsValid (step m c)
unfolding step
step-IsValid m (enqueues t o x) v = elim (Result-cases (enqueue t o x m)) [
  | inl ((c, m'), e) ↦ rw e (enqueue-IsValid t o x m e v)
  | inr (x, e) ↦ rw e v
]
step-IsValid m revokes v = revoke-IsValid m v
step-IsValid m (removes o) v = remove_owner-IsValid o m v
step-IsValid m (keys c r f o) v = key-IsValid c r f o m v

pub run-IsValid : (m : Markers) (cs : List Call) → IsValid m → IsValid (run m cs)
unfolding run
run-IsValid m [] v = v
run-IsValid m (c ∷ cs) v = run-IsValid (step m c) cs (step-IsValid m c v)
