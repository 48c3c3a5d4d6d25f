-- ===== src/InputMarker/Delivery.antt =====
-- A text reaches its owner once, and never after a revocation.
use floe_native_apps.Prelude.{
  ℕ, ◌+◌, ◌≤◌, ◌≡◌, refl, inl, inr, Bool, true, false, not, Option, none, some, List, [], ◌∷◌,
  if◌then◌else◌, ok, Dict, get, put, remove, keep_values, map_values, any_value, arith,
  Option-cases, get-put_self, nat_key, All, Result-cases, ap,
}
use floe_native_apps.Python.Text.{Text, text_eq_refl}
use floe_native_apps.InputMarker.{
  owner_eq, Transaction, Markers, new, is_some, pending, placed, press, key_in, enqueue, revoke,
  remove_owner, key, Call, enqueues, revokes, removes, keys, step, run,
}
use floe_native_apps.InputMarker.Slots.{enqueue-eq-ok}

abbrev count : Option Text → ℕ
count x = if is_some x then 1 else 0

-- How many slots hold a text.
pub texts : Dict ℕ Transaction → ℕ
texts [] = 0
texts ((c, t) ∷ d) = count t.text + texts d

abbrev weight : Option Transaction → ℕ
weight none = 0
weight (some t) = count t.text

texts-put :
    (c : ℕ) (t : Transaction) (d : Dict ℕ Transaction)
    → texts (put c t d) + weight (get c d) ≡ texts d + weight (some t)
unfolding texts put get
texts-put c t [] = ground arith
texts-put c t ((j, w) ∷ d) = ground (arith, texts-put c t d)

texts-remove : (c : ℕ) (d : Dict ℕ Transaction) → texts (remove c d) ≤ texts d
unfolding texts remove
texts-remove c [] = omega arith
texts-remove c ((j, w) ∷ d) = ground (arith, texts-remove c d)

texts-keep : (p : Transaction → Bool) (d : Dict ℕ Transaction) → texts (keep_values p d) ≤ texts d
unfolding texts keep_values
texts-keep p [] = omega arith
texts-keep p ((j, w) ∷ d) = ground (arith, texts-keep p d)

texts-revoke : (d : Dict ℕ Transaction) → texts (map_values (λ t. record t { text = none }) d) ≡ 0
unfolding texts map_values
texts-revoke [] = refl
texts-revoke ((j, w) ∷ d) = omega (arith, texts-revoke d)

any-texts : (d : Dict ℕ Transaction) → any_value (λ t. is_some t.text) d ≡ false → texts d ≡ 0
unfolding texts any_value
any-texts [] h = refl
any-texts ((j, w) ∷ d) h = ground (arith, any-texts d)

-- No slot holds a text.
abbrev pub IsQuiet : Markers → Type 0
IsQuiet m = texts m.slots ≡ 0

abbrev pub IsSingle : Markers → Type 0
IsSingle m = texts m.slots ≤ 1

placed-single :
    (t : Text) (o : Option Text) (x : Bool) (c : ℕ) (m : Markers)
    → texts m.slots ≡ 0
    → texts (placed t o x c m).slots ≤ 1
unfolding placed
placed-single t o x c m h = omega (
  arith,
  texts-put c (record { generation = m.generation; text = some t; owner = o; pressed = false })
      m.slots,
)

press-quiet :
    (c : ℕ) (f : Bool) (t : Transaction) (m : Markers)
    → get c m.slots ≡ some t
    → texts (press c f t m).1.slots + weight (some t) ≡ texts m.slots
unfolding press
press-quiet c f t m h =
    omega (arith, ap weight h, texts-put c (record t { pressed = true; text = none }) m.slots)

-- The text that the `key` call takes out is no longer there.
key-texts :
    (c : ℕ) (r f : Bool) (o : Option Text) (m : Markers)
    → texts (key c r f o m).1.slots ≤ texts m.slots
unfolding key
key-texts c r f o m = elim (Option-cases (get c m.slots)) [
  | inl e ↦ rw e (omega arith)
  | inr (t, e) ↦ rw e (ground (arith, press-quiet c f t m, texts-remove c m.slots))
]

-- A call that enqueues nothing adds no text.
abbrev pub IsPassive : Call → Type 0
IsPassive (enqueues t o x) = ⊥
IsPassive _ = Unit

passive-texts : (m : Markers) (c : Call) → IsPassive c → texts (step m c).slots ≤ texts m.slots
unfolding step revoke remove_owner
passive-texts m (enqueues t o x) h = elim h [ ]
passive-texts m revokes h = omega (arith, texts-revoke m.slots)
passive-texts m (removes o) h = texts-keep (λ t. not (owner_eq t.owner o)) m.slots
passive-texts m (keys c r f o) h = key-texts c r f o m

run-passive :
    (m : Markers) (cs : List Call) → All IsPassive cs → texts (run m cs).slots ≤ texts m.slots
unfolding run
run-passive m [] h = omega arith
run-passive m (c ∷ cs) h = omega (arith, run-passive (step m c) cs h.1, passive-texts m c h.0)

key_in-text :
    (t : Transaction) (c : ℕ) (r f : Bool) (o : Option Text) (m : Markers) {s : Text}
    → (key_in (some t) c r f o m).0 ≡ some s
    → (r ≡ false)
      × (f ≡ true)
      × (t.text ≡ some s)
      × (t.generation ≡ m.generation)
      × (owner_eq t.owner o ≡ true)
      × (t.pressed ≡ false)
      × ((key_in (some t) c r f o m).1 ≡ (press c f t m).1)
unfolding key_in press
key_in-text t c r f o m h = ground arith

-- A `key` call returns a text only for a focused press, by the owner of a slot that holds this text,
-- has not been pressed and is of the current generation.
pub key-text :
    (c : ℕ) (r f : Bool) (o : Option Text) (m : Markers) {s : Text}
    → (key c r f o m).0 ≡ some s
    → (r ≡ false)
      × (f ≡ true)
      × (t : Transaction) × (get c m.slots ≡ some t)
      × (t.text ≡ some s)
      × (t.generation ≡ m.generation)
      × (owner_eq t.owner o ≡ true)
      × (t.pressed ≡ false)
unfolding key
key-text c r f o m h = elim (Option-cases (get c m.slots)) [
  | inl e ↦ cc (rw (e, key_in) at h)
  | inr (t, e) ↦ let k = key_in-text t c r f o m (rw e at h) in (k.0, k.1, t, e, k.2, k.3, k.4, k.5)
]

-- An object with at most one text holds none after that text was delivered.
delivered-quiet :
    (c : ℕ) (r f : Bool) (o : Option Text) (m : Markers) {s : Text}
    → texts m.slots ≤ 1
    → (key c r f o m).0 ≡ some s
    → texts (key c r f o m).1.slots ≡ 0
unfolding key
delivered-quiet c r f o m single h = elim (Option-cases (get c m.slots)) [
  | inl e ↦ cc (rw (e, key_in) at h)
  | inr (t, e) ↦
      let k = key_in-text t c r f o m (rw e at h) in
      rw (e, k.6) (omega (arith, press-quiet c f t m e, ap count k.2))
]

quiet-key :
    (c : ℕ) (r f : Bool) (o : Option Text) (m : Markers)
    → texts m.slots ≡ 0
    → (key c r f o m).0 ≡ none
quiet-key c r f o m q = elim (Option-cases (key c r f o m).0) [
  | inl e ↦ e
  | inr (s, e) ↦
      let k = key-text c r f o m e in
      absurd (omega (arith, press-quiet c f k.2 m k.3, ap count k.4))
]

-- At most one slot holds a text, whatever is called.
step-single : (m : Markers) (c : Call) → texts m.slots ≤ 1 → texts (step m c).slots ≤ 1
unfolding step
step-single m (enqueues t o x) h = elim (Result-cases (enqueue t o x m)) [
  | inl ((c, m'), e) ↦
      let k = enqueue-eq-ok t o x m e in
      rw (e, k.2) (placed-single t o x c m (any-texts m.slots (unfold pending in k.0)))
  | inr (x, e) ↦ rw e h
]
step-single m revokes h = omega (arith, passive-texts m revokes tt)
step-single m (removes o) h = omega (arith, passive-texts m (removes o) tt)
step-single m (keys c r f o) h = omega (arith, passive-texts m (keys c r f o) tt)

run-single : (m : Markers) (cs : List Call) → texts m.slots ≤ 1 → texts (run m cs).slots ≤ 1
unfolding run
run-single m [] h = h
run-single m (c ∷ cs) h = run-single (step m c) cs (step-single m c h)

-- From a new object, after any calls: a key event that returns a text is the last that does, until
-- the next `enqueue`, whatever codes, owners and focus the later events carry.
pub key-once :
    (before after : List Call) (c : ℕ) (r f : Bool) (o : Option Text) {s : Text}
    → All IsPassive after
    → (key c r f o (run new before)).0 ≡ some s
    → (c' : ℕ) (r' f' : Bool) (o' : Option Text)
    → (key c' r' f' o' (run (key c r f o (run new before)).1 after)).0 ≡ none
key-once before after c r f o passive h c' r' f' o' =
    let m = run new before in
    let m' = (key c r f o m).1 in
    quiet-key c' r' f' o' (run m' after) (
      omega (
        arith,
        run-passive m' after passive,
        delivered-quiet c r f o m (run-single new before new-single) h,
      ))
  where
    new-single : texts new.slots ≤ 1
    new-single = unfold new texts in omega arith

-- After a revocation no key event returns a text, until the next `enqueue`.
pub key-revoke :
    (m : Markers) (after : List Call)
    → All IsPassive after
    → (c : ℕ) (r f : Bool) (o : Option Text) → (key c r f o (run (revoke m) after)).0 ≡ none
key-revoke m after passive c r f o =
    quiet-key c r f o (run (revoke m) after)
      (omega (arith, run-passive (revoke m) after passive, revoked m))
  where
    revoked : (m : Markers) → texts (revoke m).slots ≡ 0
    revoked m = unfold revoke in texts-revoke m.slots

owner_eq_refl : (o : Option Text) → owner_eq o o ≡ true
unfolding owner_eq
owner_eq_refl none = refl
owner_eq_refl (some t) = text_eq_refl t

placed_slot :
    (t : Text) (o : Option Text) (x : Bool) (c : ℕ) (m : Markers)
    → get c (placed t o x c m).slots
      ≡ some (record { generation = m.generation; text = some t; owner = o; pressed = false })
unfolding placed
placed_slot t o x c m = get-put_self c _ m.slots

placed-pressed :
    (t : Text) (o : Option Text) (x : Bool) (c : ℕ) (m : Markers)
    → (key_in
        (some (record { generation = m.generation; text = some t; owner = o; pressed = false }))
        c
        false
        true
        o
        (placed t o x c m)).0
      ≡ some t
unfolding key_in press placed
placed-pressed t o x c m = ground (arith, owner_eq_refl o)

-- The owner's first focused press of the slot that `enqueue` returned gets the text.
pub key-enqueue :
    (t : Text) (o : Option Text) (x : Bool) (m : Markers) {c : ℕ} {m' : Markers}
    → enqueue t o x m ≡ ok (c, m')
    → (key c false true o m').0 ≡ some t
unfolding key
key-enqueue t o x m {c} {m'} h =
    rw ((enqueue-eq-ok t o x m h).2, placed_slot t o x c m) (placed-pressed t o x c m)
