-- ===== src/InputMarker.antt =====
-- input_marker.py: the bounded identities of native text markers. Each method runs under the object's
-- one lock, so it is one step here; `wait_drained`, which only blocks on the same slots, is left out.
pub mod Slots
pub mod Capacity
pub mod Delivery
mod Examples
use floe_native_apps.Prelude.{
  ℕ, zero, suc, ◌+◌, ◌-◌, ◌%◌, Bool, true, false, not, ◌&&◌, ◌||◌, Option, none, some, List, [],
  ◌∷◌, ◌==◌, if◌then◌else◌, Result, ok, err, Dict, get, put, remove, keep_values, map_values,
  any_value, nat_key,
}
use floe_native_apps.Python.Text.{Text, text_eq}

abbrev pub first_code : ℕ
first_code = 2048

abbrev pub slot_count : ℕ
slot_count = 32

abbrev pub x11_code : ℕ
x11_code = 0

pub record Transaction : Type 0 where
  pub generation : ℕ
  pub text : Option Text
  pub owner : Option Text
  pub pressed : Bool

pub record Markers : Type 0 where
  pub generation : ℕ
  pub slots : Dict ℕ Transaction
  pub next_slot : ℕ

-- The two `RuntimeError`s of `enqueue`.
pub data MarkerError : Type 0 where
  already_pending capacity_exhausted : MarkerError

unfoldable pub new : Markers
new = record { generation = 1; slots = []; next_slot = 0 }

abbrev pub is_some {ℓ} : {A : Type ℓ} → Option A → Bool
is_some none = false
is_some (some a) = true

-- `==` of two owners, each a text or None.
unfoldable pub owner_eq : Option Text → Option Text → Bool
owner_eq none none = true
owner_eq (some a) (some b) = text_eq a b
owner_eq _ _ = false

unfoldable pub pending : Markers → Bool
pending m = any_value (λ t. is_some t.text) m.slots

-- FIRST_CODE + (next_slot + offset) % SLOT_COUNT for the `n` offsets from `offset` on.
unfoldable pub rotation : ℕ → ℕ → ℕ → List ℕ
rotation next zero offset = []
rotation next (suc n) offset =
    (first_code + (next + offset) % slot_count) ∷ rotation next n (offset + 1)

-- The codes that `enqueue` tries, in its order.
unfoldable pub candidates : Bool → ℕ → List ℕ
candidates x11 next = if x11 then x11_code ∷ [] else rotation next slot_count 0

-- The first of the codes that no slot holds.
unfoldable pub first_free : List ℕ → Dict ℕ Transaction → Option ℕ
first_free [] slots = none
first_free (c ∷ cs) slots =
    let rest = first_free cs slots in if is_some (get c slots) then rest else some c

-- The object with a new transaction in the slot `code`.
unfoldable pub placed : Text → Option Text → Bool → ℕ → Markers → Markers
placed text owner x11 code m = record m {
  slots =
      put code
        (record { generation = m.generation; text = some text; owner = owner; pressed = false })
        m.slots;
  next_slot = if x11 then m.next_slot else (code - first_code + 1) % slot_count;
}

-- The slot taken, and the object with the transaction in it.
unfoldable pub enqueue : Text → Option Text → Bool → Markers → Result MarkerError (ℕ × Markers)
enqueue text owner x11 m =
    if pending m
    then err already_pending
    else elim (first_free (candidates x11 m.next_slot) m.slots) [
      | none ↦ err capacity_exhausted
      | some code ↦ ok (code, placed text owner x11 code m)
    ]

unfoldable pub revoke : Markers → Markers
revoke m = record m {
  generation = m.generation + 1;
  slots = map_values (λ t. record t { text = none }) m.slots;
}

unfoldable pub remove_owner : Option Text → Markers → Markers
remove_owner owner m = record m { slots = keep_values (λ t. not (owner_eq t.owner owner)) m.slots }

-- A press of a slot that the caller owns and has not pressed.
press : ℕ → Bool → Transaction → Markers → Option Text × Markers
press code focused t m = (
  if focused && t.generation == m.generation then t.text else none,
  record m { slots = put code (record t { pressed = true; text = none }) m.slots },
)

key_in : Option Transaction → ℕ → Bool → Bool → Option Text → Markers → Option Text × Markers
key_in none code released focused owner m = (none, m)
key_in (some t) code released focused owner m =
    if not (owner_eq t.owner owner)
    then (none, m)
    else if released
    then (none, if t.pressed then record m { slots = remove code m.slots } else m)
    else if t.pressed
    then (none, m)
    else press code focused t m

-- The text that the event may commit, and the object after it.
unfoldable pub key : ℕ → Bool → Bool → Option Text → Markers → Option Text × Markers
unfolding key_in press
key code released focused owner m = key_in (get code m.slots) code released focused owner m

-- One call of a method.
pub data Call : Type 0 where
  enqueues : Text → Option Text → Bool → Call
  revokes : Call
  removes : Option Text → Call
  keys : ℕ → Bool → Bool → Option Text → Call

-- The object after a call of `enqueue`: one that raises changes nothing.
abbrev pub after_enqueue : Markers → Result MarkerError (ℕ × Markers) → Markers
after_enqueue m (ok (code, m')) = m'
after_enqueue m (err e) = m

unfoldable pub step : Markers → Call → Markers
step m (enqueues t o x) = after_enqueue m (enqueue t o x m)
step m revokes = revoke m
step m (removes o) = remove_owner o m
step m (keys c r f o) = (key c r f o m).1

-- The calls are listed in the order in which they are made.
unfoldable pub run : Markers → List Call → Markers
run m [] = m
run m (c ∷ cs) = run (step m c) cs
