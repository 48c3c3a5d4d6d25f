-- ===== src/InputMarker/Examples.antt =====
-- The theorems on the markers at small runs.
use floe_native_apps.Prelude.{
  ℕ, ◌≡◌, ◌↔◌, ◌≤◌, ◌<◌, ◌+◌, refl, true, false, Option, none, some, List, [], ◌∷◌, err, get,
  nat_key, put, any_value,
}
use floe_native_apps.Python.Text.{Text, codes, text_eq}
use floe_native_apps.InputMarker.{
  Call, enqueues, revokes, removes, keys, new, pending, enqueue, placed, revoke, key, owner_eq,
  first_free, candidates, rotation, run, step, first_code, slot_count, capacity_exhausted, is_some,
}
use floe_native_apps.InputMarker.Slots.{IsValid, run-IsValid, new-IsValid, IsCode, enqueue_free}
use floe_native_apps.InputMarker.Capacity.{enqueue_exhausted}
use floe_native_apps.InputMarker.Delivery.{key-once, key-revoke, key-enqueue}

abbrev hello : Text
hello = codes "hello"

abbrev bus : Option Text
bus = some (codes ":1.7")

abbrev typed : List Call
typed = enqueues hello bus false ∷ []

run-IsValid_example :
    IsValid (run new (enqueues hello bus false ∷ keys 2048 false true bus ∷ revokes ∷ []))
run-IsValid_example =
    run-IsValid new (enqueues hello bus false ∷ keys 2048 false true bus ∷ revokes ∷ []) new-IsValid

enqueue_free_example : IsCode 2048 × (get 2048 new.slots ≡ none)
unfolding enqueue pending any_value first_free candidates rotation get new
enqueue_free_example = enqueue_free hello bus false new refl

enqueue_exhausted_example : (enqueue hello bus false new ≡ err capacity_exhausted) ↔ (
    (pending new ≡ false)
    × ((c : ℕ) → first_code ≤ c → c < first_code + slot_count → is_some (get c new.slots) ≡ true))
enqueue_exhausted_example = enqueue_exhausted hello bus new new-IsValid

key-enqueue_example : (key 2048 false true bus (placed hello bus false 2048 new)).0 ≡ some hello
unfolding enqueue pending any_value first_free candidates rotation get new
key-enqueue_example = key-enqueue hello bus false new refl

key-once_example :
    (key 2048 false true bus
      (run (key 2048 false true bus (run new typed)).1 (keys 2048 true false bus ∷ []))).0
    ≡ none
unfolding run step enqueue pending any_value first_free candidates rotation get put new placed key
    owner_eq text_eq
key-once_example =
    key-once typed (keys 2048 true false bus ∷ []) 2048 false true bus (tt, tt) refl 2048 false true
      bus

key-revoke_example :
    (key 2048 false true bus (run (revoke (run new typed)) (removes none ∷ []))).0 ≡ none
key-revoke_example = key-revoke (run new typed) (removes none ∷ []) (tt, tt) 2048 false true bus
