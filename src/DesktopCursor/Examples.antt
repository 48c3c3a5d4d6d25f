-- ===== src/DesktopCursor/Examples.antt =====
-- The theorem on the cursor at a red point of one pixel, received in one chunk.
use floe_native_apps.Prelude.{true, none, some, List, [], ◌∷◌, ◌≡◌, refl}
use floe_native_apps.Python.Text.{codes, text_eq}
use floe_native_apps.Python.Number.{int_of_text, from_hex}
use floe_native_apps.DesktopClipboard.{Target}
use floe_native_apps.DesktopCursor.{Library, new, pump}
use floe_native_apps.DesktopCursor.Records.{
  Call, observes, step, run, observe, state_fields, state_in, describe, observe_data, data_in,
  received, chunk_in, extend,
}
use floe_native_apps.DesktopCursor.Complete.{IsComplete, run-IsComplete}

abbrev lib : Library
lib = record { crc32 = λ bytes. 0; compress = λ bytes. bytes; is_hotspot = λ t n. true }

abbrev target : Target
target = record { id = 1; window = 5; generation = 2 }

abbrev calls : List Call
calls =
    observes
      (codes "cursor-state"
        ∷ codes "1"
        ∷ codes "3"
        ∷ codes "2"
        ∷ codes "5"
        ∷ codes "image"
        ∷ codes "1"
        ∷ codes "1"
        ∷ codes "1"
        ∷ codes "1"
        ∷ codes "0"
        ∷ codes "0"
        ∷ [])
      (some target) 3
    ∷ observes (codes "cursor-data" ∷ codes "1" ∷ codes "0" ∷ codes "ff0000ff" ∷ []) (some target) 3
    ∷ []

run-IsComplete_example : IsComplete lib (run lib new calls)
run-IsComplete_example = run-IsComplete lib calls

-- The chunk completes the image.
nothing_pending : (run lib new calls).pending ≡ none
unfolding run step observe new text_eq state_in state_fields int_of_text describe pump observe_data
    data_in received chunk_in extend from_hex
nothing_pending = refl
