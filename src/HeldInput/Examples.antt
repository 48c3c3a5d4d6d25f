-- ===== src/HeldInput/Examples.antt =====
-- The theorems on held input with a backend that counts its calls and raises at every third.
use floe_native_apps.Prelude.{ℕ, ◌+◌, ◌%◌, ◌≡◌, ◌≢◌, refl, true, false, List, [], ◌∷◌, ◌==◌}
use floe_native_apps.Python.Text.{codes, text_eq}
use floe_native_apps.HeldInput.Keys.{physical_key, physical_key_injective, find, key_codes}
use floe_native_apps.HeldInput.{
  Kind, key, button, Backend, Call, sets, releases, new, run, step, release, paste, set_input, emit,
  keys_held, release_all, press_in, release_in,
}
use floe_native_apps.HeldInput.Release.{is_down, run-release, paste-up}

abbrev backend : Backend ℕ
backend = record { send = λ k code down w. (w + 1, (w + 1) % 3 == 0) }

abbrev calls : List Call
calls = sets key 30 true ∷ sets button 272 true ∷ sets key 30 false ∷ []

run-release_example :
    ((release backend (run backend (new 0) calls)).keys ≡ [])
    × ((release backend (run backend (new 0) calls)).buttons ≡ [])
    × ((k : Kind) (code : ℕ)
        → is_down k code (release backend (run backend (new 0) calls)).sent ≡ false)
run-release_example = run-release backend 0 calls

not_refused : (paste backend (run backend (new 0) (releases ∷ []))).1 ≢ keys_held
unfolding run step release release_all paste set_input press_in release_in emit new
not_refused e = cc

paste-up_example :
    ((paste backend (run backend (new 0) (releases ∷ []))).0.keys ≡ [])
    × ((paste backend (run backend (new 0) (releases ∷ []))).0.buttons ≡ [])
    × ((k : Kind) (code : ℕ)
        → is_down k code (paste backend (run backend (new 0) (releases ∷ []))).0.sent ≡ false)
paste-up_example = paste-up backend 0 (releases ∷ []) not_refused

physical_key_injective_example : ◌≡◌ (codes "KeyQ") (codes "KeyQ")
unfolding physical_key find text_eq key_codes
physical_key_injective_example =
    physical_key_injective (codes "KeyQ") (codes "KeyQ") {n = 16} refl refl
