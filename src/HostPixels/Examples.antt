-- ===== src/HostPixels/Examples.antt =====
-- The theorem on two images of three bytes.
use floe_native_apps.Prelude.{[], ◌∷◌, ◌≡◌, refl, false}
use floe_native_apps.HostPixels.{equal_pixels, same}
use floe_native_apps.HostPixels.Equal.{equal_pixels-same}

equal_pixels-same_example :
    equal_pixels (1 ∷ 2 ∷ 3 ∷ []) (1 ∷ 2 ∷ 4 ∷ []) ≡ same (1 ∷ 2 ∷ 3 ∷ []) (1 ∷ 2 ∷ 4 ∷ [])
equal_pixels-same_example = equal_pixels-same (1 ∷ 2 ∷ 3 ∷ []) (1 ∷ 2 ∷ 4 ∷ [])

different : equal_pixels (1 ∷ 2 ∷ 3 ∷ []) (1 ∷ 2 ∷ 4 ∷ []) ≡ false
unfolding equal_pixels same
different = refl
