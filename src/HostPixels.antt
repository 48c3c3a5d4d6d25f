-- ===== src/HostPixels.antt =====
-- host_desktop_pixels.py: the comparison of two mapped images. A buffer is its bytes; memcmp is that of
-- C, on a part of a buffer.
pub mod Equal
mod Examples
use floe_native_apps.Prelude.{
  ℕ, zero, suc, ◌+◌, ◌-◌, ◌*◌, ◌/◌, ◌%◌, Bool, true, false, not, ◌&&◌, ◌||◌, Option, none, some,
  List, [], ◌∷◌, ◌++◌, leb, ltb, ◌==◌, if◌then◌else◌, length, take, drop,
}
use floe_native_apps.DesktopControl.Reader.{Bytes}

-- The n bytes at an offset.
unfoldable pub span : ℕ → ℕ → Bytes → Bytes
span offset n bytes = take n (drop offset bytes)

-- `memcmp(...) == 0`.
unfoldable pub same : Bytes → Bytes → Bool
same [] [] = true
same (x ∷ xs) (y ∷ ys) = x == y && same xs ys
same _ _ = false

-- `index * (a.len - 128) // 31`.
unfoldable pub offset : ℕ → ℕ → ℕ
offset size index = index * (size - 128) / 31

-- The loop over the first n probes, from the last to the first: whether one of them differs.
unfoldable pub probes_differ : ℕ → Bytes → Bytes → Bool
probes_differ zero a b = false
probes_differ (suc n) a b =
    not (same (span (offset (length a) n) 128 a) (span (offset (length a) n) 128 b))
    || probes_differ n a b

unfoldable pub equal_pixels : Bytes → Bytes → Bool
equal_pixels a b =
    if not (length a == length b)
    then false
    else if leb 8192 (length a) && probes_differ 32 a b
    then false
    else length a == 0 || same a b
