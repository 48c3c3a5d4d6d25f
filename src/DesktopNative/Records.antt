-- ===== src/DesktopNative/Records.antt =====
-- `NativeDesktop.observe`, for the kinds of record whose fields are numbers. Every test of a branch is
-- made before its first change.
pub mod Windows
pub mod Texts
use floe_native_apps.Prelude.{
  ℕ, ◌+◌, max, Bool, true, false, not, ◌&&◌, ◌||◌, Option, none, some, List, [], ◌∷◌, leb, ltb,
  ◌==◌, if◌then◌else◌, length, Dict, get, put, remove, nat_key, any, keep_if,
}
use floe_native_apps.Prelude.Options.{◌>>=◌}
use floe_native_apps.Python.Int.{ℤ, pos, negsuc}
use floe_native_apps.Python.Text.{Text, codes, text_eq}
use floe_native_apps.Python.Number.{int_of_text, within, bytes_from_hex, is_dash}
use floe_native_apps.DesktopClipboard.{Target, max_id}
use floe_native_apps.DesktopNative.{
  Protocol, wayland, x11, NativeWindow, NativeFocus, NativeTextContext, Desktop, Outcome, Event,
  notify, metadata_changed, changed, is_minimized,
}

abbrev pub natural : ℕ → ℕ → Text → Option ℕ
natural low high t = within low high (int_of_text t)

abbrev pub is_some {ℓ} : {A : Type ℓ} → Option A → Bool
is_some none = false
is_some (some a) = true

abbrev pub contains : ℕ → List ℕ → Bool
contains i xs = any (λ x. x == i) xs

-- A ValueError before any change.
abbrev pub reject : Desktop → Outcome
reject s = (true, s, [])

abbrev pub accept : Desktop → List Event → Outcome
accept s events = (false, s, events)

-- The object after `changed`.
abbrev pub accept_changed : Desktop → Outcome
accept_changed s = let (t, events) = changed s in (false, t, events)

-- The branch for fields that were read; with none, one of them was refused.
abbrev pub on_fields : {A : Type 0} → Option A → (A → Desktop → Outcome) → Desktop → Outcome
on_fields none f s = reject s
on_fields (some a) f s = f a s
