-- ===== src/DesktopNative/Fields.antt =====
-- The fields of the records that `NativeDesktop.observe` reads; none is the ValueError.
use floe_native_apps.Prelude.{
  ℕ, Bool, false, ◌&&◌, Option, none, some, List, [], ◌∷◌, leb, ltb, ◌==◌, if◌then◌else◌, length,
  all,
}
use floe_native_apps.Prelude.Options.{◌>>=◌}
use floe_native_apps.Python.Int.{ℤ, pos, negsuc}
use floe_native_apps.Python.Text.{Text, codes, text_eq}
use floe_native_apps.Python.Number.{int_of_text, bytes_from_hex, is_dash}
use floe_native_apps.DesktopControl.Reader.{Bytes}
use floe_native_apps.DesktopClipboard.{max_id}
use floe_native_apps.DesktopNative.{Protocol, wayland, x11, NativeWindow, NativeTextContext}
use floe_native_apps.DesktopNative.Records.{natural}

unfoldable pub one : ℕ → ℕ → List Text → Option ℕ
one low high (a ∷ []) = natural low high a
one low high _ = none

unfoldable pub two : ℕ → ℕ → ℕ → List Text → Option (ℕ × ℕ)
two low low' high (a ∷ b ∷ []) = do x ← natural low max_id a; y ← natural low' high b; some (x, y)
two low low' high _ = none

-- The fields of a `text-context`.
unfoldable pub context_fields : List Text → Option NativeTextContext
context_fields (a ∷ b ∷ c ∷ d ∷ e ∷ []) = do
  identity ← natural 1 max_id a
  revision ← natural 1 max_id b
  surface ← natural 0 max_id c
  enabled ← natural 0 1 d
  serial ← natural 0 0xffffffff e
  some (record {
    identity = identity;
    revision = revision;
    surface = surface;
    enabled = enabled == 1;
    serial = serial;
  })
context_fields _ = none

-- The fields of a `context-surrounding`, which changes nothing.
unfoldable pub surrounding_fields : List Text → Option (ℕ × ℕ)
surrounding_fields (a ∷ b ∷ c ∷ d ∷ []) = do
  serial ← natural 0 0xffffffff a
  size ← natural 0 4000 b
  x ← natural 0 size c
  y ← natural 0 size d
  some (x, y)
surrounding_fields _ = none

is_display : Text → Bool
is_display (c ∷ digits) =
    c == 58
    && leb 1 (length digits)
    && leb (length digits) 5
    && all (λ d. leb 48 d && leb d 57) digits
is_display [] = false

-- The display, or none for the mark of none.
unfoldable pub display_fields : List Text → Option (Option Text)
unfolding is_display
display_fields (d ∷ []) =
    if is_dash d then some none else if is_display d then some (some d) else none
display_fields _ = none

-- The window and the title of a `window-title`; `replaced` decodes the bytes.
unfoldable pub title_fields : (Bytes → Text) → List Text → Option (ℕ × Text)
title_fields replaced (a ∷ b ∷ []) = do
  wid ← natural 1 max_id a
  title ← if is_dash b then some [] else if ltb 2048 (length b) then none else bytes_from_hex b
  some (wid, (if is_dash b then [] else replaced title))
title_fields replaced _ = none

unfoldable pub focus_fields : List Text → Option (ℕ × ℕ × ℕ × ℕ × ℕ)
focus_fields (a ∷ b ∷ c ∷ d ∷ e ∷ []) = do
  sid ← natural 0 max_id a
  wid ← natural 0 max_id b
  pid ← natural 0 max_id c
  surface ← natural 0 max_id d
  ready ← natural 0 max_id e
  some (sid, wid, pid, surface, ready)
focus_fields _ = none

pub protocol_of : Text → Option Protocol
protocol_of t =
    if text_eq t (codes "wayland")
    then some wayland
    else if text_eq t (codes "x11")
    then some x11
    else none

-- integer(value, -1, 0x7fffffff).
pub pid_of : Option ℤ → Option ℤ
pid_of (some (pos n)) = if leb n 0x7fffffff then some (pos n) else none
pid_of (some (negsuc ℕ.zero)) = some (negsuc 0)
pid_of _ = none

unfoldable pub window_fields : List Text → Option NativeWindow
unfolding protocol_of pid_of
window_fields (a ∷ b ∷ p ∷ c ∷ d ∷ e ∷ f ∷ []) = do
  wid ← natural 1 max_id a
  parent ← natural 0 max_id b
  protocol ← protocol_of p
  pid ← pid_of (int_of_text c)
  width ← natural 1 65536 d
  height ← natural 1 65536 e
  mode ← natural 0 8 f
  some (record {
    window = wid;
    parent = parent;
    protocol = protocol;
    pid = pid;
    width = width;
    height = height;
    mode = mode;
  })
window_fields _ = none

unfoldable pub barrier_fields : List Text → Option (ℕ × ℕ × ℕ)
barrier_fields (a ∷ b ∷ c ∷ []) = do
  id ← natural 0 max_id a
  generation ← natural 0 max_id b
  window ← natural 0 max_id c
  some (id, generation, window)
barrier_fields _ = none
