-- ===== src/DesktopCursor.antt =====
-- desktop_cursor.py: `NativeCursor`, the latest cursor of the native scene, read in chunks, and its PNG.
-- The native scene is outside: a method is given the target and the connection of that moment, and
-- what it sends or reports is a list of events.
pub mod Records
pub mod Complete
mod Examples
use floe_native_apps.Prelude.{
  ℕ, zero, suc, ◌+◌, ◌*◌, ◌/◌, ◌%◌, Bool, true, false, not, ◌&&◌, Option, none, some, List, [], ◌∷◌,
  ◌++◌, if◌then◌else◌, length, take, drop, map,
}
use floe_native_apps.Python.Text.{Text, codes}
use floe_native_apps.DesktopControl.Reader.{Bytes, pack}
use floe_native_apps.DesktopClipboard.{Target}

abbrev pub limit : ℕ
limit = 1024

abbrev pub chunk : ℕ
chunk = 1024

-- What the module takes from zlib, and the test of a hotspot: the text is a float that is finite, not
-- negative and below the size.
pub record Library : Type 0 where
  pub crc32 : Bytes → ℕ
  pub compress : Bytes → Bytes
  pub is_hotspot : Text → ℕ → Bool

pub record Image : Type 0 where
  pub width : ℕ
  pub height : ℕ
  pub logical_width : ℕ
  pub logical_height : ℕ
  pub xhot : Text
  pub yhot : Text

pub data Mode : Type 0 where
  hidden default : Mode
  image : Image → Mode

pub record Description : Type 0 where
  pub sequence : ℕ
  pub generation : ℕ
  pub window : ℕ
  pub mode : Mode

-- `image` is that of the mode of `description`.
pub record Ticket : Type 0 where
  pub target : Target
  pub description : Description
  pub image : Image
  pub bytes : Bytes

pub record Cursor : Type 0 where
  pub revision : ℕ
  pub current : Option (Description × Option Bytes)
  pub pending : Option Ticket
  pub request : Option (ℕ × ℕ)
  pub closed : Bool

pub data Event : Type 0 where
  changed : Event
  read_sent : ℕ → ℕ → Event

-- Whether the method raised, the object, and the events.
abbrev pub Outcome : Type 0
Outcome = Bool × Cursor × List Event

unfoldable pub new : Cursor
new = record { revision = 0; current = none; pending = none; request = none; closed = false }

-- The rows of an image, each after a filter byte 0; a row has `stride` bytes, and the last one may be
-- shorter. The length of the pixels is enough fuel.
rows : ℕ → ℕ → Bytes → Bytes
rows zero stride pixels = []
rows (suc fuel) stride [] = []
rows (suc fuel) stride (p ∷ pixels) =
    0 ∷ (take stride (p ∷ pixels) ++ rows fuel stride (drop stride (p ∷ pixels)))

png_chunk : Library → Bytes → Bytes → Bytes
png_chunk lib kind bytes = pack (length bytes) ++ kind ++ bytes ++ pack (lib.crc32 (kind ++ bytes))

signature : Bytes
signature = 137 ∷ 80 ∷ 78 ∷ 71 ∷ 13 ∷ 10 ∷ 26 ∷ 10 ∷ []

unfoldable pub rgba_png : Library → ℕ → ℕ → Bytes → Bytes
unfolding rows png_chunk signature
rgba_png lib width height pixels =
    signature
    ++ png_chunk lib (codes "IHDR") (pack width ++ pack height ++ 8 ∷ 6 ∷ 0 ∷ 0 ∷ 0 ∷ [])
    ++ png_chunk lib (codes "IDAT") (lib.compress (rows (length pixels) (width * 4) pixels))
    ++ png_chunk lib (codes "IEND") []

abbrev pub size_of : Image → ℕ
size_of i = i.width * i.height * 4

abbrev pub is_some {ℓ} : {A : Type ℓ} → Option A → Bool
is_some none = false
is_some (some a) = true

pump_in : Option Ticket → Cursor → Cursor × List Event
pump_in none s = (s, [])
pump_in (some t) s =
    if not (is_some s.request) && not s.closed
    then (
      record s { request = some (t.description.sequence, length t.bytes) },
      read_sent t.description.sequence (length t.bytes) ∷ [],
    )
    else (s, [])

unfoldable pub pump : Cursor → Cursor × List Event
unfolding pump_in
pump s = pump_in s.pending s

unfoldable pub invalidate : Cursor → Cursor × List Event
invalidate s = (record s { pending = none; current = none }, changed ∷ [])

unfoldable pub close : Cursor → Cursor × List Event
unfolding invalidate
close s = invalidate (record s { closed = true; request = none })
