-- ===== src/DesktopCursor/Records.antt =====
-- `NativeCursor.observe`: the records of the native channel, and the steps of the whole object.
use floe_native_apps.Prelude.{
  ℕ, ◌-◌, ◌*◌, min, Bool, true, false, not, ◌&&◌, ◌||◌, Option, none, some, List, [], ◌∷◌, ◌++◌,
  leb, ◌==◌, if◌then◌else◌, length,
}
use floe_native_apps.Python.Text.{Text, codes, text_eq}
use floe_native_apps.Python.Number.{int_of_text, within, is_dash, well_encoded, from_hex}
use floe_native_apps.DesktopClipboard.{Target, max_id}
use floe_native_apps.DesktopCursor.{
  limit, chunk, Library, Image, Mode, hidden, default, image, Description, Ticket, Cursor, Event,
  changed, Outcome, rgba_png, size_of, pump, invalidate, close,
}

abbrev natural : ℕ → ℕ → Text → Option ℕ
natural low high t = within low high (int_of_text t)

-- The four numbers of an image, where each is there, and its hotspot.
abbrev image_of : Library → Option ℕ → Option ℕ → Option ℕ → Option ℕ → Text → Text → Option Mode
image_of lib (some w) (some h) (some lw) (some lh) x y =
    let i : Image = record {
      width = w;
      height = h;
      logical_width = lw;
      logical_height = lh;
      xhot = x;
      yhot = y;
    } in
    if lib.is_hotspot x lw && lib.is_hotspot y lh then some (image i) else none
image_of lib _ _ _ _ x y = none

-- The fields from the mode on.
mode_of : Library → List Text → Option Mode
mode_of lib (m ∷ []) =
    if text_eq m (codes "hidden")
    then some hidden
    else if text_eq m (codes "default")
    then some default
    else none
mode_of lib (m ∷ w ∷ h ∷ lw ∷ lh ∷ x ∷ y ∷ []) =
    if text_eq m (codes "image")
    then image_of lib (natural 1 limit w) (natural 1 limit h) (natural 1 limit lw)
        (natural 1 limit lh) x y
    else none
mode_of lib _ = none

-- A state: its description, and the connection.
abbrev described :
    Option ℕ → Option ℕ → Option ℕ → Option ℕ → Option Mode → Option (Description × ℕ)
described (some r) (some c) (some g) (some w) (some m) =
    some (record { sequence = r; generation = g; window = w; mode = m }, c)
described _ _ _ _ _ = none

unfoldable pub state_fields : Library → List Text → Option (Description × ℕ)
unfolding mode_of
state_fields lib (r ∷ c ∷ g ∷ w ∷ rest) =
    described (natural 1 max_id r) (natural 1 max_id c) (natural 0 max_id g) (natural 0 max_id w)
      (mode_of lib rest)
state_fields lib _ = none

abbrev then_changed : Cursor → Outcome
then_changed s = (false, s, changed ∷ [])

abbrev pub is_shown : Description → ℕ → ℕ → Target → Bool
is_shown d connection epoch t =
    connection == epoch && t.window == d.window && t.generation == d.generation

abbrev then_pump : Cursor → Outcome
then_pump s = let (t, events) = pump s in (false, t, events)

abbrev pub shown : Mode → Target → Description → Cursor → Outcome
shown (image i) t d s =
    then_pump
      (record s { pending = some (record { target = t; description = d; image = i; bytes = [] }) })
shown _ t d s = then_changed (record s { current = some (d, none) })

-- `target` and `epoch` are those of the scene; the revision is new.
unfoldable pub describe : Description → ℕ → Option Target → ℕ → Cursor → Outcome
describe d connection none epoch s = then_changed (record s { current = none })
describe d connection (some t) epoch s =
    if is_shown d connection epoch t
    then shown d.mode t d s
    else then_changed (record s { current = none })

unfoldable pub state_in : Option (Description × ℕ) → Option Target → ℕ → Cursor → Outcome
state_in none target epoch s = (true, s, [])
state_in (some (d, connection)) target epoch s =
    if leb d.sequence s.revision
    then (true, s, [])
    else describe d connection target epoch (record s { revision = d.sequence; pending = none })

abbrev pub is_target : Target → Option Target → Bool
is_target t none = false
is_target t (some u) = u.id == t.id

-- `self.request = None` and `pump`, after a chunk that was taken.
abbrev pub proceed : Cursor × List Event → Outcome
proceed (s, events) =
    let (t, more) = pump (record s { request = none }) in (false, t, events ++ more)

-- A chunk of the right size at the right place.
unfoldable pub extend : Library → Ticket → Text → Cursor → Cursor × List Event
extend lib t encoded s =
    let bytes = t.bytes ++ from_hex encoded in
    if length bytes == size_of t.image
    then (
      record s {
        current = some (t.description, some (rgba_png lib t.image.width t.image.height bytes));
        pending = none;
      },
      changed ∷ [],
    )
    else (record s { pending = some (record t { bytes = bytes }) }, [])

unfoldable pub chunk_in : Library → Ticket → ℕ → Text → Option Target → Cursor → Outcome
chunk_in lib t offset encoded target s =
    if not (is_target t.target target) || is_dash encoded
    then proceed (record s { pending = none; current = none }, changed ∷ [])
    else if not (offset == length t.bytes)
        || not (length encoded == min chunk (size_of t.image - length t.bytes) * 2)
    then (true, s, [])
    else proceed (extend lib t encoded s)

unfoldable pub received : Library → Option Ticket → ℕ → ℕ → Text → Option Target → Cursor → Outcome
received lib none revision offset encoded target s = proceed (s, [])
received lib (some t) revision offset encoded target s =
    if t.description.sequence == revision
    then chunk_in lib t offset encoded target s
    else proceed (s, [])

abbrev pub is_request : ℕ → ℕ → Option (ℕ × ℕ) → Bool
is_request revision offset none = false
is_request revision offset (some (r, o)) = r == revision && o == offset

unfoldable pub data_in : Library → Option ℕ → Option ℕ → Text → Option Target → Cursor → Outcome
data_in lib (some revision) (some offset) encoded target s =
    if not (is_request revision offset s.request) || not (well_encoded encoded)
    then (true, s, [])
    else received lib s.pending revision offset encoded target s
data_in lib _ _ encoded target s = (true, s, [])

unfoldable pub observe_data : Library → List Text → Option Target → Cursor → Outcome
observe_data lib (r ∷ o ∷ encoded ∷ []) target s =
    data_in lib (natural 1 max_id r) (natural 0 (limit * limit * 4) o) encoded target s
observe_data lib _ target s = (true, s, [])

-- The fields of the record; `target` and `epoch` are those of the scene.
unfoldable pub observe : Library → List Text → Option Target → ℕ → Cursor → Outcome
observe lib [] target epoch s = (not s.closed, s, [])
observe lib (kind ∷ fields) target epoch s =
    if s.closed
    then (false, s, [])
    else if text_eq kind (codes "cursor-state")
    then state_in (state_fields lib fields) target epoch s
    else if text_eq kind (codes "cursor-data")
    then observe_data lib fields target s
    else (true, s, [])

pub data Call : Type 0 where
  observes : List Text → Option Target → ℕ → Call
  invalidates closes : Call

abbrev pub cursor_of : Outcome → Cursor
cursor_of (raised, s, events) = s

unfoldable pub step : Library → Cursor → Call → Cursor
step lib s (observes fields target epoch) = cursor_of (observe lib fields target epoch s)
step lib s invalidates = (invalidate s).0
step lib s closes = (close s).0

unfoldable pub run : Library → Cursor → List Call → Cursor
run lib s [] = s
run lib s (c ∷ cs) = run lib (step lib s c) cs
