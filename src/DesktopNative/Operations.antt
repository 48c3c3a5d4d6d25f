-- ===== src/DesktopNative/Operations.antt =====
-- `validate_input` and `deliver`: pointer and key input, checked and put in the channel's commands.
use Prim.Native.String.{String}
use floe_native_apps.Prelude.{
  ℕ, suc, ◌+◌, ◌*◌, Bool, true, false, ◌&&◌, Option, none, some, List, [], ◌∷◌, leb, ◌==◌,
  if◌then◌else◌,
}
use floe_native_apps.Prelude.Options.{◌>>=◌}
use floe_native_apps.Python.Int.{pos, negsuc}
use floe_native_apps.Python.Text.{Text, codes, text_eq}
use floe_native_apps.Python.Value.{Value, bool, int, real, text, Fields, end, field}
use floe_native_apps.DesktopControl.Viewers.{get_field}
use floe_native_apps.DesktopClipboard.{Target}
use floe_native_apps.DesktopNative.{Command, motion, scroll, key, button, Desktop, Outcome}
use floe_native_apps.DesktopNative.Records.{reject}
use floe_native_apps.DesktopNative.Requests.{submit}

abbrev pub max_coordinate : ℕ
max_coordinate = 4096

-- A number from 0, or from minus `max_coordinate`, to `max_coordinate`.
unfoldable pub in_range : Bool → Value → Bool
in_range signed (int (pos n)) = leb n max_coordinate
in_range signed (int (negsuc n)) = signed && leb (suc n) max_coordinate
in_range signed (real (pos n) d) = leb n (max_coordinate * suc d)
in_range signed (real (negsuc n) d) = signed && leb (suc n) (max_coordinate * suc d)
in_range signed _ = false

unfoldable pub number : Bool → Option Value → Option Value
unfolding in_range
number signed none = none
number signed (some v) = if in_range signed v then some v else none

unfoldable pub integer : ℕ → ℕ → Option Value → Option ℕ
integer low high (some (int (pos n))) = if leb low n && leb n high then some n else none
integer low high _ = none

unfoldable pub pressed : Option Value → Option Bool
pressed (some (bool b)) = some b
pressed _ = none

abbrev field_count : Fields → ℕ
field_count end = 0
field_count (field k v fs) = suc (field_count fs)

-- An operation that was validated; that of a text or a clipboard keeps its value.
pub data Operation : Type 0 where
  key_input : ℕ → Bool → Operation
  move_input : Value → Value → Operation
  button_input : Value → Value → ℕ → Bool → Operation
  scroll_input : Value → Value → Value → Value → Operation
  text_input clipboard_input : Value → Operation

abbrev axis : Bool → String → Fields → Option Value
axis signed name fields = number signed (get_field (codes name) fields)

abbrev is_kind : Text → String → Bool
is_kind kind name = text_eq kind (codes name)

key_fields : Fields → Option Operation
key_fields fields = do
  code ← integer 1 767 (get_field (codes "code") fields)
  down ← pressed (get_field (codes "pressed") fields)
  some (key_input code down)

move_fields : Fields → Option Operation
move_fields fields = do x ← axis false "x" fields; y ← axis false "y" fields; some (move_input x y)

button_fields : Fields → Option Operation
button_fields fields = do
  x ← axis false "x" fields
  y ← axis false "y" fields
  code ← integer 0 4 (get_field (codes "button") fields)
  down ← pressed (get_field (codes "pressed") fields)
  some (button_input x y code down)

scroll_fields : Fields → Option Operation
scroll_fields fields = do
  x ← axis false "x" fields
  y ← axis false "y" fields
  dx ← axis true "dx" fields
  dy ← axis true "dy" fields
  some (scroll_input x y dx dy)

text_fields : (Value → Operation) → Fields → Option Operation
text_fields make fields = do value ← get_field (codes "text") fields; some (make value)

-- The keys of an object are distinct, so a number of fields and each name make the set.
fields_of : Text → Fields → Option Operation
unfolding key_fields move_fields button_fields scroll_fields text_fields
fields_of kind fields =
    if is_kind kind "key" && field_count fields == 3
    then key_fields fields
    else if is_kind kind "move" && field_count fields == 3
    then move_fields fields
    else if is_kind kind "button" && field_count fields == 5
    then button_fields fields
    else if is_kind kind "scroll" && field_count fields == 5
    then scroll_fields fields
    else if is_kind kind "text" && field_count fields == 2
    then text_fields text_input fields
    else if is_kind kind "clipboard" && field_count fields == 2
    then text_fields clipboard_input fields
    else none

validated : Option Value → Fields → Option Operation
unfolding fields_of
validated (some (text kind)) fields = fields_of kind fields
validated _ fields = none

-- `none` is the ValueError.
unfoldable pub validate_input : Fields → Option Operation
unfolding validated
validate_input fields = validated (get_field (codes "kind") fields) fields

-- The kernel's code of the buttons left, middle, right, and the next two.
unfoldable pub button_code : ℕ → ℕ
button_code b = if b == 0 then 272 else if b == 1 then 274 else if b == 2 then 273 else 272 + b

-- The commands of an operation; none for those that need a context.
unfoldable pub commands_of : Operation → Option (List Command)
unfolding button_code
commands_of (key_input code down) = some (key code down ∷ [])
commands_of (move_input x y) = some (motion x y ∷ [])
commands_of (button_input x y b down) = some (motion x y ∷ button (button_code b) down ∷ [])
commands_of (scroll_input x y dx dy) = some (motion x y ∷ scroll dx dy ∷ [])
commands_of (text_input v) = none
commands_of (clipboard_input v) = none

unfoldable pub deliver_in : Option (List Command) → ℕ → Target → Bool → Desktop → Outcome
deliver_in none epoch target ok s = reject s
deliver_in (some commands) epoch target ok s = submit epoch target commands ok s

unfoldable pub deliver : ℕ → Target → Fields → Bool → Desktop → Outcome
unfolding deliver_in
deliver epoch target fields ok s =
    deliver_in (validate_input fields >>= commands_of) epoch target ok s
