-- ===== src/DesktopControl/Examples.antt =====
-- The theorems on the viewers at two viewers of which the later one leaves, and then the helper closes.
use floe_native_apps.Prelude.{true, List, [], ◌∷◌}
use floe_native_apps.Python.Int.{pos}
use floe_native_apps.Python.Text.{Text, codes}
use floe_native_apps.Python.Value.{int, text, Fields, end, field}
use floe_native_apps.DesktopControl.Viewers.{Call, accepts, authenticates, closes, new, run}
use floe_native_apps.DesktopControl.Viewers.Authority.{IsLed, run-IsLed}

abbrev token : Text
token = codes "0123456789abcdef0123456789abcdef0123456789abcdef0123456789abcdef"

abbrev hello : Fields
hello =
    field (codes "version") (int (pos 1))
      (field (codes "instance") (text (codes "a")) (field (codes "token") (text token) end))

abbrev calls : List Call
calls = accepts true ∷ accepts true ∷ authenticates 0 hello ∷ authenticates 1 hello ∷ closes 1 ∷ []

run-IsLed_example : IsLed (run (new (codes "a") token) calls)
run-IsLed_example = run-IsLed (codes "a") token calls
