-- ===== src/Documents/Examples.antt =====
-- The theorems on one document that the launcher exports and then deletes.
use floe_native_apps.Prelude.{◌≡◌, refl, true, false, some, List, [], ◌∷◌, get, put, remove}
use floe_native_apps.Python.Int.{pos}
use floe_native_apps.Python.Text.{Text, codes, text_eq}
use floe_native_apps.Python.Value as Value
use floe_native_apps.Documents.{
  Caller, launcher, add, delete, permitted, acceptable, accepts, indexes, saves,
}
use floe_native_apps.Documents.Grants.{
  new, Call, admits, completes, step, run, admit, complete, complete_found, find, contains, without,
  withdraw, complete_add, identifiers, identifier, export, export_one, owned, fits, text_key,
}
use floe_native_apps.Documents.Limits.{IsLimited, run-IsLimited}
use floe_native_apps.Documents.Unique.{removal-exported}

abbrev app : Text
app = codes "org.example.App"

abbrev caller : Caller
caller = record { role = launcher; is_valid = true; files = (1, 2) ∷ [] }

abbrev document : Text
document = codes "d4"

abbrev calls : List Call
calls =
    admits caller (some (add (pos 0) false true))
      (record { identity = some (1, 2); is_directory = false } ∷ [])
    ∷ completes 0 (Value.text document ∷ [])
    ∷ []

run-IsLimited_example : IsLimited (run (new app) calls)
run-IsLimited_example = run-IsLimited app calls

removal-exported_example : get document (run (new app) calls).exported ≡ some (true ∷ [])
unfolding run step admit find new owned permitted fits acceptable indexes saves accepts contains
    identifiers identifier export export_one withdraw without get complete complete_add
    complete_found put remove text_eq
removal-exported_example =
    removal-exported app calls caller (delete document) [] document
      (record {
        identity = 1;
        operation = delete document;
        count = 0;
        unique = false;
        persistent = false;
      })
      refl refl
