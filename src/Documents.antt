-- ===== src/Documents.antt =====
-- desktop_documents.py: which operations on the host's document portal a prepared service may make
-- (`DocumentGrants.admit`), as tests on the operation. The arguments have the types of `SIGNATURES` in
-- desktop_document_service.py, by which the bus checks a call.
pub mod Grants
pub mod Limits
pub mod Unique
mod Examples
use floe_native_apps.Prelude.{
  ℕ, ◌+◌, ◌*◌, ◌/◌, ◌%◌, Bool, true, false, not, ◌&&◌, ◌||◌, Option, none, some, List, [], ◌∷◌, leb,
  ltb, ◌==◌, if◌then◌else◌, length, any, all,
}
use floe_native_apps.Prelude.Options.{◌>>=◌}
use floe_native_apps.Python.Int.{ℤ, pos, negsuc}
use floe_native_apps.Python.Text.{Text, codes, text_eq}

abbrev pub max_documents : ℕ
max_documents = 4096

abbrev pub max_pending : ℕ
max_pending = 32

abbrev pub max_files : ℕ
max_files = 64

abbrev permission_names : List Text
permission_names = codes "read" ∷ codes "write" ∷ codes "grant-permissions" ∷ codes "delete" ∷ []

pub data Role : Type 0 where
  portal launcher other : Role

-- `DocumentCaller`; a file is the device and the number of `file_identity`.
pub record Caller : Type 0 where
  pub role : Role
  pub is_valid : Bool
  pub files : List (ℕ × ℕ)

-- A descriptor, with none where `file_identity` raises.
pub record Descriptor : Type 0 where
  pub identity : Option (ℕ × ℕ)
  pub is_directory : Bool

pub data Operation : Type 0 where
  get_mount_point : Operation
  add : ℤ → Bool → Bool → Operation
  add_full : List ℤ → ℕ → Text → List Text → Operation
  add_named : ℤ → List ℕ → Bool → Bool → Operation
  add_named_full : ℤ → List ℕ → ℕ → Text → List Text → Operation
  grant_permissions revoke_permissions : Text → Text → List Text → Operation
  delete info : Text → Operation

-- What an `Add` method asks for: its handles, its flags and the name of a file to save.
pub record Addition : Type 0 where
  pub handles : List ℤ
  pub flags : ℕ
  pub name : Option (List ℕ)

abbrev bit : Bool → ℕ
bit true = 1
bit false = 0

abbrev pub addition : Operation → Option Addition
addition (add h reuse persistent) =
    some (record { handles = h ∷ []; flags = bit reuse + 2 * bit persistent; name = none })
addition (add_full hs flags app permissions) =
    some (record { handles = hs; flags = flags; name = none })
addition (add_named h name reuse persistent) =
    some (record { handles = h ∷ []; flags = bit reuse + 2 * bit persistent; name = some name })
addition (add_named_full h name flags app permissions) =
    some (record { handles = h ∷ []; flags = flags; name = some name })
addition _ = none

-- The document that an operation names, and whether it would take a grant away.
abbrev pub named : Operation → Option (Text × Bool)
named (grant_permissions d app permissions) = some (d, false)
named (revoke_permissions d app permissions) = some (d, true)
named (delete d) = some (d, true)
named (info d) = some (d, false)
named _ = none

-- The application that an operation names, and the permissions.
abbrev application : Operation → Option (Text × List Text)
application (add_full hs flags app permissions) = some (app, permissions)
application (add_named_full h name flags app permissions) = some (app, permissions)
application (grant_permissions d app permissions) = some (app, permissions)
application (revoke_permissions d app permissions) = some (app, permissions)
application _ = none

member : Text → List Text → Bool
member t xs = any (λ x. text_eq x t) xs

distinct_texts : List Text → Bool
distinct_texts [] = true
distinct_texts (x ∷ xs) = not (member x xs) && distinct_texts xs

unfoldable pub permitted : Text → Option (Text × List Text) → Bool
unfolding member distinct_texts
permitted app_id none = true
permitted app_id (some (app, permissions)) =
    text_eq app app_id
    && leb (length permissions) (length permission_names)
    && distinct_texts permissions
    && all (λ p. member p permission_names) permissions

abbrev int_eq : ℤ → ℤ → Bool
int_eq (pos a) (pos b) = a == b
int_eq (negsuc a) (negsuc b) = a == b
int_eq _ _ = false

distinct : List ℤ → Bool
distinct [] = true
distinct (x ∷ xs) = not (any (int_eq x) xs) && distinct xs

-- Every number below n is a handle.
covers : ℕ → List ℤ → Bool
covers ℕ.zero hs = true
covers (ℕ.suc n) hs = any (int_eq (pos n)) hs && covers n hs

abbrev below : ℕ → ℤ → Bool
below n (pos i) = ltb i n
below n (negsuc i) = false

-- `set(handles) == set(range(n))`.
unfoldable pub indexes : ℕ → List ℤ → Bool
unfolding covers
indexes n hs = all (below n) hs && covers n hs

-- `name.endswith(b'\0') and b'\0' not in name[:-1] and b'/' not in name`.
terminated : List ℕ → Bool
terminated [] = false
terminated (b ∷ []) = b == 0
terminated (b ∷ c ∷ rest) = not (b == 0) && not (b == 47) && terminated (c ∷ rest)

-- `name[:-1] in (b'', b'.', b'..')`, for a name that ends with a zero.
abbrev special : List ℕ → Bool
special (a ∷ []) = true
special (a ∷ b ∷ []) = a == 46
special (a ∷ b ∷ c ∷ []) = a == 46 && b == 46
special _ = false

abbrev is_launcher : Role → Bool
is_launcher launcher = true
is_launcher _ = false

abbrev pub is_prepared : Role → Bool
is_prepared other = false
is_prepared _ = true

unfoldable pub saves : Role → Option (List ℕ) → Bool
unfolding terminated
saves role none = true
saves role (some name) =
    terminated name && not (special name) && leb (length name) 256 && not (is_launcher role)

abbrev same_file : ℕ × ℕ → ℕ × ℕ → Bool
same_file (a, b) (c, d) = a == c && b == d

abbrev is_named : Option (List ℕ) → Bool
is_named none = false
is_named (some name) = true

abbrev authorized : Caller → Option (ℕ × ℕ) → Bool
authorized c none = false
authorized c (some i) = not (is_launcher c.role) || any (same_file i) c.files

-- One descriptor of an addition.
unfoldable pub accepts : Caller → Option (List ℕ) → Descriptor → Bool
accepts c name d = authorized c d.identity && (not (is_named name) || d.is_directory)

unfoldable pub acceptable : Caller → Addition → List Descriptor → Bool
unfolding distinct
acceptable c a ds =
    ltb a.flags 16
    && leb 1 (length a.handles)
    && leb (length a.handles) max_files
    && indexes (length ds) a.handles
    && distinct a.handles
    && saves c.role a.name
    && all (accepts c a.name) ds
