-- ===== src/Documents/Grants.antt =====
-- `DocumentGrants`: the documents of one instance and the operations on them that are pending.
use floe_native_apps.Prelude.{
  ℕ, ◌+◌, ◌/◌, ◌%◌, Bool, true, false, not, ◌&&◌, ◌||◌, ◌≡◌, subst, Option, none, some, List, [],
  ◌∷◌, leb, ltb, ◌==◌, if◌then◌else◌, length, any, all, Dict, get, put, remove, Key,
}
use floe_native_apps.Python.Text.{Text, text_eq, eq_of_text_eq, text_eq_refl}
use floe_native_apps.Python.Value.{Value}
use floe_native_apps.Documents.{
  max_documents, max_pending, max_files, Caller, Descriptor, Operation, delete, Addition, addition,
  named, application, permitted, acceptable, is_prepared,
}

instance abbrev pub text_key : Key Text
text_key = record {
  beq = text_eq;
  beq_iff = λ a b. (eq_of_text_eq a b, λ e. subst (λ t. text_eq a t ≡ true) e (text_eq_refl a));
}

-- The entry of `documents`.
pub record Grant : Type 0 where
  pub unique : Bool
  pub persistent : Bool

-- `DocumentRequest`; `identity` tells one from another.
pub record Request : Type 0 where
  pub identity : ℕ
  pub operation : Operation
  pub count : ℕ
  pub unique : Bool
  pub persistent : Bool

-- `exported` is no field of the program: for each document, whether each export since the document was
-- last deleted asked for one of its own, the latest first.
pub record Grants : Type 0 where
  pub app_id : Text
  pub documents : Dict Text Grant
  pub pending : List Request
  pub closed : Bool
  pub next_identity : ℕ
  pub exported : Dict Text (List Bool)

abbrev is_letter : ℕ → Bool
is_letter c = (leb 65 c && leb c 90) || (leb 97 c && leb c 122) || c == 95

abbrev is_follower : ℕ → Bool
is_follower c = is_letter c || (leb 48 c && leb c 57) || c == 45

-- The rest of an application's name, at the start of a part or within one, and the dots before it.
parts : Bool → ℕ → Text → Bool
parts start dots [] = not start && leb 2 dots
parts true dots (c ∷ cs) = is_letter c && parts false dots cs
parts false dots (c ∷ cs) =
    let next = parts true (dots + 1) cs in
    let same = parts false dots cs in if c == 46 then next else is_follower c && same

-- A name that `__init__` takes.
unfoldable pub is_app_id : Text → Bool
unfolding parts
is_app_id t = leb (length t) 255 && parts true 0 t

unfoldable pub new : Text → Grants
new app_id = record {
  app_id = app_id;
  documents = [];
  pending = [];
  closed = false;
  next_identity = 0;
  exported = [];
}

abbrev pub total : List Request → ℕ
total [] = 0
total (r ∷ rs) = r.count + total rs

abbrev pub is_unique : Option Grant → Bool
is_unique none = false
is_unique (some g) = g.unique

abbrev pub is_some {ℓ} : {A : Type ℓ} → Option A → Bool
is_some none = false
is_some (some a) = true

-- The document that is named is one of this instance, and one of its own if a grant goes.
unfoldable pub owned : Option (Text × Bool) → Grants → Bool
owned none s = true
owned (some (d, removes)) s =
    is_some (get d s.documents) && (not removes || is_unique (get d s.documents))

-- The addition, or the descriptors that an operation without one must not have.
unfoldable pub fits : Caller → Option Addition → List Descriptor → Bool
fits c none [] = true
fits c none (d ∷ ds) = false
fits c (some a) ds = acceptable c a ds

abbrev count_of : Option Addition → ℕ
count_of none = 0
count_of (some a) = length a.handles

abbrev unique_of : Option Addition → Bool
unique_of none = false
unique_of (some a) = a.flags % 2 == 0

abbrev persistent_of : Option Addition → Bool
persistent_of none = false
persistent_of (some a) = a.flags / 2 % 2 == 1

-- The request, or none for a ValueError; none as operation is a method of another name.
unfoldable pub admit :
    Caller → Option Operation → List Descriptor → Grants → Option Request × Grants
admit c none ds s = (none, s)
admit c (some op) ds s =
    let r : Request = record {
      identity = s.next_identity;
      operation = op;
      count = count_of (addition op);
      unique = unique_of (addition op);
      persistent = persistent_of (addition op);
    } in
    if s.closed
      || not c.is_valid
      || leb max_pending (length s.pending)
      || not (is_prepared c.role)
      || ltb max_files (length ds)
      || not (owned (named op) s)
      || not (permitted s.app_id (application op))
      || not (fits c (addition op) ds)
      || ltb max_documents (length s.documents + total s.pending + r.count)
    then (none, s)
    else (some r, record s { pending = r ∷ s.pending; next_identity = s.next_identity + 1 })

-- `[A-Za-z0-9_-]`.
abbrev is_word : ℕ → Bool
is_word c =
    (leb 65 c && leb c 90)
    || (leb 97 c && leb c 122)
    || (leb 48 c && leb c 57)
    || c == 95
    || c == 45

-- An identifier of the reply; the empty one names no document.
unfoldable pub identifier : Value → Option Text
identifier (Value.text t) = if leb (length t) 128 && all is_word t then some t else none
identifier _ = none

unfoldable pub identifiers : List Value → Option (List Text)
identifiers [] = some []
identifiers (v ∷ vs) = elim (identifier v) [
  | none ↦ none
  | some t ↦ elim (identifiers vs) [ none ↦ none | some ts ↦ some (t ∷ ts) ]
]

abbrev pub was_persistent : Option Grant → Bool
was_persistent none = false
was_persistent (some g) = g.persistent

abbrev pub exports : Option (List Bool) → List Bool
exports none = []
exports (some bs) = bs

unfoldable pub export_one : Request → Text → Grants → Grants
export_one r d s =
    let previous = get d s.documents in
    let g : Grant = record {
      unique = r.unique && not (is_some previous);
      persistent = r.persistent || was_persistent previous;
    } in
    record s {
      documents = put d g s.documents;
      exported = put d (r.unique ∷ exports (get d s.exported)) s.exported;
    }

unfoldable pub export : Request → List Text → Grants → Grants
export r [] s = s
export r ([] ∷ ts) s = export r ts s
export r ((c ∷ cs) ∷ ts) s = export r ts (export_one r (c ∷ cs) s)

abbrev pub is_addition : Operation → Bool
is_addition op = is_some (addition op)

unfoldable pub withdraw : Operation → Grants → Grants
withdraw (delete d) s = record s {
  documents = remove d s.documents;
  exported = remove d s.exported;
}
withdraw _ s = s

unfoldable pub complete_add : Request → Option (List Text) → Grants → Bool × Grants
complete_add r none s = (true, s)
complete_add r (some ts) s = if length ts == r.count then (false, export r ts s) else (true, s)

unfoldable pub contains : ℕ → List Request → Bool
contains n rs = any (λ r. r.identity == n) rs

unfoldable pub without : ℕ → List Request → List Request
without n [] = []
without n (r ∷ rs) = let rest = without n rs in if r.identity == n then rest else r ∷ rest

-- Whether it raised; the reply is the list of its first item, or that item alone.
unfoldable pub complete : Request → List Value → Grants → Bool × Grants
unfolding complete_add
complete r reply s =
    let t = withdraw r.operation (record s { pending = without r.identity s.pending }) in
    if not (contains r.identity s.pending)
    then (true, s)
    else if is_addition r.operation
    then complete_add r (identifiers reply) t
    else (false, t)

unfoldable pub failed : Request → Grants → Grants
failed r s = record s { pending = without r.identity s.pending }

unfoldable pub close : Grants → Grants
close s = record s { closed = true; pending = []; documents = []; exported = [] }

-- What is called. A request that is completed or failed is one that `admit` returned, by its identity.
pub data Call : Type 0 where
  admits : Caller → Option Operation → List Descriptor → Call
  completes : ℕ → List Value → Call
  fails : ℕ → Call
  closes : Call

unfoldable pub find : ℕ → List Request → Option Request
find n [] = none
find n (r ∷ rs) = if r.identity == n then some r else find n rs

unfoldable pub complete_found : Option Request → List Value → Grants → Grants
unfolding complete
complete_found none reply s = s
complete_found (some r) reply s = (complete r reply s).1

unfoldable pub fail_found : Option Request → Grants → Grants
unfolding failed
fail_found none s = s
fail_found (some r) s = failed r s

unfoldable pub step : Grants → Call → Grants
unfolding complete_found fail_found close
step s (admits c op ds) = (admit c op ds s).1
step s (completes n reply) = complete_found (find n s.pending) reply s
step s (fails n) = fail_found (find n s.pending) s
step s closes = close s

unfoldable pub run : Grants → List Call → Grants
run s [] = s
run s (c ∷ cs) = run (step s c) cs
