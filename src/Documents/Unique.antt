-- ===== src/Documents/Unique.antt =====
-- A grant is taken away only from a document that the instance exported once, as one of its own.
use floe_native_apps.Prelude.{
  ◌≡◌, refl, subst, Bool, true, false, not, ◌&&◌, ◌||◌, Option, none, some, List, [], ◌∷◌,
  if◌then◌else◌, length, ◌==◌, get, get-put, get-remove, Bool-cases, inl, inr, arith,
}
use floe_native_apps.Python.Text.{Text, text_eq}
use floe_native_apps.Python.Value.{Value}
use floe_native_apps.Documents.{
  Caller, Descriptor, Operation, get_mount_point, add, add_full, add_named, add_named_full,
  grant_permissions, revoke_permissions, delete, info, named,
}
use floe_native_apps.Documents.Grants.{
  Grant, Request, Grants, new, admit, owned, is_unique, is_some, was_persistent, exports,
  export_one, export, withdraw, complete_add, identifiers, is_addition, contains, without, complete,
  failed, close, Call, admits, completes, fails, closes, find, complete_found, fail_found, step,
  run, text_key,
}

-- A document is of its own exactly if it was exported once, as one of its own.
abbrev pub Tracks : Option Grant → Option (List Bool) → Type 0
Tracks none none = Unit
Tracks (some g) (some (b ∷ [])) = g.unique ≡ b
Tracks (some g) (some (b ∷ c ∷ bs)) = g.unique ≡ false
Tracks _ _ = ⊥

record IsTracked (s : Grants) : Type 0 where
  tracked : (d : Text) → Tracks (get d s.documents) (get d s.exported)

again :
    (u p : Bool) (o : Option Grant) (bs : Option (List Bool))
    → Tracks o bs
    → Tracks
        (some (record { unique = u && not (is_some o); persistent = p }))
        (some (u ∷ exports bs))
again true p none none h = refl
again false p none none h = refl
again true p (some g) (some (b ∷ [])) h = refl
again false p (some g) (some (b ∷ [])) h = refl
again true p (some g) (some (b ∷ c ∷ bs)) h = refl
again false p (some g) (some (b ∷ c ∷ bs)) h = refl
again u p none (some bs) h = elim h [ ]
again u p (some g) none h = elim h [ ]
again u p (some g) (some []) h = elim h [ ]

Tracks-if :
    (b : Bool) (g h : Option Grant) (xs ys : Option (List Bool))
    → Tracks g xs
    → Tracks h ys
    → Tracks (if b then g else h) (if b then xs else ys)
Tracks-if true g h xs ys a b = a
Tracks-if false g h xs ys a b = b

export_one-IsTracked :
    (r : Request) (d : Text) (s : Grants) → IsTracked s → IsTracked (export_one r d s)
unfolding export_one
export_one-IsTracked r d s h = record {
  tracked = λ e.
      rw (get-put d e _ s.documents, get-put d e _ s.exported)
        (Tracks-if (text_eq d e) _ _ _ _
          (again r.unique (r.persistent || was_persistent (get d s.documents)) (get d s.documents)
            (get d s.exported) (h.tracked d))
          (h.tracked e));
}

export-IsTracked :
    (r : Request) (ts : List Text) (s : Grants) → IsTracked s → IsTracked (export r ts s)
unfolding export
export-IsTracked r [] s h = h
export-IsTracked r ([] ∷ ts) s h = export-IsTracked r ts s h
export-IsTracked r ((c ∷ cs) ∷ ts) s h =
    export-IsTracked r ts (export_one r (c ∷ cs) s) (export_one-IsTracked r (c ∷ cs) s h)

withdraw-IsTracked : (op : Operation) (s : Grants) → IsTracked s → IsTracked (withdraw op s)
unfolding withdraw
withdraw-IsTracked get_mount_point s h = h
withdraw-IsTracked (add i a b) s h = h
withdraw-IsTracked (add_full hs f a p) s h = h
withdraw-IsTracked (add_named i n a b) s h = h
withdraw-IsTracked (add_named_full i n f a p) s h = h
withdraw-IsTracked (grant_permissions d a p) s h = h
withdraw-IsTracked (revoke_permissions d a p) s h = h
withdraw-IsTracked (info d) s h = h
withdraw-IsTracked (delete d) s h = record {
  tracked = λ e.
      rw (get-remove d e s.documents, get-remove d e s.exported)
        (Tracks-if (text_eq d e) none (get e s.documents) none (get e s.exported) tt (h.tracked e));
}

complete_add-IsTracked :
    (r : Request) (ts : Option (List Text)) (s : Grants)
    → IsTracked s
    → IsTracked (complete_add r ts s).1
unfolding complete_add
complete_add-IsTracked r none s h = h
complete_add-IsTracked r (some ts) s h = elim (Bool-cases (length ts == r.count)) [
  | inl e ↦ simp e (export-IsTracked r ts s h)
  | inr e ↦ simp e h
]

complete-IsTracked :
    (r : Request) (reply : List Value) (s : Grants) → IsTracked s → IsTracked (complete r reply s).1
unfolding complete
complete-IsTracked r reply s h =
    let t : Grants = record s { pending = without r.identity s.pending } in
    let w = withdraw-IsTracked r.operation t (record { tracked = h.tracked }) in
    elim (Bool-cases (contains r.identity s.pending)) [
      | inr c ↦ simp c h
      | inl c ↦ elim (Bool-cases (is_addition r.operation)) [
        | inl a ↦
            simp (c, a) (complete_add-IsTracked r (identifiers reply) (withdraw r.operation t) w)
        | inr a ↦ simp (c, a) w
      ]
    ]

complete_found-IsTracked :
    (o : Option Request) (reply : List Value) (s : Grants)
    → IsTracked s
    → IsTracked (complete_found o reply s)
unfolding complete_found
complete_found-IsTracked none reply s h = h
complete_found-IsTracked (some r) reply s h = complete-IsTracked r reply s h

fail_found-IsTracked : (o : Option Request) (s : Grants) → IsTracked s → IsTracked (fail_found o s)
unfolding fail_found failed
fail_found-IsTracked none s h = h
fail_found-IsTracked (some r) s h = record { tracked = h.tracked }

admit-IsTracked :
    (c : Caller) (op : Option Operation) (ds : List Descriptor) (s : Grants)
    → IsTracked s
    → IsTracked (admit c op ds s).1
unfolding admit
admit-IsTracked c none ds s h = h
admit-IsTracked c (some op) ds s h = ground arith

step-IsTracked : (s : Grants) (c : Call) → IsTracked s → IsTracked (step s c)
unfolding step close get
step-IsTracked s (admits c op ds) h = admit-IsTracked c op ds s h
step-IsTracked s (completes n reply) h = complete_found-IsTracked (find n s.pending) reply s h
step-IsTracked s (fails n) h = fail_found-IsTracked (find n s.pending) s h
step-IsTracked s closes h = record { tracked = λ d. tt }

runs : (s : Grants) (cs : List Call) → IsTracked s → IsTracked (run s cs)
unfolding run
runs s [] h = h
runs s (c ∷ cs) h = runs (step s c) cs (step-IsTracked s c h)

owned_unique :
    (d : Text) (s : Grants) → owned (some (d, true)) s ≡ true → is_unique (get d s.documents) ≡ true
unfolding owned
owned_unique d s e = ground (arith, e)

Tracks-unique :
    (o : Option Grant) (bs : Option (List Bool))
    → Tracks o bs
    → is_unique o ≡ true
    → bs ≡ some (true ∷ [])
Tracks-unique none none h e = cc
Tracks-unique (some g) (some (b ∷ [])) h e = cc
Tracks-unique (some g) (some (b ∷ c ∷ bs)) h e = cc
Tracks-unique none (some bs) h e = elim h [ ]
Tracks-unique (some g) none h e = elim h [ ]
Tracks-unique (some g) (some []) h e = elim h [ ]

admit-owned :
    (c : Caller) (op : Operation) (ds : List Descriptor) (s : Grants) {r : Request}
    → (admit c (some op) ds s).0 ≡ some r
    → owned (named op) s ≡ true
unfolding admit
admit-owned c op ds s e = ground (arith, e)

-- After any calls on new grants, an operation that takes a grant away and is admitted, a `Delete` or a
-- `RevokePermissions`, names a document that this instance has exported exactly once since it last
-- deleted it, by a request for a document of its own.
pub removal-exported :
    (app_id : Text) (cs : List Call) (c : Caller) (op : Operation) (ds : List Descriptor) (d : Text)
    (r : Request)
    → named op ≡ some (d, true)
    → (admit c (some op) ds (run (new app_id) cs)).0 ≡ some r
    → get d (run (new app_id) cs).exported ≡ some (true ∷ [])
unfolding new get
removal-exported app_id cs c op ds d r n e =
    let s = run (new app_id) cs in
    let t = runs (new app_id) cs (record { tracked = λ i. tt }) in
    let o = admit-owned c op ds s e in
    Tracks-unique (get d s.documents) (get d s.exported) (t.tracked d)
      (owned_unique d s (subst (λ x. owned x s ≡ true) n o))
