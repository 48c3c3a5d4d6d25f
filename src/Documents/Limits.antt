-- ===== src/Documents/Limits.antt =====
-- The documents of an instance, with those that its pending operations may add, are at most 4096.
use floe_native_apps.Prelude.{
  ℕ, ◌+◌, ◌≤◌, ◌≡◌, refl, sym, ap, ==_iff, ◌∙◌, subst, some-injective, Option, none, some, List, [],
  ◌∷◌, ◌==◌, length, length-put, length-remove, Bool-cases, inl, inr, arith,
}
use floe_native_apps.Python.Text.{Text}
use floe_native_apps.Python.Value.{Value}
use floe_native_apps.Documents.{
  max_documents, max_pending, Caller, Descriptor, Operation, get_mount_point, add, add_full,
  add_named, add_named_full, grant_permissions, revoke_permissions, delete, info,
}
use floe_native_apps.Documents.Grants.{
  Request, Grants, new, total, admit, export_one, export, withdraw, complete_add, identifiers,
  is_addition, contains, without, complete, failed, close, Call, admits, completes, fails, closes,
  find, complete_found, fail_found, step, run, text_key,
}

pub record IsLimited (s : Grants) : Type 0 where
  pub documents : length s.documents + total s.pending ≤ max_documents
  pub pending : length s.pending ≤ max_pending

without-le :
    (n : ℕ) (rs : List Request)
    → (total (without n rs) ≤ total rs) × (length (without n rs) ≤ length rs)
unfolding without
without-le n [] = (omega arith, omega arith)
without-le n (r ∷ rs) = let h = without-le n rs in ground (arith, h.0, h.1)

total-without :
    (n : ℕ) (rs : List Request) {r : Request}
    → find n rs ≡ some r
    → r.count + total (without n rs) ≤ total rs
unfolding without find
total-without n [] e = cc
total-without n (q ∷ rs) {r = r} e = elim (Bool-cases (q.identity == n)) [
  | inl t ↦
      let same : q ≡ r = some-injective q r (rw t at e) in
      let l = without-le n rs in
      simp t
        (subst (λ x. x.count + total (without n rs) ≤ q.count + total rs) same (omega (arith, l.0)))
  | inr t ↦ let h = total-without n rs (rw t at e) in simp t (omega (arith, h))
]

length-export_one :
    (r : Request) (d : Text) (s : Grants)
    → length (export_one r d s).documents ≤ length s.documents + 1
unfolding export_one
length-export_one r d s = length-put d _ s.documents

pending-export_one : (r : Request) (d : Text) (s : Grants) → (export_one r d s).pending ≡ s.pending
unfolding export_one
pending-export_one r d s = refl

export-le :
    (r : Request) (ts : List Text) (s : Grants)
    → (length (export r ts s).documents ≤ length s.documents + length ts)
      × ((export r ts s).pending ≡ s.pending)
unfolding export
export-le r [] s = (omega arith, refl)
export-le r ([] ∷ ts) s = let h = export-le r ts s in (omega (arith, h.0), h.1)
export-le r ((c ∷ cs) ∷ ts) s =
    let h = export-le r ts (export_one r (c ∷ cs) s) in
    let l = length-export_one r (c ∷ cs) s in
    (omega (arith, h.0, l), h.1 ∙ pending-export_one r (c ∷ cs) s)

withdraw-le :
    (op : Operation) (s : Grants)
    → (length (withdraw op s).documents ≤ length s.documents)
      × ((withdraw op s).pending ≡ s.pending)
unfolding withdraw
withdraw-le get_mount_point s = (omega arith, refl)
withdraw-le (add h a b) s = (omega arith, refl)
withdraw-le (add_full hs f a p) s = (omega arith, refl)
withdraw-le (add_named h n a b) s = (omega arith, refl)
withdraw-le (add_named_full h n f a p) s = (omega arith, refl)
withdraw-le (grant_permissions d a p) s = (omega arith, refl)
withdraw-le (revoke_permissions d a p) s = (omega arith, refl)
withdraw-le (info d) s = (omega arith, refl)
withdraw-le (delete d) s = (length-remove d s.documents, refl)

complete_add-IsLimited :
    (r : Request) (ts : Option (List Text)) (s : Grants)
    → length s.documents + (r.count + total s.pending) ≤ max_documents
    → length s.pending ≤ max_pending
    → IsLimited (complete_add r ts s).1
unfolding complete_add
complete_add-IsLimited r none s l p = record { documents = omega (arith, l); pending = p }
complete_add-IsLimited r (some ts) s l p =
    let h = export-le r ts s in ground (arith, h.0, h.1, l, p)

find-identity : (n : ℕ) (rs : List Request) {r : Request} → find n rs ≡ some r → r.identity ≡ n
unfolding find
find-identity n [] e = cc
find-identity n (q ∷ rs) {r = r} e = elim (Bool-cases (q.identity == n)) [
  | inl t ↦ subst (λ x. x.identity ≡ n) (some-injective q r (rw t at e)) ((==_iff q.identity n).0 t)
  | inr t ↦ find-identity n rs (rw t at e)
]

fail_found-IsLimited : (o : Option Request) (s : Grants) → IsLimited s → IsLimited (fail_found o s)
unfolding fail_found failed
fail_found-IsLimited none s h = h
fail_found-IsLimited (some r) s h =
    let l = without-le r.identity s.pending in
    record { documents = omega (arith, l.0, h.documents); pending = omega (arith, l.1, h.pending) }

admit-IsLimited :
    (c : Caller) (op : Option Operation) (ds : List Descriptor) (s : Grants)
    → IsLimited s
    → IsLimited (admit c op ds s).1
unfolding admit
admit-IsLimited c none ds s h = h
admit-IsLimited c (some op) ds s h = ground arith

complete-IsLimited :
    (n : ℕ) (r : Request) (reply : List Value) (s : Grants)
    → find n s.pending ≡ some r
    → IsLimited s
    → IsLimited (complete r reply s).1
unfolding complete
complete-IsLimited n r reply s e h =
    let t : Grants = record s { pending = without r.identity s.pending } in
    let w = withdraw-le r.operation t in
    let l = without-le r.identity s.pending in
    let k = find-identity n s.pending e in
    let m : r.count + total (without r.identity s.pending) ≤ total s.pending =
      total-without r.identity s.pending (subst (λ i. find i s.pending ≡ some r) (sym k) e) in
    let u = withdraw r.operation t in
    let pu = ap length w.1 in
    let tu = ap total w.1 in
    elim (Bool-cases (contains r.identity s.pending)) [
      | inr c ↦ simp c h
      | inl c ↦ elim (Bool-cases (is_addition r.operation)) [
        | inl a ↦
            simp (c, a)
              (complete_add-IsLimited r (identifiers reply) u
                (omega (arith, w.0, l.0, m, tu, h.documents)) (omega (arith, l.1, pu, h.pending)))
        | inr a ↦
            simp (c, a)
              (record {
                documents = omega (arith, w.0, l.0, tu, h.documents);
                pending = omega (arith, l.1, pu, h.pending);
              })
      ]
    ]

complete_found-IsLimited :
    (n : ℕ) (o : Option Request) (reply : List Value) (s : Grants)
    → find n s.pending ≡ o
    → IsLimited s
    → IsLimited (complete_found o reply s)
unfolding complete_found
complete_found-IsLimited n none reply s e h = h
complete_found-IsLimited n (some r) reply s e h = complete-IsLimited n r reply s e h

step-IsLimited : (s : Grants) (c : Call) → IsLimited s → IsLimited (step s c)
unfolding step close
step-IsLimited s (admits c op ds) h = admit-IsLimited c op ds s h
step-IsLimited s (completes n reply) h =
    complete_found-IsLimited n (find n s.pending) reply s refl h
step-IsLimited s (fails n) h = fail_found-IsLimited (find n s.pending) s h
step-IsLimited s closes h = record { documents = omega arith; pending = omega arith }

runs : (s : Grants) (cs : List Call) → IsLimited s → IsLimited (run s cs)
unfolding run
runs s [] h = h
runs s (c ∷ cs) h = runs (step s c) cs (step-IsLimited s c h)

-- After any calls on new grants, the documents with those that the pending operations may add are at
-- most 4096, and at most 32 operations are pending.
pub run-IsLimited : (app_id : Text) (cs : List Call) → IsLimited (run (new app_id) cs)
unfolding new
run-IsLimited app_id cs =
    runs (new app_id) cs (record { documents = omega arith; pending = omega arith })
