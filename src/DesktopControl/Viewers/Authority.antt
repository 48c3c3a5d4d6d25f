-- ===== src/DesktopControl/Viewers/Authority.antt =====
-- Input authority is with the viewer that authenticated last, of those that are still there.
use floe_native_apps.Prelude.{
  ℕ, suc, ◌+◌, ◌≤◌, ◌<◌, ◌≡◌, refl, ◌⊎◌, inl, inr, sym, subst, ap, ◌∙◌, Bool, true, false, not,
  ◌&&◌, ◌||◌, Option, none, some, List, [], ◌∷◌, ◌++◌, leb, ltb, if◌then◌else◌, length,
  length-append, keep_if, keep_if-Sub, length-Sub, arith, All, All-Sub, Bool-cases,
}
use floe_native_apps.Python.Text.{Text}
use floe_native_apps.Python.Value.{Fields}
use floe_native_apps.DesktopControl.Viewers.{
  is_authentic, Viewer, Control, max_peers, new, accept, newest, id_of, is_current, find, is_open,
  was_authenticated, is_viewer, close_peer, admitted, authenticate, Call, accepts, authenticates,
  closes, step, run, close, close_all, shuts,
}

pub record IsLed (s : Control) : Type 0 where
  pub bounded : length s.peers ≤ max_peers
  pub numbered : All (λ v. v.sequence ≤ s.sequence) s.peers
  pub leader : s.current ≡ id_of (newest s.peers)

newest-append :
    (vs : List Viewer) (v : Viewer) → v.authenticated ≡ false → newest (vs ++ v ∷ []) ≡ newest vs
unfolding newest
newest-append [] v h = ground arith
newest-append (w ∷ vs) v h = simp (newest-append vs v h)

-- The viewer found, if there is one, has a sequence of at most `n`.
abbrev Below : ℕ → Option Viewer → Type 0
Below n none = Unit
Below n (some w) = w.sequence ≤ n

abbrev IsBelow : ℕ → Viewer → Type 0
IsBelow n v = v.authenticated ≡ true → v.sequence ≤ n

newest-All : (n : ℕ) (vs : List Viewer) → Below n (newest vs) → All (IsBelow n) vs
unfolding newest
newest-All n [] h = tt
newest-All n (v ∷ vs) h =
    (λ e. ground arith, newest-All n vs (rest_below (newest vs) v (Bool-cases v.authenticated) h))
  where
    rest_below :
        (o : Option Viewer) (v : Viewer)
        → (v.authenticated ≡ true) ⊎ (v.authenticated ≡ false)
        → Below n (
            if v.authenticated
            then elim o [
              | none ↦ some v
              | some w ↦ if ltb v.sequence w.sequence then some w else some v
            ]
            else o)
        → Below n o
    rest_below none v c h = tt
    rest_below (some w) v c h = ground arith

All-newest : (n : ℕ) (vs : List Viewer) → All (IsBelow n) vs → Below n (newest vs)
unfolding newest
All-newest n [] a = tt
All-newest n (v ∷ vs) a = ground (arith, All-newest n vs, a.0)

newest-keep :
    (i : ℕ) (vs : List Viewer)
    → is_current i (id_of (newest vs)) ≡ false
    → newest (keep_if (λ v. not (is_viewer i v)) vs) ≡ newest vs
unfolding newest
newest-keep i [] h = refl
newest-keep i (v ∷ vs) h =
    let low = λ (n : ℕ) (b : Below n (newest vs)).
      All-newest n (keep_if (λ x. not (is_viewer i x)) vs)
        (All-Sub (IsBelow n) (keep_if-Sub (λ x. not (is_viewer i x)) vs) (newest-All n vs b)) in
    ground (arith, newest-keep i vs, low v.sequence)

abbrev NoneNewer : ℕ → List Viewer → Type 0
NoneNewer n vs = All (λ v. v.sequence < n) vs

-- The viewer found is the one admitted, or an older one.
abbrev Older : ℕ → ℕ → Option Viewer → Type 0
Older i n none = Unit
Older i n (some w) = ((w.id ≡ i) × (w.sequence ≡ n)) ⊎ (w.sequence < n)

Older-step :
    (i n : ℕ) (v : Viewer) (o : Option Viewer)
    → v.sequence < n
    → Older i n o
    → Older i n (
        if (if is_viewer i v
          then record v { authenticated = true; sequence = n }
          else v).authenticated
        then elim o [
          | none ↦
              some (if is_viewer i v then record v { authenticated = true; sequence = n } else v)
          | some w ↦
              if ltb
                (if is_viewer i v
                  then record v { authenticated = true; sequence = n }
                  else v).sequence
                w.sequence
              then some w
              else some
                  (if is_viewer i v then record v { authenticated = true; sequence = n } else v)
        ]
        else o)
Older-step i n v none l h = ground arith
Older-step i n v (some w) l h = ground arith

Older-admitted :
    (i n : ℕ) (vs : List Viewer) → NoneNewer n vs → Older i n (newest (admitted i n vs))
unfolding newest admitted
Older-admitted i n [] a = tt
Older-admitted i n (v ∷ vs) a =
    Older-step i n v (newest (admitted i n vs)) a.0 (Older-admitted i n vs a.1)

abbrev IsAdmitted : ℕ → ℕ → Option Viewer → Type 0
IsAdmitted i n none = ⊥
IsAdmitted i n (some w) = (w.id ≡ i) × (w.sequence ≡ n)

IsAdmitted-wins :
    (i n : ℕ) (v : Viewer) (o : Option Viewer)
    → v.sequence < n
    → Older i n o
    → (is_viewer i v ≡ true) ⊎ IsAdmitted i n o
    → IsAdmitted i n (
        if (if is_viewer i v
          then record v { authenticated = true; sequence = n }
          else v).authenticated
        then elim o [
          | none ↦
              some (if is_viewer i v then record v { authenticated = true; sequence = n } else v)
          | some w ↦
              if ltb
                (if is_viewer i v
                  then record v { authenticated = true; sequence = n }
                  else v).sequence
                w.sequence
              then some w
              else some
                  (if is_viewer i v then record v { authenticated = true; sequence = n } else v)
        ]
        else o)
IsAdmitted-wins i n v none l h c = ground arith
IsAdmitted-wins i n v (some w) l h c = ground arith

newest-admitted :
    (i n : ℕ) (vs : List Viewer)
    → is_open (find i vs) ≡ true
    → NoneNewer n vs
    → IsAdmitted i n (newest (admitted i n vs))
unfolding newest admitted
newest-admitted i n [] o a = cc
newest-admitted i n (v ∷ vs) o a = elim (Bool-cases (is_viewer i v)) [
  | inl e ↦ IsAdmitted-wins i n v (newest (admitted i n vs)) a.0 (Older-admitted i n vs a.1) (inl e)
  | inr e ↦
      IsAdmitted-wins i n v (newest (admitted i n vs)) a.0 (Older-admitted i n vs a.1)
        (inr (newest-admitted i n vs (rw e at o) a.1))
]

id_of-admitted : (i n : ℕ) (o : Option Viewer) → IsAdmitted i n o → some i ≡ id_of o
id_of-admitted i n none h = elim h [ ]
id_of-admitted i n (some w) h = ap some (sym h.0)

All-map :
    (n m : ℕ) (vs : List Viewer)
    → n ≤ m
    → All (λ v. v.sequence ≤ n) vs
    → All (λ v. v.sequence ≤ m) vs
All-map n m [] l a = tt
All-map n m (v ∷ vs) l a = (omega arith, All-map n m vs l a.1)

All-admitted :
    (i n : ℕ) (vs : List Viewer)
    → All (λ v. v.sequence ≤ n) vs
    → All (λ v. v.sequence ≤ n + 1) (admitted i (n + 1) vs)
unfolding admitted
All-admitted i n [] a = tt
All-admitted i n (v ∷ vs) a = (ground arith, All-admitted i n vs a.1)

All-lt : (n : ℕ) (vs : List Viewer) → All (λ v. v.sequence ≤ n) vs → NoneNewer (n + 1) vs
All-lt n [] a = tt
All-lt n (v ∷ vs) a = (omega arith, All-lt n vs a.1)

All-append_one :
    (n : ℕ) (vs : List Viewer) (v : Viewer)
    → v.sequence ≤ n
    → All (λ x. x.sequence ≤ n) vs
    → All (λ x. x.sequence ≤ n) (vs ++ v ∷ [])
All-append_one n [] v l a = (l, tt)
All-append_one n (w ∷ vs) v l a = (a.0, All-append_one n vs v l a.1)

length-admitted : (i n : ℕ) (vs : List Viewer) → length (admitted i n vs) ≡ length vs
unfolding admitted
length-admitted i n [] = refl
length-admitted i n (v ∷ vs) = ap suc (length-admitted i n vs)

accept-IsLed : (u : Bool) (s : Control) → IsLed s → IsLed (accept u s)
unfolding accept
accept-IsLed u s h = elim (Bool-cases (s.closed || leb max_peers (length s.peers) || not u)) [
  | inl e ↦ simp e h
  | inr e ↦
      let v : Viewer = record { id = s.next_id; authenticated = false; sequence = 0 } in
      simp e (record {
        bounded = ground (arith, length-append s.peers (v ∷ []));
        numbered = All-append_one s.sequence s.peers v (omega arith) h.numbered;
        leader = h.leader ∙ ap id_of (sym (newest-append s.peers v refl));
      })
]

close_peer-IsLed : (i : ℕ) (s : Control) → IsLed s → IsLed (close_peer i s).0
unfolding close_peer
close_peer-IsLed i s h =
    let remaining = keep_if (λ v. not (is_viewer i v)) s.peers in
    let sub = keep_if-Sub (λ v. not (is_viewer i v)) s.peers in
    elim (Bool-cases (is_open (find i s.peers))) [
      | inr e ↦ simp e h
      | inl e ↦ elim (Bool-cases (is_current i s.current)) [
        | inl c ↦
            simp (e, c)
              (record {
                bounded = omega (arith, length-Sub sub, h.bounded);
                numbered = All-Sub (λ v. v.sequence ≤ s.sequence) sub h.numbered;
                leader = refl;
              })
        | inr c ↦
            simp (e, c)
              (record {
                bounded = omega (arith, length-Sub sub, h.bounded);
                numbered = All-Sub (λ v. v.sequence ≤ s.sequence) sub h.numbered;
                leader =
                    h.leader
                    ∙ ap id_of (
                        sym
                          (newest-keep i s.peers (subst (λ x. is_current i x ≡ false) h.leader c)));
              })
      ]
    ]

authenticate-IsLed :
    (i : ℕ) (message : Fields) (s : Control)
    → is_open (find i s.peers) ≡ true
    → IsLed s
    → IsLed (authenticate i message s).0
unfolding authenticate
authenticate-IsLed i message s o h = elim (Bool-cases (is_authentic message s)) [
  | inr e ↦ simp e (close_peer-IsLed i s h)
  | inl e ↦
      let n = s.sequence + 1 in
      simp e (record {
        bounded = omega (arith, length-admitted i n s.peers, h.bounded);
        numbered = All-admitted i s.sequence s.peers h.numbered;
        leader =
            id_of-admitted i n _
              (newest-admitted i n s.peers o (All-lt s.sequence s.peers h.numbered));
      })
]

close_all-IsLed : (vs : List Viewer) (s : Control) → IsLed s → IsLed (close_all vs s).0
unfolding close_all
close_all-IsLed [] s h = h
close_all-IsLed (v ∷ vs) s h = close_all-IsLed vs (close_peer v.id s).0 (close_peer-IsLed v.id s h)

close-IsLed : (s : Control) → IsLed s → IsLed (close s).0
unfolding close
close-IsLed s h = elim (Bool-cases s.closed) [
  | inl e ↦ simp e h
  | inr e ↦ simp e (
      close_all-IsLed s.peers (record s { closed = true })
        (record { bounded = h.bounded; numbered = h.numbered; leader = h.leader }))
]

step-IsLed : (s : Control) (c : Call) → IsLed s → IsLed (step s c)
unfolding step
step-IsLed s (accepts u) h = accept-IsLed u s h
step-IsLed s (closes i) h = close_peer-IsLed i s h
step-IsLed s shuts h = close-IsLed s h
step-IsLed s (authenticates i message) h =
    elim (Bool-cases (is_open (find i s.peers) && not (was_authenticated (find i s.peers)))) [
      | inl e ↦ simp e (authenticate-IsLed i message s (ground arith) h)
      | inr e ↦ simp e h
    ]

run-IsLed_from : (s : Control) (cs : List Call) → IsLed s → IsLed (run s cs)
unfolding run
run-IsLed_from s [] h = h
run-IsLed_from s (c ∷ cs) h = run-IsLed_from (step s c) cs (step-IsLed s c h)

-- After any connections, authentications and closes: at most eight viewers are open, and the one with
-- input authority is the authenticated viewer of the greatest sequence, or none where no viewer is
-- authenticated.
pub run-IsLed :
    (instance_name token : Text) (cs : List Call) → IsLed (run (new instance_name token) cs)
unfolding new
run-IsLed instance_name token cs =
    run-IsLed_from (new instance_name token) cs
      (record { bounded = omega arith; numbered = tt; leader = unfold newest in refl })

-- The viewer that `newest` finds is authenticated, and no authenticated one has a greater sequence.
pub newest_greatest :
    (vs : List Viewer) {w : Viewer}
    → newest vs ≡ some w
    → All (λ v. v.authenticated ≡ true → v.sequence ≤ w.sequence) vs
newest_greatest vs {w} h = newest-All w.sequence vs (rw h (omega arith))
