-- ===== src/HeldInput/Release.antt =====
-- What is down at the backend is held here, so that `release` lets go of everything.
use floe_native_apps.Prelude.{
  ℕ, ◌≡◌, refl, sym, ◌∙◌, inl, inr, Bool, true, false, ◌&&◌, List, [], ◌∷◌, ◌==◌, if◌then◌else◌,
  arith, Bool-cases, ==_iff, subst, ◌⊎◌, ◌≢◌,
}
use floe_native_apps.HeldInput.{
  Kind, key, button, Backend, Sent, Held, Outcome, returned, raised, keys_held, contains, add,
  discard, held, new, emit, press_in, release_in, set_input, release_all, release, is_empty,
  then_set, paste, Call, sets, releases, pastes, step, run,
}

abbrev same_kind : Kind → Kind → Bool
same_kind key key = true
same_kind button button = true
same_kind _ _ = false

abbrev names : Kind → ℕ → Sent → Bool
names k code e = same_kind e.kind k && e.code == code

-- Whether the last call of the backend for an input put it down.
pub is_down : Kind → ℕ → List Sent → Bool
is_down k code [] = false
is_down k code (e ∷ log) = if names k code e then e.down else is_down k code log

-- What the backend was last told is down, is held.
abbrev pub IsCovered : {W : Type 0} → Held W → Type 0
IsCovered h = (k : Kind) (code : ℕ) → is_down k code h.sent ≡ true → contains code (held k h) ≡ true

contains-add :
    (c d : ℕ) (s : List ℕ) → contains c (add d s) ≡ (if d == c then true else contains c s)
contains-add c d s = elim (Bool-cases (contains d s)) [
  | inl e ↦ rw e (elim (Bool-cases (d == c)) [
    | inl f ↦ rw f (subst (λ x. contains x s ≡ true) ((==_iff d c).0 f) e)
    | inr f ↦ rw f refl
  ])
  | inr e ↦ rw e (ground arith)
]

contains-discard :
    (c d : ℕ) (s : List ℕ) → contains c (discard d s) ≡ (if d == c then false else contains c s)
contains-discard c d [] = ground arith
contains-discard c d (x ∷ s) = ground (arith, contains-discard c d s)

module _ {W : Type 0} (b : Backend W) where
  press_in-IsCovered :
      (k : Kind) (code : ℕ) (h : Held W) → IsCovered h → IsCovered (press_in b k code h).0
  unfolding press_in is_down
  press_in-IsCovered key code h c key code' d =
      ground (arith, contains-add code' code h.keys, c key code')
  press_in-IsCovered key code h c button code' d = c button code' d
  press_in-IsCovered button code h c key code' d = c key code' d
  press_in-IsCovered button code h c button code' d =
      ground (arith, contains-add code' code h.buttons, c button code')

  release_in-IsCovered :
      (k : Kind) (code : ℕ) (h : Held W) → IsCovered h → IsCovered (release_in b k code h).0
  unfolding release_in is_down
  release_in-IsCovered key code h c key code' d =
      ground (arith, contains-discard code' code h.keys, c key code')
  release_in-IsCovered key code h c button code' d = ground (arith, c button code')
  release_in-IsCovered button code h c key code' d = ground (arith, c key code')
  release_in-IsCovered button code h c button code' d =
      ground (arith, contains-discard code' code h.buttons, c button code')

  set_input-IsCovered :
      (k : Kind) (code : ℕ) (down : Bool) (h : Held W)
      → IsCovered h
      → IsCovered (set_input b k code down h).0
  unfolding set_input
  set_input-IsCovered k code true h c = press_in-IsCovered k code h c
  set_input-IsCovered k code false h c = elim (Bool-cases (contains code (held k h))) [
    | inl e ↦ simp e (release_in-IsCovered k code h c)
    | inr e ↦ simp e c
  ]

  -- A round of the loops of `release` puts nothing down.
  release_all-up :
      (k : Kind) (cs : List ℕ) (h : Held W) (k' : Kind) (code : ℕ)
      → is_down k' code (release_all b k cs h).sent
        ≡ (if same_kind k k' && contains code cs then false else is_down k' code h.sent)
  unfolding release_all is_down emit
  release_all-up k [] h k' code = ground arith
  release_all-up k (c ∷ cs) h k' code =
      ground (arith, release_all-up k cs (emit b k c false h).0 k' code)

  release_all-sets :
      (k : Kind) (cs : List ℕ) (h : Held W)
      → ((release_all b k cs h).keys ≡ h.keys) × ((release_all b k cs h).buttons ≡ h.buttons)
  unfolding release_all emit
  release_all-sets k [] h = (refl, refl)
  release_all-sets k (c ∷ cs) h = release_all-sets k cs (emit b k c false h).0

  -- After `release` nothing is held, and the last call of the backend for every input that it was
  -- ever sent let go of it, also where those calls raised.
  release-up :
      (h : Held W)
      → IsCovered h
      → ((release b h).keys ≡ [])
        × ((release b h).buttons ≡ [])
        × ((k : Kind) (code : ℕ) → is_down k code (release b h).sent ≡ false)
  unfolding release
  release-up h c =
      let r : Held W = record h { keys = []; buttons = [] } in
      let m = release_all b key h.keys r in
      let ms = release_all-sets key h.keys r in
      let ns = release_all-sets button h.buttons m in (ns.0 ∙ ms.0, ns.1 ∙ ms.1, up m)
    where
      up :
          (m : Held W)
          → (k : Kind) (code : ℕ)
          → is_down k code
              (release_all b button h.buttons
                (release_all b key h.keys (record h { keys = []; buttons = [] }))).sent
            ≡ false
      up m key code = ground (
        arith,
        release_all-up button h.buttons
            (release_all b key h.keys (record h { keys = []; buttons = [] })) key code,
        release_all-up key h.keys (record h { keys = []; buttons = [] }) key code,
        c key code,
      )
      up m button code = ground (
        arith,
        release_all-up button h.buttons
            (release_all b key h.keys (record h { keys = []; buttons = [] })) button code,
        release_all-up key h.keys (record h { keys = []; buttons = [] }) button code,
        c button code,
      )

  then_set-IsCovered :
      (k : Kind) (code : ℕ) (down : Bool) (x : Held W × Outcome)
      → IsCovered x.0
      → IsCovered (then_set b k code down x).0
  then_set-IsCovered k code down (h, returned) c = set_input-IsCovered k code down h c
  then_set-IsCovered k code down (h, raised) c = c
  then_set-IsCovered k code down (h, keys_held) c = c

  typed : Held W → Held W
  typed h =
      (then_set b key 29 false
        (then_set b key 47 false (then_set b key 47 true (set_input b key 29 true h)))).0

  typed-IsCovered : (h : Held W) → IsCovered h → IsCovered (typed h)
  unfolding typed
  typed-IsCovered h c = then_set-IsCovered key 29 false _ (
      then_set-IsCovered key 47 false _
        (then_set-IsCovered key 47 true _ (set_input-IsCovered key 29 true h c)))

  IsCovered-of_up :
      (h : Held W) → ((k : Kind) (code : ℕ) → is_down k code h.sent ≡ false) → IsCovered h
  IsCovered-of_up h u k code d = ground (arith, u k code)

  paste_cases : (h : Held W) → ((paste b h).0 ≡ h) ⊎ ((paste b h).0 ≡ release b (typed h))
  unfolding paste typed
  paste_cases h = elim (Bool-cases (is_empty b h.keys && is_empty b h.buttons)) [
    | inl e ↦ inr (simp e)
    | inr e ↦ inl (simp e)
  ]

  paste_done : (h : Held W) → (paste b h).1 ≢ keys_held → (paste b h).0 ≡ release b (typed h)
  unfolding paste typed
  paste_done h n = elim (Bool-cases (is_empty b h.keys && is_empty b h.buttons)) [
    | inl e ↦ simp e
    | inr e ↦ absurd (n (simp e))
  ]

  step-IsCovered : (h : Held W) (c : Call) → IsCovered h → IsCovered (step b h c)
  unfolding step
  step-IsCovered h (sets k code down) c = set_input-IsCovered k code down h c
  step-IsCovered h releases c = IsCovered-of_up (release b h) (release-up h c).2
  step-IsCovered h pastes c = elim (paste_cases h) [
    | inl e ↦ subst (λ x. IsCovered x) (sym e) c
    | inr e ↦
        subst (λ x. IsCovered x) (sym e)
          (IsCovered-of_up (release b (typed h)) (release-up (typed h) (typed-IsCovered h c)).2)
  ]

  run-IsCovered : (h : Held W) (cs : List Call) → IsCovered h → IsCovered (run b h cs)
  unfolding run
  run-IsCovered h [] c = c
  run-IsCovered h (x ∷ cs) c = run-IsCovered (step b h x) cs (step-IsCovered h x c)

  new-IsCovered : (w : W) → IsCovered (new w)
  unfolding new is_down
  new-IsCovered w k code d = cc

  -- After any keys, buttons, releases and pastes from a new object, with any backend, `release`
  -- leaves nothing held, and nothing that the backend was told to put down and not to let go.
  pub run-release :
      (w : W) (cs : List Call)
      → ((release b (run b (new w) cs)).keys ≡ [])
        × ((release b (run b (new w) cs)).buttons ≡ [])
        × ((k : Kind) (code : ℕ) → is_down k code (release b (run b (new w) cs)).sent ≡ false)
  run-release w cs = release-up (run b (new w) cs) (run-IsCovered (new w) cs (new-IsCovered w))

  -- A paste that is not refused leaves nothing held or down, whichever of its calls raises.
  pub paste-up :
      (w : W) (cs : List Call)
      → (paste b (run b (new w) cs)).1 ≢ keys_held
      → ((paste b (run b (new w) cs)).0.keys ≡ [])
        × ((paste b (run b (new w) cs)).0.buttons ≡ [])
        × ((k : Kind) (code : ℕ) → is_down k code (paste b (run b (new w) cs)).0.sent ≡ false)
  paste-up w cs n =
      let h = run b (new w) cs in
      let c = typed-IsCovered h (run-IsCovered (new w) cs (new-IsCovered w)) in
      subst
        (λ x.
          (x.keys ≡ [])
          × (x.buttons ≡ [])
          × ((k : Kind) (code : ℕ) → is_down k code x.sent ≡ false))
        (sym (paste_done h n)) (release-up (typed h) c)
