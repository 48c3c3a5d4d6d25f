-- ===== src/DesktopCursor/Complete.antt =====
-- A cursor image is published only when all of its pixels were received.
use floe_native_apps.Prelude.{
  ℕ, zero, suc, ◌-◌, ◌*◌, ◌≤◌, ◌⊎◌, ◌≡◌, refl, sym, ap, subst, Bool, true, false, min, not, ◌&&◌,
  ◌||◌, Option, none, some, List, [], ◌∷◌, ◌++◌, leb, ◌==◌, length, length-append, arith,
  Bool-cases, inl, inr,
}
use floe_native_apps.Python.Text.{Text, codes, text_eq}
use floe_native_apps.Python.Number.{from_hex, is_dash, well_encoded}
use floe_native_apps.DesktopControl.Reader.{Bytes}
use floe_native_apps.DesktopClipboard.{Target}
use floe_native_apps.DesktopCursor.{
  chunk, Library, Image, Mode, hidden, default, image, Description, Ticket, Cursor, Event, changed,
  rgba_png, size_of, is_some, new, pump, pump_in, invalidate, close,
}
use floe_native_apps.DesktopCursor.Records.{
  state_fields, describe, state_in, extend, chunk_in, received, data_in, observe_data, observe,
  proceed, shown, is_request, is_shown, is_target, Call, observes, invalidates, closes, cursor_of,
  step, run,
}

abbrev pub is_image : Mode → Bool
is_image (image i) = true
is_image _ = false

-- What is published is no image, and its description is none of an image, or it is the PNG of all of
-- the pixels of the image that its description gives.
abbrev pub Published : Library → Option (Description × Option Bytes) → Type 0
Published lib none = Unit
Published lib (some (d, none)) = is_image d.mode ≡ false
Published lib (some (d, some png)) =
    (i : Image) × (pixels : Bytes) × (d.mode ≡ image i)
    × (length pixels ≡ size_of i)
    × (png ≡ rgba_png lib i.width i.height pixels)

-- What is being read is an image of the latest revision.
abbrev pub Reads : Option Ticket → ℕ → Type 0
Reads none n = Unit
Reads (some t) n =
    (t.description.mode ≡ image t.image)
    × (t.description.sequence ≡ n)
    × (length t.bytes ≤ size_of t.image)

pub record IsComplete (lib : Library) (s : Cursor) : Type 0 where
  pub published : Published lib s.current
  pub reads : Reads s.pending s.revision

length-from_hex : (n : ℕ) (t : Text) → length t ≡ n * 2 → length (from_hex t) ≡ n
unfolding from_hex
length-from_hex zero [] h = refl
length-from_hex (suc n) [] h = absurd (omega (arith, h))
length-from_hex zero (a ∷ []) h = absurd (omega (arith, h))
length-from_hex (suc n) (a ∷ []) h = absurd (omega (arith, h))
length-from_hex zero (a ∷ b ∷ t) h = absurd (omega (arith, h))
length-from_hex (suc n) (a ∷ b ∷ t) h = omega (arith, length-from_hex n t (omega (arith, h)))

pump_in_cases :
    (x : Option Ticket) (s : Cursor)
    → ((pump_in x s).0 ≡ s) ⊎ ((r : Option (ℕ × ℕ)) × ((pump_in x s).0 ≡ record s { request = r }))
unfolding pump_in
pump_in_cases none s = inl refl
pump_in_cases (some t) s = elim (Bool-cases (not (is_some s.request) && not s.closed)) [
  | inl b ↦ inr (some (t.description.sequence, length t.bytes), simp b)
  | inr b ↦ inl (simp b)
]

module _ (lib : Library) where
  pump-IsComplete : (s : Cursor) → IsComplete lib s → IsComplete lib (pump s).0
  unfolding pump
  pump-IsComplete s h = elim (pump_in_cases s.pending s) [
    | inl e ↦ subst (IsComplete lib) (sym e) h
    | inr (r, e) ↦
        subst (IsComplete lib) (sym e) (record { published = h.published; reads = h.reads })
  ]

  proceed-IsComplete :
      (s : Cursor) (e : List Event) → IsComplete lib s → IsComplete lib (cursor_of (proceed (s, e)))
  proceed-IsComplete s e h =
      pump-IsComplete (record s { request = none })
        (record { published = h.published; reads = h.reads })

  shown-IsComplete :
      (m : Mode) (t : Target) (d : Description) (s : Cursor)
      → d.mode ≡ m
      → d.sequence ≡ s.revision
      → IsComplete lib s
      → IsComplete lib (cursor_of (shown m t d s))
  shown-IsComplete hidden t d s e k h = record { published = ap is_image e; reads = h.reads }
  shown-IsComplete default t d s e k h = record { published = ap is_image e; reads = h.reads }
  shown-IsComplete (image i) t d s e k h =
      pump-IsComplete _ (record { published = h.published; reads = (e, k, omega arith) })

  describe-IsComplete :
      (d : Description) (c : ℕ) (t : Option Target) (n : ℕ) (s : Cursor)
      → d.sequence ≡ s.revision
      → IsComplete lib s
      → IsComplete lib (cursor_of (describe d c t n s))
  unfolding describe
  describe-IsComplete d c none n s k h = record { published = tt; reads = h.reads }
  describe-IsComplete d c (some t) n s k h = elim (Bool-cases (is_shown d c n t)) [
    | inl b ↦ simp b (shown-IsComplete d.mode t d s refl k h)
    | inr b ↦ simp b (record { published = tt; reads = h.reads })
  ]

  state_in-IsComplete :
      (x : Option (Description × ℕ)) (t : Option Target) (n : ℕ) (s : Cursor)
      → IsComplete lib s
      → IsComplete lib (cursor_of (state_in x t n s))
  unfolding state_in
  state_in-IsComplete none t n s h = h
  state_in-IsComplete (some (d, c)) t n s h = elim (Bool-cases (leb d.sequence s.revision)) [
    | inl b ↦ simp b h
    | inr b ↦ simp b (
        describe-IsComplete d c t n (record s { revision = d.sequence; pending = none }) refl
          (record { published = h.published; reads = tt }))
  ]

  extend-IsComplete :
      (t : Ticket) (encoded : Text) (s : Cursor)
      → s.pending ≡ some t
      → length encoded ≡ min chunk (size_of t.image - length t.bytes) * 2
      → IsComplete lib s
      → IsComplete lib (extend lib t encoded s).0
  unfolding extend
  extend-IsComplete t encoded s e l h =
      let bytes = t.bytes ++ from_hex encoded in
      let r = subst (λ x. Reads x s.revision) e h.reads in
      let n = length-from_hex (min chunk (size_of t.image - length t.bytes)) encoded l in
      let fits : length bytes ≤ size_of t.image =
        omega (arith, length-append t.bytes (from_hex encoded), n, r.2) in
      elim (Bool-cases (length bytes == size_of t.image)) [
        | inl b ↦
            simp b (record { published = (t.image, bytes, r.0, ground arith, refl); reads = tt })
        | inr b ↦ simp b (record { published = h.published; reads = (r.0, r.1, fits) })
      ]

  chunk_in-IsComplete :
      (t : Ticket) (o : ℕ) (encoded : Text) (g : Option Target) (s : Cursor)
      → s.pending ≡ some t
      → IsComplete lib s
      → IsComplete lib (cursor_of (chunk_in lib t o encoded g s))
  unfolding chunk_in
  chunk_in-IsComplete t o encoded g s e h =
      elim (Bool-cases (not (is_target t.target g) || is_dash encoded)) [
        | inl b ↦ simp b (
            proceed-IsComplete (record s { pending = none; current = none }) (changed ∷ [])
              (record { published = tt; reads = tt }))
        | inr b ↦
            elim (Bool-cases (
              not (o == length t.bytes)
              || not (length encoded == min chunk (size_of t.image - length t.bytes) * 2))) [
                | inl c ↦ simp (b, c) h
                | inr c ↦
                    let x = extend lib t encoded s in
                    simp (b, c)
                      (proceed-IsComplete x.0 x.1
                        (extend-IsComplete t encoded s e (ground arith) h))
              ]
      ]

  received-IsComplete :
      (x : Option Ticket) (r o : ℕ) (encoded : Text) (g : Option Target) (s : Cursor)
      → s.pending ≡ x
      → IsComplete lib s
      → IsComplete lib (cursor_of (received lib x r o encoded g s))
  unfolding received
  received-IsComplete none r o encoded g s e h = proceed-IsComplete s [] h
  received-IsComplete (some t) r o encoded g s e h =
      elim (Bool-cases (t.description.sequence == r)) [
        | inl b ↦ simp b (chunk_in-IsComplete t o encoded g s e h)
        | inr b ↦ simp b (proceed-IsComplete s [] h)
      ]

  data_in-IsComplete :
      (r o : Option ℕ) (encoded : Text) (g : Option Target) (s : Cursor)
      → IsComplete lib s
      → IsComplete lib (cursor_of (data_in lib r o encoded g s))
  unfolding data_in
  data_in-IsComplete none o encoded g s h = h
  data_in-IsComplete (some r) none encoded g s h = h
  data_in-IsComplete (some r) (some o) encoded g s h =
      elim (Bool-cases (not (is_request r o s.request) || not (well_encoded encoded))) [
        | inl b ↦ simp b h
        | inr b ↦ simp b (received-IsComplete s.pending r o encoded g s refl h)
      ]

  observe_data-IsComplete :
      (fields : List Text) (g : Option Target) (s : Cursor)
      → IsComplete lib s
      → IsComplete lib (cursor_of (observe_data lib fields g s))
  unfolding observe_data
  observe_data-IsComplete [] g s h = h
  observe_data-IsComplete (a ∷ []) g s h = h
  observe_data-IsComplete (a ∷ b ∷ []) g s h = h
  observe_data-IsComplete (a ∷ b ∷ c ∷ []) g s h = data_in-IsComplete _ _ c g s h
  observe_data-IsComplete (a ∷ b ∷ c ∷ d ∷ ds) g s h = h

  pub observe-IsComplete :
      (fields : List Text) (g : Option Target) (n : ℕ) (s : Cursor)
      → IsComplete lib s
      → IsComplete lib (cursor_of (observe lib fields g n s))
  unfolding observe
  observe-IsComplete [] g n s h = h
  observe-IsComplete (k ∷ fields) g n s h = elim (Bool-cases s.closed) [
    | inl a ↦ simp a h
    | inr a ↦ elim (Bool-cases (text_eq k (codes "cursor-state"))) [
      | inl b ↦ simp (a, b) (state_in-IsComplete (state_fields lib fields) g n s h)
      | inr b ↦ elim (Bool-cases (text_eq k (codes "cursor-data"))) [
        | inl c ↦ simp (a, b, c) (observe_data-IsComplete fields g s h)
        | inr c ↦ simp (a, b, c) h
      ]
    ]
  ]

  step-IsComplete : (s : Cursor) (c : Call) → IsComplete lib s → IsComplete lib (step lib s c)
  unfolding step invalidate close
  step-IsComplete s (observes fields g n) h = observe-IsComplete fields g n s h
  step-IsComplete s invalidates h = record { published = tt; reads = tt }
  step-IsComplete s closes h = record { published = tt; reads = tt }

  run-IsComplete_from :
      (s : Cursor) (cs : List Call) → IsComplete lib s → IsComplete lib (run lib s cs)
  unfolding run
  run-IsComplete_from s [] h = h
  run-IsComplete_from s (c ∷ cs) h = run-IsComplete_from (step lib s c) cs (step-IsComplete s c h)

  -- After any records and calls, on whatever scenes, what a new cursor publishes for the description of
  -- an image is the PNG of exactly width * height * 4 bytes, and nothing goes with any other description;
  -- what is being read belongs to the latest revision and is no longer than that.
  pub run-IsComplete : (cs : List Call) → IsComplete lib (run lib new cs)
  unfolding new
  run-IsComplete cs = run-IsComplete_from new cs (record { published = tt; reads = tt })
