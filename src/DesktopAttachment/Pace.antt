-- ===== src/DesktopAttachment/Pace.antt =====
-- The frames that wait for an acknowledgement are few and in order, and the target of input is that of
-- the frame that was acknowledged last.
pub mod Captures
pub mod Run
use floe_native_apps.Prelude.{
  ℕ, ◌+◌, ◌≤◌, ◌<◌, ◌≡◌, refl, sym, ap, subst, ◌∙◌, ◌⊎◌, inl, inr, Bool, true, false, not, ◌&&◌,
  ◌||◌, Option, none, some, List, [], ◌∷◌, ◌++◌, leb, ltb, ◌==◌, if◌then◌else◌, length,
  length-append, All, ==_iff, arith, Bool-cases, Option-cases,
}
use floe_native_apps.DesktopClipboard.{Target}
use floe_native_apps.DesktopAttachment.{
  Mode, Ticket, Frame, Acknowledgement, is_target, Attachment, new, View, Outcome, Event, is_some,
  is_owner, is_target, retire_input, capture_failed, begin, pump_to, pump, damage, after,
  scene_changed, schedule_refinement, Description, is_full, Captured, frame, unchanged, unavailable,
  send_frame, with_capture, captured_for, captured,
}

-- The frame was sent.
abbrev pub Sent : Frame → List Frame → Type 0
Sent f [] = ⊥
Sent f (g ∷ gs) = (f ≡ g) ⊎ Sent f gs

-- The numbers increase, from above lo up to at most hi.
abbrev pub Between : ℕ → ℕ → List (ℕ × Target) → Type 0
Between lo hi [] = lo ≤ hi
Between lo hi ((n, t) ∷ xs) = (lo < n) × Between n hi xs

-- The acknowledgement names a frame that was sent in its connection, of this target, which was then the
-- target of the native desktop.
abbrev pub Names : Acknowledgement → Target → List Frame → Type 0
Names a t sent =
    (n : ℕ) × (a.number ≡ some n) × Sent (n, a.epoch, t) sent × (is_target t a.target ≡ true)

abbrev pub Granted : List Frame → Acknowledgement → Type 0
Granted sent a = (t : Target) × Names a t sent

-- The latest acknowledgement was made in this connection, and names a frame of the target.
abbrev pub Shown : Option Target → ℕ → List Frame → List Acknowledgement → Type 0
Shown none epoch sent ks = Unit
Shown (some t) epoch sent [] = ⊥
Shown (some t) epoch sent (a ∷ ks) = (a.epoch ≡ epoch) × Names a t sent

abbrev pub Queued : ℕ → List Frame → List (ℕ × Target) → Type 0
Queued epoch sent [] = Unit
Queued epoch sent ((n, t) ∷ xs) = Sent (n, epoch, t) sent × Queued epoch sent xs

pub record IsPaced (s : Attachment) : Type 0 where
  pub least : 1 ≤ s.capacity
  pub most : s.capacity ≤ 2
  pub bounded : length s.awaiting ≤ s.capacity
  pub room : is_some s.capture ≡ true → length s.awaiting < s.capacity
  pub idle : s.owner ≡ none → (s.awaiting ≡ []) × (s.ready ≡ none)
  pub order : Between 0 s.frame_sequence s.awaiting
  pub queued : Queued s.epoch s.sent s.awaiting
  pub shown : Shown s.ready s.epoch s.sent s.acknowledged
  pub known : All (Granted s.sent) s.acknowledged

pub Between-le :
    (lo k hi : ℕ) (xs : List (ℕ × Target)) → k ≤ lo → Between lo hi xs → Between k hi xs
Between-le lo k hi [] l h = omega (arith, l, h)
Between-le lo k hi ((n, t) ∷ xs) l h = (omega (arith, l, h.0), h.1)

pub Between-suc : (lo hi : ℕ) (xs : List (ℕ × Target)) → Between lo hi xs → Between lo (hi + 1) xs
Between-suc lo hi [] h = omega (arith, h)
Between-suc lo hi ((n, t) ∷ xs) h = (h.0, Between-suc n hi xs h.1)

pub Between-append :
    (lo hi : ℕ) (t : Target) (xs : List (ℕ × Target))
    → Between lo hi xs
    → Between lo (hi + 1) (xs ++ (hi + 1, t) ∷ [])
Between-append lo hi t [] h = (omega (arith, h), omega arith)
Between-append lo hi t ((n, u) ∷ xs) h = (h.0, Between-append n hi t xs h.1)

Queued-more :
    (e : ℕ) (f : Frame) (fs : List Frame) (xs : List (ℕ × Target))
    → Queued e fs xs
    → Queued e (f ∷ fs) xs
Queued-more e f fs [] h = tt
Queued-more e f fs ((n, t) ∷ xs) h = (inr h.0, Queued-more e f fs xs h.1)

pub Queued-append :
    (e n : ℕ) (t : Target) (fs : List Frame) (xs : List (ℕ × Target))
    → Queued e fs xs
    → Queued e ((n, e, t) ∷ fs) (xs ++ (n, t) ∷ [])
Queued-append e n t fs [] h = (inl refl, tt)
Queued-append e n t fs ((m, u) ∷ xs) h = (inr h.0, Queued-append e n t fs xs h.1)

Names-more :
    (f : Frame) (fs : List Frame) (a : Acknowledgement) (t : Target)
    → Names a t fs
    → Names a t (f ∷ fs)
Names-more f fs a t (n, e, s, i) = (n, e, inr s, i)

pub Shown-more :
    (f : Frame) (fs : List Frame) (t : Option Target) (e : ℕ) (ks : List Acknowledgement)
    → Shown t e fs ks
    → Shown t e (f ∷ fs) ks
Shown-more f fs none e ks h = tt
Shown-more f fs (some t) e [] h = h
Shown-more f fs (some t) e (a ∷ ks) h = (h.0, Names-more f fs a t h.1)

pub known-more :
    (f : Frame) (fs : List Frame) (ks : List Acknowledgement)
    → All (Granted fs) ks
    → All (Granted (f ∷ fs)) ks
known-more f fs [] h = tt
known-more f fs (a ∷ ks) h = ((h.0.0, Names-more f fs a h.0.0 h.0.1), known-more f fs ks h.1)

pub retire-IsPaced : (s : Attachment) → IsPaced s → IsPaced (retire_input s).0
unfolding retire_input
retire-IsPaced s h = record {
  least = h.least;
  most = h.most;
  bounded = omega arith;
  room = λ c. h.least;
  idle = λ e. (refl, refl);
  order = omega arith;
  queued = tt;
  shown = tt;
  known = h.known;
}

-- What the fields that are not read here may become.
pub quiet :
    (s : Attachment) (r : Option (ℕ × Target)) (c l d f : Bool) (n m : ℕ)
    → IsPaced s
    → IsPaced (record s {
      refinement = r;
      cadence = c;
      lossy = l;
      dirty = d;
      failed = f;
      next_ticket = n;
      last_request = m;
    })
quiet s r c l d f n m h = record {
  least = h.least;
  most = h.most;
  bounded = h.bounded;
  room = h.room;
  idle = h.idle;
  order = h.order;
  queued = h.queued;
  shown = h.shown;
  known = h.known;
}

-- The same, with the capture ks it is or ended.
pub uncaptured : (s : Attachment) → IsPaced s → IsPaced (record s { capture = none })
uncaptured s h = record {
  least = h.least;
  most = h.most;
  bounded = h.bounded;
  room = λ c. cc;
  idle = h.idle;
  order = h.order;
  queued = h.queued;
  shown = h.shown;
  known = h.known;
}

begin-IsPaced :
    (v : View) (o : ℕ) (t : Target) (s : Attachment)
    → length s.awaiting < s.capacity
    → IsPaced s
    → IsPaced (begin v o t s).0
unfolding begin capture_failed
begin-IsPaced v o t s l h =
    let u = record s { dirty = false; next_ticket = s.next_ticket + 1 } in
    let k =
      quiet s s.refinement s.cadence s.lossy false s.failed (s.next_ticket + 1) s.last_request h in
    elim (Bool-cases v.starts) [
      | inl e ↦ simp e (record {
        least = k.least;
        most = k.most;
        bounded = k.bounded;
        room = λ c. l;
        idle = k.idle;
        order = k.order;
        queued = k.queued;
        shown = k.shown;
        known = k.known;
      })
      | inr e ↦ simp e (retire-IsPaced u k)
    ]

pump_to-IsPaced :
    (v : View) (o : Option ℕ) (t : Option Target) (s : Attachment)
    → IsPaced s
    → IsPaced (pump_to v o t s).0
unfolding pump_to
pump_to-IsPaced v none t s h = h
pump_to-IsPaced v (some o) none s h = h
pump_to-IsPaced v (some o) (some t) s h =
    elim (Bool-cases (
      not s.dirty
      || is_some s.capture
      || leb s.capacity (length s.awaiting)
      || v.frame_pending
      || s.cadence)) [
        | inl e ↦ simp e h
        | inr e ↦ simp e (begin-IsPaced v o t s (ground (arith, e)) h)
      ]

pub pump-IsPaced : (v : View) (s : Attachment) → IsPaced s → IsPaced (pump v s).0
unfolding pump
pump-IsPaced v s h = pump_to-IsPaced v s.owner v.target s h

pub damage-IsPaced : (v : View) (s : Attachment) → IsPaced s → IsPaced (damage v s).0
unfolding damage
damage-IsPaced v s h =
    pump-IsPaced v _
      (quiet s s.refinement s.cadence s.lossy true s.failed s.next_ticket s.last_request h)

pub schedule-IsPaced :
    (o : ℕ) (t : Target) (b : Bool) (s : Attachment)
    → IsPaced s
    → IsPaced (schedule_refinement o t b s)
unfolding schedule_refinement
schedule-IsPaced o t b s h = elim (Bool-cases (is_some s.refinement && not b)) [
  | inl e ↦ simp e h
  | inr e ↦ simp e (quiet s _ s.cadence s.lossy s.dirty s.failed s.next_ticket s.last_request h)
]
