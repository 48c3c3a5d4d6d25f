-- ===== src/DesktopAttachment.antt =====
-- desktop_attachment.py: the frames of `DesktopAttachment`, from their capture to the acknowledgement
-- that gives input its target. What the native desktop and the owner answer during a call is its
-- argument `View`; what the object asks of them, of the scheduler and of the timers is a list of
-- events. A timer that was removed does not run.
pub mod Requests
pub mod Pace
mod Examples
use floe_native_apps.Prelude.{
  ℕ, ◌+◌, Bool, true, false, not, ◌&&◌, ◌||◌, Option, none, some, List, [], ◌∷◌, ◌++◌, leb, ltb,
  ◌==◌, if◌then◌else◌, length,
}
use floe_native_apps.DesktopClipboard.{Target}

pub data Mode : Type 0 where
  auto clarity smooth data_saving : Mode

-- The tuple of a capture, which `serial` tells from another.
pub record Ticket : Type 0 where
  pub serial : ℕ
  pub owner : ℕ
  pub target : Target

-- A frame that was sent: its number, its connection and its target.
abbrev pub Frame : Type 0
Frame = ℕ × ℕ × Target

-- A request that was granted: the frame that it names, its connection, and the target of the native
-- desktop at that time.
pub record Acknowledgement : Type 0 where
  pub number : Option ℕ
  pub epoch : ℕ
  pub target : Option Target

-- Owners and targets are compared by identity. `refinement` and `cadence` are the timers that run, with
-- what the closure of the first one holds. `sent` and `acknowledged` are no fields of the program: the
-- frames that an owner took, and the acknowledgements that were granted, the latest first.
pub record Attachment : Type 0 where
  pub owner : Option ℕ
  pub epoch : ℕ
  pub last_request : ℕ
  pub ready : Option Target
  pub capture : Option Ticket
  pub awaiting : List (ℕ × Target)
  pub mode : Option Mode
  pub capacity : ℕ
  pub refinement : Option (ℕ × Target)
  pub cadence : Bool
  pub lossy : Bool
  pub frame_sequence : ℕ
  pub dirty : Bool
  pub failed : Bool
  pub next_ticket : ℕ
  pub sent : List Frame
  pub acknowledged : List Acknowledgement

unfoldable pub new : Attachment
new = record {
  owner = none;
  epoch = 0;
  last_request = 0;
  ready = none;
  capture = none;
  awaiting = [];
  mode = none;
  capacity = 1;
  refinement = none;
  cadence = false;
  lossy = false;
  frame_sequence = 0;
  dirty = false;
  failed = false;
  next_ticket = 0;
  sent = [];
  acknowledged = [];
}

-- `native.target`, `owner.frame_pending`, what `owner.send_frame` returns, and whether `native.capture`
-- starts: where it does not, it raises or completes with an error at once. `registers` is that
-- `native.register_attachment` does not raise; `controls` is that `can_control` is none or holds, `can_terminate` that
-- `terminate_application` is given, and `obeys` that this, or the native call of a request on a window,
-- does not raise. The other calls of the native desktop are taken not to.
pub record View : Type 0 where
  pub target : Option Target
  pub frame_pending : Bool
  pub takes_frame : Bool
  pub starts : Bool
  pub registers : Bool
  pub controls : Bool
  pub can_terminate : Bool
  pub obeys : Bool

pub data Reply : Type 0 where
  painted requested status : Reply
  streams : Option Mode → Reply

pub data RequestError : Type 0 where
  sequence_invalid request_invalid frame_target_unavailable input_not_authorized method_unsupported
        application_unavailable window_unavailable :
      RequestError

pub data Event : Type 0 where
  attached state_sent capture_unavailable : ℕ → Event
  frame_sent : ℕ → ℕ → ℕ → Target → Event
  capture_asked : Ticket → Event
  refined input_cancelled registered unregistered order_closed terminated : Event
  window_selected window_closed : ℕ → Event
  close_enqueued : ℕ → ℕ → Event
  clipboard_synced : Target → Event
  stream_configured : Mode → Event
  replied : ℕ → ℕ → Reply → Event
  refused : ℕ → ℕ → RequestError → Event

abbrev pub Outcome : Type 0
Outcome = Attachment × List Event

abbrev pub is_some {ℓ} : {A : Type ℓ} → Option A → Bool
is_some none = false
is_some (some a) = true

abbrev pub is_owner : ℕ → Option ℕ → Bool
is_owner o none = false
is_owner o (some p) = p == o

abbrev pub is_target : Target → Option Target → Bool
is_target t none = false
is_target t (some u) = u.id == t.id

-- `cancel_input`: the scheduler forgets this owner's input.
abbrev cancel_input : Attachment → List Event
cancel_input s = if is_some s.owner then input_cancelled ∷ [] else []

-- `retire_input`.
unfoldable pub retire_input : Attachment → Outcome
retire_input s =
    (record s { ready = none; awaiting = []; refinement = none; cadence = false }, cancel_input s)

abbrev refine_if : Option Mode → List Event
refine_if none = []
refine_if (some m) = refined ∷ []

-- `captured` with an error, for a ticket whose owner and target are current.
unfoldable pub capture_failed : ℕ → Attachment → Outcome
unfolding retire_input
capture_failed owner s =
    let (t, events) = retire_input s in
    (t, events ++ refine_if s.mode ++ capture_unavailable owner ∷ [])

-- `pump` past its tests.
pub begin : View → ℕ → Target → Attachment → Outcome
unfolding capture_failed
begin v o t s =
    let ticket : Ticket = record { serial = s.next_ticket; owner = o; target = t } in
    let u = record s { dirty = false; next_ticket = s.next_ticket + 1 } in
    let (w, events) = capture_failed o u in
    if v.starts
    then (record u { capture = some ticket }, capture_asked ticket ∷ [])
    else (w, events)

pub pump_to : View → Option ℕ → Option Target → Attachment → Outcome
unfolding begin
pump_to v (some o) (some t) s =
    if not s.dirty
      || is_some s.capture
      || leb s.capacity (length s.awaiting)
      || v.frame_pending
      || s.cadence
    then (s, [])
    else begin v o t s
pump_to v _ _ s = (s, [])

unfoldable pub pump : View → Attachment → Outcome
unfolding pump_to
pump v s = pump_to v s.owner v.target s

unfoldable pub damage : View → Attachment → Outcome
damage v s = pump v (record s { dirty = true })

abbrev pub after : Outcome → (Attachment → Outcome) → Outcome
after (s, events) f = let (t, more) = f s in (t, events ++ more)

-- The state event of `metadata_changed`.
abbrev metadata_changed : Attachment → List Event
metadata_changed s = if is_some s.owner then state_sent s.epoch ∷ [] else []

unfoldable pub scene_changed : View → Attachment → Outcome
scene_changed v s = after (retire_input s) (λ t. after (t, metadata_changed t) (λ u. damage v u))

-- `schedule_refinement`.
unfoldable pub schedule_refinement : ℕ → Target → Bool → Attachment → Attachment
schedule_refinement o t changed s =
    if is_some s.refinement && not changed
    then s
    else record s { refinement = if s.lossy then some (o, t) else none }

-- The description of a frame; a field that may be left out is an option.
pub record Description : Type 0 where
  pub width : ℕ
  pub height : ℕ
  pub x : Option ℕ
  pub y : Option ℕ
  pub region_width : Option ℕ
  pub region_height : Option ℕ
  pub is_jpeg : Bool

abbrev get_or : Option ℕ → ℕ → ℕ
get_or none d = d
get_or (some n) d = n

abbrev pub is_full : Description → Bool
is_full d =
    get_or d.x 0 == 0
    && get_or d.y 0 == 0
    && get_or d.region_width d.width == d.width
    && get_or d.region_height d.height == d.height

abbrev is_data : Option Mode → Bool
is_data (some data_saving) = true
is_data _ = false

-- What a capture gives: a frame, none where the pixels are as before, or an error.
pub data Captured : Type 0 where
  frame : Description → Captured
  unchanged unavailable : Captured

-- `captured` with a frame, for a ticket whose owner and target are current.
unfoldable pub send_frame : View → Description → ℕ → Target → Attachment → Outcome
unfolding schedule_refinement
send_frame v d o t s =
    let n = s.frame_sequence + 1 in
    let base = if is_full d then 0 else s.frame_sequence in
    let u = schedule_refinement o t true (record s {
      frame_sequence = n;
      awaiting = s.awaiting ++ (n, t) ∷ [];
      lossy = if d.is_jpeg then true else if is_full d then false else s.lossy;
      sent = (n, s.epoch, t) ∷ s.sent;
    }) in
    if v.takes_frame
    then after
        (record u { cadence = is_data s.mode || u.cadence }, frame_sent n base s.epoch t ∷ [])
        (λ w. pump v w)
    else (record s { frame_sequence = n; dirty = true }, refine_if s.mode)

pub with_capture : View → Captured → ℕ → Target → Attachment → Outcome
unfolding send_frame schedule_refinement
with_capture v (frame d) o t s = send_frame v d o t s
with_capture v unchanged o t s = pump v (schedule_refinement o t false s)
with_capture v unavailable o t s = capture_failed o s

pub captured_for : View → Captured → ℕ → Option Ticket → Attachment → Outcome
unfolding with_capture
captured_for v c serial none s = (s, [])
captured_for v c serial (some k) s =
    let t = record s { capture = none } in
    if not (k.serial == serial)
    then (s, [])
    else if not (is_owner k.owner s.owner) || not (is_target k.target v.target)
    then after (t, refine_if s.mode) (λ u. damage v u)
    else with_capture v c k.owner k.target t

-- The completion of the capture of the ticket `serial`.
unfoldable pub captured : View → Captured → ℕ → Attachment → Outcome
unfolding captured_for
captured v c serial s = captured_for v c serial s.capture s
