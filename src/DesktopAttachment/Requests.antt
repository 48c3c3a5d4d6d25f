-- ===== src/DesktopAttachment/Requests.antt =====
-- The requests of an owner, its coming and going, and the timers, as calls of the object. When another
-- viewer takes over control, `takeover` of desktop_helper.py calls `retire_input` (`taken_over`).
use floe_native_apps.Prelude.{
  ℕ, ◌+◌, Bool, true, false, not, ◌&&◌, Option, none, some, List, [], ◌∷◌, ◌++◌, leb, ◌==◌,
  if◌then◌else◌,
}
use floe_native_apps.DesktopClipboard.{Target}
use floe_native_apps.DesktopAttachment.{
  Mode, auto, clarity, smooth, data_saving, Attachment, View, painted, requested, streams,
  sequence_invalid, request_invalid, frame_target_unavailable, input_not_authorized,
  method_unsupported, application_unavailable, window_unavailable, status, terminated,
  window_selected, window_closed, close_enqueued, attached, registered, unregistered, order_closed,
  refined, input_cancelled, clipboard_synced, stream_configured, replied, refused, Outcome,
  is_owner, is_target, is_some, retire_input, pump, damage, after, scene_changed, Captured,
  captured,
}

-- `detach` of the owner. The capture that runs is kept.
unfoldable pub detach : ℕ → Attachment → Outcome
detach o s = if not (is_owner o s.owner) then (s, []) else (
  record s { owner = none; ready = none; awaiting = []; refinement = none; cadence = false },
  input_cancelled ∷ unregistered ∷ [],
)

unfoldable pub leave : Option ℕ → Attachment → Outcome
leave none s = (s, [])
leave (some o) s = detach o s

-- `attach`, for the native desktop that registers its viewers.
unfoldable pub attach : View → ℕ → Attachment → Outcome
unfolding leave
attach v o s = after (leave s.owner s) (λ t.
    after
      (
        record t {
          owner = some o;
          last_request = 0;
          mode = none;
          capacity = 1;
          lossy = false;
          epoch = t.epoch + 1;
          failed = false;
        },
        if v.registers then registered ∷ attached (t.epoch + 1) ∷ [] else [],
      )
      (λ u. if v.registers then damage v u else (u, [])))

abbrev pub is_frame : Option ℕ → ℕ → Bool
is_frame none n = false
is_frame (some m) n = m == n

-- Whether this acknowledges the first frame that waits, for the target of now.
unfoldable pub acknowledges : Option ℕ → Option Target → List (ℕ × Target) → Bool
acknowledges frame target [] = false
acknowledges frame target ((n, t) ∷ rest) = is_frame frame n && is_target t target

unfoldable pub acknowledge_first :
    View → Option ℕ → ℕ → ℕ → List (ℕ × Target) → Attachment → Outcome
acknowledge_first v frame o request [] s = (s, [])
acknowledge_first v frame o request ((n, t) ∷ rest) s =
    after
      (
        record s {
          ready = some t;
          awaiting = rest;
          acknowledged =
              record { number = frame; epoch = s.epoch; target = v.target } ∷ s.acknowledged;
        },
        replied o request painted ∷ (if is_target t s.ready then [] else clipboard_synced t ∷ []),
      )
      (λ u. pump v u)

-- `frame_ack`; the frame is none where the message has no integer.
unfoldable pub frame_ack : View → ℕ → ℕ → Option ℕ → Attachment → Outcome
unfolding acknowledges acknowledge_first
frame_ack v o request frame s =
    if acknowledges frame v.target s.awaiting
    then acknowledge_first v frame o request s.awaiting s
    else (s, refused o request frame_target_unavailable ∷ [])

abbrev pub same_mode : Mode → Option Mode → Bool
same_mode auto (some auto) = true
same_mode clarity (some clarity) = true
same_mode smooth (some smooth) = true
same_mode data_saving (some data_saving) = true
same_mode _ _ = false

-- The mode is none where the message has another.
unfoldable pub configure_stream : View → ℕ → ℕ → Option Mode → Attachment → Outcome
configure_stream v o request none s = (s, refused o request request_invalid ∷ [])
configure_stream v o request (some m) s =
    if same_mode m s.mode
    then (s, replied o request (streams s.mode) ∷ [])
    else after
        (after (record s { cadence = false; mode = some m; capacity = 2 }, stream_configured m ∷ [])
          (λ t. damage v t))
        (λ t. (t, replied o request (streams (some m)) ∷ []))

unfoldable pub refresh : View → ℕ → ℕ → Attachment → Outcome
refresh v o request s =
    after (after (s, if is_some s.mode then refined ∷ [] else []) (λ t. damage v t))
      (λ t. (t, replied o request requested ∷ []))

-- `authorized`, and `controllable`, for the owner of the object.
abbrev pub is_authorized : View → ℕ → Attachment → Bool
is_authorized v o s = is_owner o s.owner && v.controls

abbrev pub is_controllable : View → ℕ → Attachment → Bool
is_controllable v o s = is_owner o s.owner && not s.failed && v.controls

-- `terminate_application`; `is_plain` is that the message has no other field.
unfoldable pub terminate : View → ℕ → ℕ → Bool → Attachment → Outcome
terminate v o request is_plain s =
    if not is_plain
    then (s, refused o request request_invalid ∷ [])
    else if not (is_controllable v o s)
    then (s, refused o request input_not_authorized ∷ [])
    else if not v.can_terminate
    then (s, refused o request method_unsupported ∷ [])
    else after (retire_input s) (λ t. (
      t,
      if v.obeys
          then terminated ∷ replied o request requested ∷ []
          else refused o request application_unavailable ∷ [],
    ))

-- `select_window`; the window is none where the message has no number of one.
unfoldable pub select_window : View → ℕ → ℕ → Option ℕ → Attachment → Outcome
select_window v o request none s = (s, refused o request window_unavailable ∷ [])
select_window v o request (some w) s =
    if not (is_authorized v o s)
    then (s, refused o request input_not_authorized ∷ [])
    else after (retire_input s) (λ t. (
      t,
      if v.obeys
          then window_selected w ∷ replied o request requested ∷ []
          else refused o request window_unavailable ∷ [],
    ))

-- `close_window`, which waits in the scheduler unless the input of this attachment has failed.
unfoldable pub close_window : View → ℕ → ℕ → Option ℕ → Attachment → Outcome
close_window v o request none s = (s, refused o request window_unavailable ∷ [])
close_window v o request (some w) s =
    if not (is_authorized v o s)
    then (s, refused o request input_not_authorized ∷ [])
    else if not s.failed
    then (s, close_enqueued request w ∷ [])
    else if v.obeys
    then (s, window_closed w ∷ replied o request requested ∷ [])
    else (s, refused o request window_unavailable ∷ [])

pub data Method : Type 0 where
  asks_status : Method
  terminates : Bool → Method
  selects closes_window : Option ℕ → Method
  acknowledges_frame : Option ℕ → Method
  configures : Option Mode → Method
  refreshes : Method

unfoldable pub by_method : View → ℕ → ℕ → Method → Attachment → Outcome
unfolding frame_ack configure_stream refresh terminate select_window close_window
by_method v o request asks_status s = (s, replied o request status ∷ [])
by_method v o request (terminates is_plain) s = terminate v o request is_plain s
by_method v o request (selects w) s = select_window v o request w s
by_method v o request (closes_window w) s = close_window v o request w s
by_method v o request (acknowledges_frame frame) s = frame_ack v o request frame s
by_method v o request (configures m) s = configure_stream v o request m s
by_method v o request refreshes s = refresh v o request s

-- `request`, for every method but `input` and `release_input`.
unfoldable pub request : View → ℕ → ℕ → Method → Attachment → Outcome
unfolding by_method
request v o n method s =
    if not (is_owner o s.owner)
    then (s, [])
    else if leb n s.last_request
    then (s, refused o n sequence_invalid ∷ [])
    else by_method v o n method (record s { last_request = n })

-- `input_result` with an error, which ends the input of this attachment.
unfoldable pub input_failed : ℕ → Attachment → Outcome
input_failed o s =
    if not (is_owner o s.owner) then (s, []) else retire_input (record s { failed = true })

-- The timer of `schedule_refinement`.
unfoldable pub refine_for : View → Option (ℕ × Target) → Attachment → Outcome
refine_for v none s = (s, [])
refine_for v (some (o, t)) s =
    let u = record s { refinement = none } in
    if is_owner o s.owner && is_target t v.target
    then after (record u { dirty = true }, refined ∷ []) (λ w. pump v w)
    else (u, [])

unfoldable pub refinement_runs : View → Attachment → Outcome
unfolding refine_for
refinement_runs v s = refine_for v s.refinement s

-- The timer `next_frame`.
unfoldable pub cadence_runs : View → Attachment → Outcome
cadence_runs v s = if s.cadence then pump v (record s { cadence = false }) else (s, [])

unfoldable pub writable : View → ℕ → Attachment → Outcome
writable v o s = if is_owner o s.owner then pump v s else (s, [])

unfoldable pub close : Attachment → Outcome
close s =
    let (t, events) = leave s.owner (record s { refinement = none; cadence = false }) in
    (record t { capture = none }, events ++ order_closed ∷ [])

pub data Call : Type 0 where
  attaches detaches input_fails : ℕ → Call
  requests : ℕ → ℕ → Method → Call
  scene_changes damages refinement_fires cadence_fires closes taken_over : Call
  becomes_writable : ℕ → Call
  completes : Captured → ℕ → Call

unfoldable pub step : View → Attachment → Call → Outcome
step v s (attaches o) = attach v o s
step v s (detaches o) = detach o s
step v s (input_fails o) = input_failed o s
step v s (requests o n method) = request v o n method s
step v s scene_changes = scene_changed v s
step v s damages = damage v s
step v s refinement_fires = refinement_runs v s
step v s cadence_fires = cadence_runs v s
step v s closes = close s
step v s taken_over = retire_input s
step v s (becomes_writable o) = writable v o s
step v s (completes c serial) = captured v c serial s

unfoldable pub run : Attachment → List (View × Call) → Attachment
run s [] = s
run s ((v, c) ∷ cs) = run (step v s c).0 cs
