-- ===== src/DesktopNative/Requests.antt =====
-- The methods of `NativeDesktop` that its viewers and adapters call. `ok` is that the channel takes what
-- is sent; where it does not it closes, which calls `lost`, and `send` raises.
use floe_native_apps.Prelude.{
  ℕ, ◌+◌, max, Bool, true, false, not, ◌&&◌, ◌||◌, Option, none, some, List, [], ◌∷◌, ◌++◌, leb,
  ltb, ◌==◌, if◌then◌else◌, keep_if, get, nat_key,
}
use floe_native_apps.DesktopControl.Reader.{Bytes}
use floe_native_apps.DesktopClipboard.{Target, max_id}
use floe_native_apps.DesktopClipboard as Clip
use floe_native_apps.DesktopCursor as Pointer
use floe_native_apps.DesktopNative.{
  Phase, barrier, text, TextRequest, Waiter, NativeError, capture_unavailable, Command,
  clipboard_sync, client_barrier, text_commit, Message, input, scene_query, connection, release,
  detach, cancel_barrier, display_query, Desktop, Event, sent, capture_started, capture_answered,
  frames_configured, frames_cancelled, notify, cursor_changed, Outcome, lost, is_target,
}
use floe_native_apps.DesktopNative.Records.{is_some, contains, reject, accept}

abbrev lose : Bool → Desktop → Outcome
lose raised s = let (t, events) = lost s in (raised, t, events)

-- `self.send`.
abbrev pub sending : Bool → Message → Desktop → Outcome
sending ok m s = if ok then accept s (sent m ∷ []) else lose true s

unfoldable pub query_display : ℕ → Bool → Desktop → Outcome
query_display callback ok s =
    let t = record s { display_requested = true; display_query = some callback } in
    if s.closed || not s.version || s.display_requested
    then reject s
    else if ok
    then accept t (sent display_query ∷ [])
    else lose false t

unfoldable pub query_scene : ℕ → Bool → Desktop → Outcome
query_scene callback ok s =
    let next = s.query_id + 1 in
    if s.closed || is_some s.query || ltb max_id next
    then reject s
    else sending ok (scene_query next) (record s { query_id = next; query = some callback })

unfoldable pub bind : ℕ → Bool → Desktop → Outcome
bind epoch ok s =
    let t = record s { epoch = epoch; last_epoch = epoch } in
    let (raised, u, events) = sending ok (connection epoch) t in
    if epoch == 0 || ltb max_id epoch || not s.version || leb epoch s.last_epoch
    then reject s
    else if s.closed
    then accept t (frames_configured ∷ [])
    else (raised, u, frames_configured ∷ events)

abbrev pub is_empty : List ℕ → Bool
is_empty [] = true
is_empty (a ∷ rest) = false

abbrev pub or_else : Option ℕ → ℕ → Option ℕ
or_else none a = some a
or_else (some b) a = some b

unfoldable pub register_attachment : ℕ → ℕ → Bool → Desktop → Outcome
unfolding bind
register_attachment a epoch ok s =
    let t = record s {
      attachments = if contains a s.attachments then s.attachments else s.attachments ++ a ∷ [];
      attachment = or_else s.attachment a;
    } in
    if not s.version
    then reject s
    else if is_empty s.attachments
    then bind (max epoch (s.last_epoch + 1)) ok t
    else accept t []

unfoldable pub unbind : ℕ → Bool → Desktop → Outcome
unfolding Pointer.invalidate Clip.invalidate
unbind epoch ok s =
    let t = record s {
      epoch = 0;
      cursor = (Pointer.invalidate s.cursor).0;
      clipboard = Clip.invalidate s.clipboard;
    } in
    if s.closed || not (epoch == s.epoch)
    then accept s (frames_cancelled ∷ [])
    else if ok
    then accept t (sent (detach epoch) ∷ notify cursor_changed s ++ frames_cancelled ∷ [])
    else lose true s

abbrev pub first : List ℕ → Option ℕ
first [] = none
first (a ∷ rest) = some a

abbrev pub is_attachment : ℕ → Option ℕ → Bool
is_attachment a none = false
is_attachment a (some b) = b == a

-- The set of viewers is a list, of which `next(iter(...))` is the first.
unfoldable pub unregister_attachment : ℕ → Bool → Desktop → Outcome
unfolding unbind
unregister_attachment a ok s =
    let remaining = keep_if (λ b. not (b == a)) s.attachments in
    let t = record s {
      attachments = remaining;
      attachment = if is_attachment a s.attachment then first remaining else s.attachment;
      capture_waiters = keep_if (λ w. not (w.attachment == a)) s.capture_waiters;
    } in
    if is_empty remaining && not (s.epoch == 0) then unbind s.epoch ok t else accept t []

unfoldable pub release_epoch : ℕ → Bool → Desktop → Outcome
release_epoch epoch ok s =
    if s.closed || not (epoch == s.epoch) then accept s [] else sending ok (release epoch) s

-- `select` and `close_window`, which differ in what they send.
unfoldable pub window_request : (ℕ → ℕ → Message) → ℕ → Bool → Desktop → Outcome
window_request message window ok s =
    if window == 0
      || ltb max_id window
      || s.closed
      || s.epoch == 0
      || not (is_some (get window s.windows))
    then reject s
    else sending ok (message s.epoch window) s

unfoldable pub submit : ℕ → Target → List Command → Bool → Desktop → Outcome
submit epoch target commands ok s =
    if s.closed || epoch == 0 || not (epoch == s.epoch) || not (is_target target s.target)
    then reject s
    else sending ok (input epoch target commands) s

unfoldable pub sync_clipboard : ℕ → Target → Bool → Desktop → Outcome
unfolding submit
sync_clipboard epoch target ok s = submit epoch target (clipboard_sync ∷ []) ok s

-- What is asked for: a barrier, or a text for a context, encoded, with none where encoding raises.
pub data TextOperation : Type 0 where
  barrier_operation : TextOperation
  commit_operation : ℕ → Option Bytes → TextOperation

abbrev pub phase_of : TextOperation → Phase
phase_of barrier_operation = barrier
phase_of (commit_operation identity encoded) = text

abbrev pub command_of : TextOperation → ℕ → Option Command
command_of barrier_operation n = some (client_barrier n)
command_of (commit_operation identity none) n = none
command_of (commit_operation identity (some encoded)) n = some (text_commit n identity encoded)

-- A call of `submit` that raises leaves no request.
abbrev pub withdrawn : Outcome → Outcome
withdrawn (true, s, events) = (true, record s { text_request = none }, events)
withdrawn (false, s, events) = (false, s, events)

unfoldable pub text_operation_in : Option Command → TextRequest → Bool → Desktop → Outcome
text_operation_in none r ok s = reject s
text_operation_in (some command) r ok s =
    withdrawn (submit r.epoch r.target (command ∷ []) ok (record s { text_request = some r }))

unfoldable pub text_operation : ℕ → Target → TextOperation → ℕ → Bool → Desktop → Outcome
unfolding text_operation_in
text_operation epoch target operation completed ok s =
    let next = s.last_text_request + 1 in
    let r : TextRequest = record {
      sequence = next;
      phase = phase_of operation;
      epoch = epoch;
      target = target;
      completed = completed;
    } in
    if is_some s.text_request || ltb max_id next
    then reject s
    else text_operation_in (command_of operation next) r ok (record s { last_text_request = next })

abbrev is_request : ℕ → Option TextRequest → Bool
is_request n none = false
is_request n (some r) = r.sequence == n

abbrev is_barrier : Option TextRequest → Bool
is_barrier none = false
is_barrier (some r) = elim r.phase [ barrier ↦ true | text ↦ false ]

-- The request is named by its sequence, which no two requests share.
unfoldable pub cancel_text_operation : ℕ → Bool → Desktop → Outcome
cancel_text_operation n ok s =
    let t = record s { text_request = none } in
    if not (is_request n s.text_request)
    then accept s []
    else if not s.closed && is_barrier s.text_request
    then sending ok (cancel_barrier n) t
    else accept t []

abbrev is_waiting : List Waiter → Bool
is_waiting [] = false
is_waiting (w ∷ ws) = true

abbrev unavailable : List Waiter → List Event
unavailable [] = []
unavailable (w ∷ ws) = capture_answered w.completed (some capture_unavailable) ∷ unavailable ws

-- `started` is that the capture of the frames did not raise.
unfoldable pub start_capture : Target → Bool → Desktop → Desktop × List Event
start_capture target started s =
    if s.capture_active || not (is_waiting s.capture_waiters)
    then (s, [])
    else if started
    then (record s { capture_active = true }, capture_started target ∷ [])
    else (record s { capture_active = false; capture_waiters = [] }, unavailable s.capture_waiters)

-- `capture` for a viewer.
unfoldable pub capture : Waiter → Bool → Desktop → Outcome
unfolding start_capture
capture w started s =
    let t = record s { capture_waiters = s.capture_waiters ++ w ∷ [] } in
    let (u, events) = start_capture w.target started t in
    if s.closed || not (is_target w.target s.target)
    then reject s
    else if not s.capture_active && not s.capture_dispatching
    then accept u events
    else accept t []

-- `_capture_completed` up to its loop: the viewers that waited.
unfoldable pub take_waiters : Desktop → List Waiter × Desktop
take_waiters s = (
  s.capture_waiters,
  record s { capture_active = false; capture_waiters = []; capture_dispatching = true },
)

-- A round of its loop, in which a callback may call any method.
unfoldable pub answer_waiter : Waiter → Option NativeError → Desktop → List Event
answer_waiter w error s =
    if contains w.attachment s.attachments then capture_answered w.completed error ∷ [] else []

abbrev pub start_next : List Waiter → Bool → Desktop → Desktop × List Event
start_next [] started s = (s, [])
start_next (w ∷ ws) started s = if s.closed then (s, []) else start_capture w.target started s

-- Its end.
unfoldable pub end_dispatch : Bool → Desktop → Desktop × List Event
end_dispatch started s =
    start_next s.capture_waiters started (record s { capture_dispatching = false })
