-- ===== src/DesktopNative.antt =====
-- desktop_native.py: `NativeDesktop`, the registry of the native scene, with the cursor and the
-- clipboard that it owns. What it sends, reports to viewers and answers to callbacks is a list of
-- events; what these do in return is a later call. A send that fails closes the channel: it is the
-- send and then `lost`.
pub mod Records
pub mod Fields
pub mod Observe
pub mod Requests
pub mod Operations
pub mod Channel
pub mod Steps
pub mod Aim
mod Examples
use floe_native_apps.Prelude.{
  ℕ, ◌+◌, ◌/◌, ◌%◌, max, Bool, true, false, not, ◌&&◌, ◌||◌, Option, none, some, List, [], ◌∷◌,
  ◌++◌, map, ◌==◌, if◌then◌else◌, Dict, get, put, remove, any,
}
use floe_native_apps.Python.Int.{ℤ}
use floe_native_apps.Python.Text.{Text}
use floe_native_apps.Python.Value.{Value}
use floe_native_apps.DesktopClipboard.{Target, Clipboard}
use floe_native_apps.DesktopClipboard as Clip
use floe_native_apps.DesktopCursor.{Cursor}
use floe_native_apps.DesktopCursor as Pointer

pub data Protocol : Type 0 where
  wayland x11 : Protocol

pub record NativeWindow : Type 0 where
  pub window : ℕ
  pub parent : ℕ
  pub protocol : Protocol
  pub pid : ℤ
  pub width : ℕ
  pub height : ℕ
  pub mode : ℕ

pub record NativeFocus : Type 0 where
  pub identity : ℕ
  pub window : ℕ
  pub pid : ℕ
  pub surface : ℕ
  pub available : Bool

pub record NativeTextContext : Type 0 where
  pub identity : ℕ
  pub revision : ℕ
  pub surface : ℕ
  pub enabled : Bool
  pub serial : ℕ

pub data Phase : Type 0 where
  barrier text : Phase

-- The tuple in `text_request`.
pub record TextRequest : Type 0 where
  pub sequence : ℕ
  pub phase : Phase
  pub epoch : ℕ
  pub target : Target
  pub completed : ℕ

-- A viewer, its target and its callback, waiting for a frame.
pub record Waiter : Type 0 where
  pub attachment : ℕ
  pub target : Target
  pub completed : ℕ

pub data NativeError : Type 0 where
  target_unavailable context_unavailable capture_unavailable : NativeError

-- Objects that are compared by identity are numbers; `next_id` is that of the next target.
pub record Desktop : Type 0 where
  pub attachment : Option ℕ
  pub attachments : List ℕ
  pub target : Option Target
  pub capture_waiters : List Waiter
  pub capture_active : Bool
  pub capture_dispatching : Bool
  pub has_contexts : Bool
  pub windows : Dict ℕ NativeWindow
  pub declared : Dict ℕ Text
  pub last_window : ℕ
  pub generation : ℕ
  pub x11_windows : Dict ℕ ℕ
  pub surfaces : List ℕ
  pub last_surface : ℕ
  pub focus : Option NativeFocus
  pub epoch : ℕ
  pub last_epoch : ℕ
  pub query : Option ℕ
  pub query_id : ℕ
  pub display_requested : Bool
  pub display_query : Option ℕ
  pub version : Bool
  pub closed : Bool
  pub text_contexts : Dict ℕ NativeTextContext
  pub last_text_context : ℕ
  pub text_request : Option TextRequest
  pub last_text_request : ℕ
  pub cursor : Cursor
  pub clipboard : Clipboard
  pub next_id : ℕ

-- What the viewers are told.
pub data Notice : Type 0 where
  scene_changed metadata_changed damage cursor_changed : Notice
  clipboard_changed : Target → ℕ → Option Text → Notice

-- The commands of an input message.
pub data Command : Type 0 where
  motion scroll : Value → Value → Command
  key button : ℕ → Bool → Command
  clipboard_sync : Command
  client_barrier : ℕ → Command
  text_commit : ℕ → ℕ → List ℕ → Command

-- What is written to the native channel.
pub data Message : Type 0 where
  input : ℕ → Target → List Command → Message
  cursor_read clipboard_read select close_window : ℕ → ℕ → Message
  scene_query connection release detach cancel_barrier : ℕ → Message
  display_query : Message

pub data Event : Type 0 where
  notified : ℕ → Notice → Event
  sent : Message → Event
  native_changed : Event
  text_answered : ℕ → Option NativeError → Event
  published : ℕ → Option Clip.ClipboardError → Event
  display_answered : ℕ → Option Text → Event
  scene_answered : ℕ → ℕ → ℕ → Event
  capture_started : Target → Event
  capture_answered : ℕ → Option NativeError → Event
  frames_configured frames_cancelled : Event

-- Whether the method raised, the object, and the events.
abbrev pub Outcome : Type 0
Outcome = Bool × Desktop × List Event

unfoldable pub new : Desktop
unfolding Pointer.new Clip.new
new = record {
  attachment = none;
  attachments = [];
  target = none;
  capture_waiters = [];
  capture_active = false;
  capture_dispatching = false;
  has_contexts = false;
  windows = [];
  declared = [];
  last_window = 0;
  generation = 0;
  x11_windows = [];
  surfaces = [];
  last_surface = 0;
  focus = none;
  epoch = 0;
  last_epoch = 0;
  query = none;
  query_id = 0;
  display_requested = false;
  display_query = none;
  version = false;
  closed = false;
  text_contexts = [];
  last_text_context = 0;
  text_request = none;
  last_text_request = 0;
  cursor = Pointer.new;
  clipboard = Clip.new;
  next_id = 0;
}

abbrev recipients : List ℕ → Option ℕ → List ℕ
recipients [] none = []
recipients [] (some a) = a ∷ []
recipients (a ∷ rest) b = a ∷ rest

-- `_notify`.
unfoldable pub notify : Notice → Desktop → List Event
notify n s = map (λ a. notified a n) (recipients s.attachments s.attachment)

unfoldable pub cursor_event : Desktop → Pointer.Event → List Event
unfolding notify
cursor_event s Pointer.changed = notify cursor_changed s
cursor_event s (Pointer.read_sent r o) = sent (cursor_read r o) ∷ []

unfoldable pub clipboard_event : Desktop → Clip.Event → List Event
unfolding notify
clipboard_event s (Clip.completed c e) = published c e ∷ []
clipboard_event s (Clip.changed t n x) = notify (clipboard_changed t n x) s
clipboard_event s (Clip.read_sent r o) = sent (clipboard_read r o) ∷ []

abbrev pub each : {A : Type 0} → (A → List Event) → List A → List Event
each f [] = []
each f (x ∷ xs) = f x ++ each f xs

-- The object after `changed`, which tells the viewers that the cursor and the scene changed.
unfoldable pub changed : Desktop → Desktop × List Event
unfolding Pointer.invalidate Clip.invalidate notify
changed s = (
  record s { cursor = (Pointer.invalidate s.cursor).0; clipboard = Clip.invalidate s.clipboard },
  notify cursor_changed s ++ notify scene_changed s,
)

request_lost : Option TextRequest → List Event
request_lost none = []
request_lost (some r) = text_answered r.completed (some target_unavailable) ∷ []

display_lost : Option ℕ → List Event
display_lost none = []
display_lost (some c) = display_answered c none ∷ []

query_lost : Option ℕ → List Event
query_lost none = []
query_lost (some c) = scene_answered c 0 0 ∷ []

unfoldable pub lost : Desktop → Desktop × List Event
unfolding request_lost display_lost query_lost changed Clip.close Pointer.close cursor_event
    clipboard_event
lost s =
    let (clipboard, ended) = Clip.close s.clipboard in
    let (cursor, cleared) = Pointer.close s.cursor in
    let (t, events) = changed (record s {
      closed = true;
      target = none;
      focus = none;
      epoch = 0;
      text_contexts = [];
      cursor = cursor;
      clipboard = clipboard;
      text_request = none;
      display_query = none;
      query = none;
    }) in
    if s.closed then (s, []) else (
      t,
      each (cursor_event s) cleared
          ++ each (clipboard_event s) ended
          ++ request_lost s.text_request
          ++ display_lost s.display_query
          ++ query_lost s.query
          ++ events,
    )

-- What the clipboard reads of this object, and what the cursor takes for its target.
abbrev pub native_of : Desktop → Clip.Native
native_of s = record { closed = s.closed; epoch = s.epoch; target = s.target }

abbrev pub cursor_target : Desktop → Option Target
cursor_target s = if s.epoch == 0 then none else s.target

-- `mode & 4`.
abbrev pub is_minimized : NativeWindow → Bool
is_minimized w = w.mode / 4 % 2 == 1

abbrev pub is_target : Target → Option Target → Bool
is_target t none = false
is_target t (some u) = u.id == t.id
