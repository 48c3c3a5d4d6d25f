-- ===== src/DesktopClipboard.antt =====
-- desktop_clipboard.py: `NativeClipboard`, the text selections of the native channel. The channel is
-- outside: a method is given what `self.native` holds when it is called. Calls of the channel and of
-- callbacks are events. A channel that closes while a record is observed, when `pump` fails to send, is
-- a `closes` after the record. `number` is Python's int on a text, and `decode` the UTF-8 decoder: each is none
-- where it raises.
pub mod Observe
pub mod Settled
mod Examples
use floe_native_apps.Prelude.{
  ℕ, ◌+◌, ◌-◌, ◌*◌, ◌%◌, min, ◌≡◌, Bool, true, false, not, ◌&&◌, ◌||◌, Option, none, some, List, [],
  ◌∷◌, ◌++◌, leb, ltb, ◌==◌, if◌then◌else◌, length, all, any,
}
use floe_native_apps.Python.Int.{ℤ, pos, negsuc}
use floe_native_apps.Python.Text.{Text, codes, text_eq, encode, has_nul}
use floe_native_apps.Python.Value.{Value, text}

abbrev pub limit : ℕ
limit = 16000

abbrev pub chunk : ℕ
chunk = 1024

abbrev pub max_id : ℕ
max_id = 9007199254740991

-- `id` is the identity of the object.
pub record Target : Type 0 where
  pub id : ℕ
  pub window : ℕ
  pub generation : ℕ

-- What `self.native` holds.
pub record Native : Type 0 where
  pub closed : Bool
  pub epoch : ℕ
  pub target : Option Target

pub record ClipboardTarget : Type 0 where
  pub id : ℕ
  pub epoch : ℕ
  pub target : Target

pub record Pending : Type 0 where
  pub sequence : ℕ
  pub token : ClipboardTarget
  pub completed : ℕ

pub record Reading : Type 0 where
  pub revision : ℕ
  pub token : ClipboardTarget
  pub size : ℕ
  pub bytes : List ℕ

pub record Clipboard : Type 0 where
  pub sequence : ℕ
  pub revision : ℕ
  pub pending : Option Pending
  pub reading : Option Reading
  pub request : Option (ℕ × ℕ)
  pub closed : Bool

pub data ClipboardError : Type 0 where
  target_unavailable text_invalid unavailable : ClipboardError

pub data Event : Type 0 where
  completed : ℕ → Option ClipboardError → Event
  changed : Target → ℕ → Option Text → Event
  read_sent : ℕ → ℕ → Event

-- Whether the method raised, the object, and the events.
abbrev pub Outcome : Type 0
Outcome = Bool × Clipboard × List Event

unfoldable pub new : Clipboard
new = record {
  sequence = 0;
  revision = 0;
  pending = none;
  reading = none;
  request = none;
  closed = false;
}

abbrev pub is_target : Target → Option Target → Bool
is_target t none = false
is_target t (some u) = u.id == t.id

-- `id` is that of the new object.
unfoldable pub token : ℕ → Target → Native → Clipboard → Option ClipboardTarget
token id target n s =
    if not s.closed && not n.closed && not (n.epoch == 0) && is_target target n.target
    then some (record { id = id; epoch = n.epoch; target = target })
    else none

unfoldable pub valid : ClipboardTarget → Native → Clipboard → Bool
valid t n s = not s.closed && not n.closed && is_target t.target n.target && n.epoch == t.epoch

abbrev is_some {ℓ} : {A : Type ℓ} → Option A → Bool
is_some none = false
is_some (some a) = true

-- The bytes of a text that may be published.
abbrev publishable : Value → Option (List ℕ)
publishable (text t) = if has_nul t then none else encode t
publishable _ = none

abbrev fits : Option (List ℕ) → Bool
fits none = false
fits (some bytes) = leb (length bytes) limit

-- What `submit` does: it returns, it raises, or it fails to send, which closes the channel, and with it
-- this object, before it raises.
pub data Submission : Type 0 where
  submitted refused lost : Submission

close_in : Option Pending → Clipboard → Clipboard × List Event
close_in none s = (record s { closed = true; reading = none; request = none; pending = none }, [])
close_in (some p) s = (
  record s { closed = true; reading = none; request = none; pending = none },
  completed p.completed (some unavailable) ∷ [],
)

unfoldable pub close : Clipboard → Clipboard × List Event
unfolding close_in
close s = close_in s.pending s

-- `commit` after `submit`; the object holds the publication.
pub conclude : Submission → ℕ → Clipboard → Outcome
unfolding close
conclude submitted callback s = (false, s, [])
conclude refused callback s =
    (false, record s { pending = none }, completed callback (some unavailable) ∷ [])
conclude lost callback s =
    let (t, events) = close s in
    (false, record t { pending = none }, events ++ completed callback (some unavailable) ∷ [])

unfoldable pub commit : ClipboardTarget → Value → ℕ → Submission → Native → Clipboard → Outcome
unfolding conclude
commit t value callback answer n s =
    let next = s.sequence + 1 in
    let p : Pending = record { sequence = next; token = t; completed = callback } in
    if is_some s.pending || not (valid t n s)
    then (false, s, completed callback (some target_unavailable) ∷ [])
    else if not (fits (publishable value))
    then (false, s, completed callback (some text_invalid) ∷ [])
    else if ltb max_id next
    then (true, s, [])
    else conclude answer callback (record s { sequence = next; pending = some p })

abbrev token_is : ClipboardTarget → Option Pending → Bool
token_is t none = false
token_is t (some p) = p.token.id == t.id

unfoldable pub cancel : ClipboardTarget → Clipboard → Clipboard
cancel t s = if token_is t s.pending then record s { pending = none } else s

pump : Clipboard → Clipboard × List Event
pump s = elim s.reading [
  | none ↦ (s, [])
  | some r ↦
      if not (is_some s.request) && not s.closed
      then (
        record s { request = some (r.revision, length r.bytes) },
        read_sent r.revision (length r.bytes) ∷ [],
      )
      else (s, [])
]

unfoldable pub invalidate : Clipboard → Clipboard
invalidate s = record s { reading = none }
