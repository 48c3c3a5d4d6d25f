-- ===== src/DesktopControl/Output.antt =====
-- The output of a viewer, of `Peer`: bounded control records, at most one frame and one cursor, and the
-- order of the bytes. `body` stands for the text that json.dumps makes of a message.
pub mod Account
pub mod Drain
pub mod Stream
use floe_native_apps.Prelude.{
  ℕ, zero, suc, ◌+◌, ◌-◌, ◌≡◌, min, Bool, true, false, not, ◌&&◌, ◌||◌, Option, none, some, List,
  [], ◌∷◌, ◌++◌, leb, ltb, ◌==◌, if◌then◌else◌, length, take, drop,
}
use floe_native_apps.DesktopControl.Reader.{Bytes, max_message, pack, encode_message}

abbrev pub max_output : ℕ
max_output = 2097152

abbrev pub max_output_records : ℕ
max_output_records = 512

abbrev pub max_frame : ℕ
max_frame = 67108864

abbrev pub max_cursor : ℕ
max_cursor = 5242880

-- The argument `completed` of `append`.
pub data Completed : Type 0 where
  nothing frame cursor : Completed

-- The tuple that `append` puts in the queue.
pub record Entry : Type 0 where
  pub bytes : Bytes
  pub payload : Bool
  pub completed : Completed

-- `sent` is no field of the program: it is what the socket took.
pub record Peer : Type 0 where
  pub authenticated : Bool
  pub closed : Bool
  pub output : List Entry
  pub buffered : ℕ
  pub control_buffered : ℕ
  pub frame_pending : Bool
  pub cursor_pending : Bool
  pub sent : Bytes

unfoldable pub new : Peer
new = record {
  authenticated = false;
  closed = false;
  output = [];
  buffered = 0;
  control_buffered = 0;
  frame_pending = false;
  cursor_pending = false;
  sent = [];
}

abbrev pub shut : Peer → Peer
shut p = if p.closed then p else record p {
  closed = true;
  output = [];
  buffered = 0;
  control_buffered = 0;
  frame_pending = false;
  cursor_pending = false;
}

unfoldable pub append : Bytes → Bool → Completed → Peer → Peer
append bs payload completed p = record p {
  output = p.output ++ record { bytes = bs; payload = payload; completed = completed } ∷ [];
  buffered = p.buffered + length bs;
  control_buffered = if payload then p.control_buffered else p.control_buffered + length bs;
}

send_in : Option Bytes → Completed → Peer → Bool × Peer
unfolding append
send_in none completed p = (false, shut p)
send_in (some bs) completed p =
    if ltb max_output (p.control_buffered + length bs) || leb max_output_records (length p.output)
    then (false, shut p)
    else (true, append bs false completed p)

unfoldable pub send : Bytes → Completed → Peer → Bool × Peer
unfolding send_in
send body completed p =
    if p.closed || not p.authenticated
    then (false, p)
    else send_in (encode_message body (max_output - 5)) completed p

with_frame : Bytes → Bool × Peer → Bool × Peer
unfolding append
with_frame pixels (false, p) = (false, p)
with_frame pixels (true, p) = (
  true,
  append pixels true frame
      (append (2 ∷ pack (length pixels)) false nothing (record p { frame_pending = true })),
)

-- `none` is the ValueError for pixels of the wrong size.
unfoldable pub send_frame : Bytes → Bytes → Peer → Option (Bool × Peer)
unfolding with_frame
send_frame body pixels p =
    if p.closed || not p.authenticated || p.frame_pending
    then some (false, p)
    else if not (ltb 0 (length pixels) && leb (length pixels) max_frame)
    then none
    else some (with_frame pixels (send body nothing p))

with_cursor : Option Bytes → Bool × Peer → Bool × Peer
unfolding append
with_cursor pixels (false, p) = (false, p)
with_cursor none (true, p) = (true, record p { cursor_pending = true })
with_cursor (some pixels) (true, p) = (
  true,
  append pixels true cursor
      (append (3 ∷ pack (length pixels)) false nothing (record p { cursor_pending = true })),
)

abbrev fits_cursor : Option Bytes → Bool
fits_cursor none = true
fits_cursor (some pixels) = ltb 0 (length pixels) && leb (length pixels) max_cursor

abbrev completes_at_once : Option Bytes → Completed
completes_at_once none = cursor
completes_at_once (some pixels) = nothing

unfoldable pub send_cursor : Bytes → Option Bytes → Peer → Option (Bool × Peer)
unfolding with_cursor
send_cursor body pixels p =
    if p.closed || not p.authenticated || p.cursor_pending
    then some (false, p)
    else if not (fits_cursor pixels)
    then none
    else some (with_cursor pixels (send body (completes_at_once pixels) p))

-- What the socket does with the bytes that it is offered: it takes some of them, has no room, or fails.
pub data Answer : Type 0 where
  takes : ℕ → Answer
  blocks fails : Answer

abbrev finish : Completed → Peer → Peer
finish nothing p = p
finish frame p = record p { frame_pending = false }
finish cursor p = record p { cursor_pending = false }

-- The counters are never below `count` (Account), so the differences are Python's.
-- The socket took the first `count` bytes of the first entry, `rest` being the entries after it.
unfoldable pub took : ℕ → Entry → List Entry → Peer → Peer
took count e rest p =
    let q = record p {
      buffered = p.buffered - count;
      control_buffered = if e.payload then p.control_buffered else p.control_buffered - count;
      sent = p.sent ++ take count e.bytes;
    } in
    if count == length e.bytes
    then finish e.completed (record q { output = rest })
    else record q { output = record e { bytes = drop count e.bytes } ∷ rest }

-- A round of the loop of `write`, which offers at most `budget` bytes: what is left of the budget, or
-- none where the loop ends.
round : Answer → ℕ → List Entry → Peer → Option ℕ × Peer
unfolding took
round answer budget [] p = (none, p)
round blocks budget (e ∷ rest) p = (none, p)
round fails budget (e ∷ rest) p = (none, shut p)
round (takes n) budget (e ∷ rest) p =
    let count = min n (min budget (length e.bytes)) in
    if count == 0 then (none, shut p) else (some (budget - count), took count e rest p)

write_in : List Answer → Option ℕ → Peer → Peer
unfolding round
write_in [] budget p = p
write_in (a ∷ answers) none p = p
write_in (a ∷ answers) (some budget) p =
    let (left, q) = round a budget p.output p in
    let more = write_in answers left q in if ltb 0 budget then more else p

-- `answers` are those of the socket to the rounds that follow; after them it has no room. The call of
-- `writable` that follows a completed record is the application's, and is left out.
unfoldable pub write : List Answer → Peer → Peer
unfolding write_in
write answers p = if p.closed then p else write_in answers (some max_message) p

-- What reaches a peer: its authentication, the sends of the application, writes and a close.
pub data Call : Type 0 where
  authenticates shuts : Call
  sends : Bytes → Call
  sends_frame : Bytes → Bytes → Call
  sends_cursor : Bytes → Option Bytes → Call
  writes : List Answer → Call

-- The peer after a send, which raises before it changes anything.
abbrev pub after : Peer → Option (Bool × Peer) → Peer
after p none = p
after p (some (b, q)) = q

unfoldable pub step : Peer → Call → Peer
step p authenticates = record p { authenticated = true }
step p shuts = shut p
step p (sends body) = (send body nothing p).1
step p (sends_frame body pixels) = after p (send_frame body pixels p)
step p (sends_cursor body pixels) = after p (send_cursor body pixels p)
step p (writes answers) = write answers p

unfoldable pub run : Peer → List Call → Peer
run p [] = p
run p (c ∷ cs) = run (step p c) cs
