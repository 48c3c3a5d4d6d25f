-- ===== src/HostWire.antt =====
-- host_desktop_wire.py: the bounded output of the physical-desktop helper, of `packet` and `Writer`.
-- `header` stands for the text that json.dumps makes of a message, encoded. The worker thread, the
-- callers of `send` and `close` interleave: a step is one operation of one of them on the queue, one
-- os.write, or what `send`, `_write` or the entry of `close` does under the lock, and any order of steps
-- is a run. A step that the lock or an empty queue holds up does nothing.
pub mod Steps
pub mod Pending
mod Examples
use floe_native_apps.Prelude.{
  ℕ, ◌+◌, ◌-◌, ◌≡◌, min, Bool, true, false, not, ◌&&◌, ◌||◌, Option, none, some, List, [], ◌∷◌,
  ◌++◌, leb, ltb, ◌==◌, if◌then◌else◌, length, take, drop,
}
use floe_native_apps.DesktopControl.Reader.{Bytes, pack}

abbrev pub header_limit : ℕ
header_limit = 8388608

abbrev pub payload_limit : ℕ
payload_limit = 67108864

unfoldable pub packet : Bytes → Bytes → Option Bytes
unfolding pack
packet header bytes =
    if ltb payload_limit (length bytes) || ltb header_limit (length header)
    then none
    else some (pack (length header) ++ header ++ bytes)

-- Where the worker is: at `queue.get`; with the value that it took and what is left of it, up to its
-- `pending -=`; with that value past an OSError; or at its end.
pub data Worker : Type 0 where
  waits : Worker
  writes_rest : Bytes → Bytes → Worker
  fails : Bytes → Worker
  ended : Worker

-- Where `close` is: not called; in its lock before `queue.empty` and before `queue.get_nowait`; before
-- `queue.put`; after queue.Full, before `queue.empty`, `queue.get_nowait` and `queue.put_nowait`; past all
-- of it; or left by an exception.
pub data Closing : Type 0 where
  uncalled emptying taking marking flushing removing placing finished aborted : Closing

-- In `queue`, none tells the worker to end. `closing` is that `close` is past `uncalled`.
pub record Writer : Type 0 where
  pub capacity : ℕ
  pub maximum : ℕ
  pub queue : List (Option Bytes)
  pub pending : ℕ
  pub closed : Bool
  pub worker : Worker
  pub phase : Closing

pub data Failure : Type 0 where
  backpressure transport_closed : Failure

unfoldable pub new : ℕ → ℕ → Writer
new capacity maximum = record {
  capacity = capacity;
  maximum = maximum;
  queue = [];
  pending = 0;
  closed = false;
  worker = waits;
  phase = uncalled;
}

-- queue.Queue(capacity) is full at its capacity; 0 would be no bound.
abbrev pub is_full : Writer → Bool
is_full s = not (s.capacity == 0) && leb s.capacity (length s.queue)

-- `close` holds the lock while it empties the queue.
abbrev pub is_locked : Closing → Bool
is_locked emptying = true
is_locked taking = true
is_locked _ = false

-- `send` of a packet, and the failure that it reports.
unfoldable pub send : Bytes → Writer → Writer × Option Failure
send value s =
    if s.closed
    then (s, none)
    else if ltb s.maximum (s.pending + length value) || is_full s
    then (record s { closed = true }, some backpressure)
    else (record s { pending = s.pending + length value; queue = s.queue ++ some value ∷ [] }, none)
