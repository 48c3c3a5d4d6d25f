-- ===== src/HostWire/Steps.antt =====
-- The steps of the worker and of `close`, and the runs of a `Writer`.
use floe_native_apps.Prelude.{
  ℕ, ◌-◌, Bool, true, false, Option, none, some, List, [], ◌∷◌, ◌++◌, ◌==◌, if◌then◌else◌, length,
  drop,
}
use floe_native_apps.DesktopControl.Reader.{Bytes}
use floe_native_apps.HostWire.{
  Worker, waits, writes_rest, fails, ended, Closing, uncalled, emptying, taking, marking, flushing,
  removing, placing, finished, aborted, Writer, Failure, transport_closed, is_full, is_locked, send,
}

-- `queue.get` of the worker, which takes no lock.
unfoldable pub get : Worker → List (Option Bytes) → Writer → Writer
get waits (none ∷ q) s = record s { queue = q; worker = ended }
get waits (some v ∷ q) s = record s { queue = q; worker = writes_rest v v }
get _ _ s = s

-- One os.write of what is left, which takes some bytes or raises (none); to take none raises.
unfoldable pub write : Option ℕ → Worker → Writer → Writer
write none (writes_rest value (b ∷ left)) s = record s { worker = fails value }
write (some n) (writes_rest value (b ∷ left)) s =
    if n == 0
    then record s { worker = fails value }
    else record s { worker = writes_rest value (drop n (b ∷ left)) }
write count w s = s

-- The worker under the lock: it is done with a value, or ends by the OSError.
unfoldable pub settle : Worker → Writer → Writer × Option Failure
settle (writes_rest value []) s =
    (record s { pending = s.pending - length value; worker = waits }, none)
settle (fails value) s =
    (record s { closed = true; worker = ended }, if s.closed then none else some transport_closed)
settle w s = (s, none)

-- The entry of `close`.
unfoldable pub close : Bool → Closing → Writer → Writer
close drain uncalled s = record s { closed = true; phase = if drain then marking else emptying }
close drain phase s = s

-- `queue.get_nowait` in the lock. An empty queue raises queue.Empty, and `len(None)` a TypeError.
unfoldable pub take_pending : List (Option Bytes) → Writer → Writer
take_pending [] s = record s { phase = aborted }
take_pending (none ∷ q) s = record s { queue = q; phase = aborted }
take_pending (some v ∷ q) s = record s {
  queue = q;
  pending = s.pending - length v;
  phase = emptying;
}

-- `queue.get_nowait` after queue.Full.
unfoldable pub remove : List (Option Bytes) → Writer → Writer
remove [] s = record s { phase = aborted }
remove (x ∷ q) s = record s { queue = q; phase = flushing }

abbrev pub is_empty : List (Option Bytes) → Bool
is_empty [] = true
is_empty (x ∷ q) = false

-- The next operation of `close`. At `marking` it is that of the moment when the queue has room or the
-- time is over.
unfoldable pub advance : Closing → Writer → Writer
unfolding take_pending remove
advance emptying s = record s { phase = if is_empty s.queue then marking else taking }
advance taking s = take_pending s.queue s
advance marking s =
    if is_full s
    then record s { phase = flushing }
    else record s { queue = s.queue ++ none ∷ []; phase = finished }
advance flushing s = record s { phase = if is_empty s.queue then placing else removing }
advance removing s = remove s.queue s
advance placing s =
    if is_full s
    then record s { phase = aborted }
    else record s { queue = s.queue ++ none ∷ []; phase = finished }
advance phase s = s

pub data Step : Type 0 where
  sends : Bytes → Step
  gets settles advances : Step
  writes : Option ℕ → Step
  closes : Bool → Step

-- What needs the lock does nothing while `close` holds it.
abbrev pub unlocked : Writer → Writer → Writer
unlocked s t = if is_locked s.phase then s else t

unfoldable pub step : Writer → Step → Writer
step s (sends value) = unlocked s (send value s).0
step s gets = get s.worker s.queue s
step s settles = unlocked s (settle s.worker s).0
step s advances = advance s.phase s
step s (writes count) = write count s.worker s
step s (closes drain) = unlocked s (close drain s.phase s)

unfoldable pub run : Writer → List Step → Writer
run s [] = s
run s (c ∷ cs) = run (step s c) cs
