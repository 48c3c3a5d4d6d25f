-- ===== src/InputDispatch/Calls.antt =====
-- The methods of `InputDispatch` that its callers call, with the scheduler, and their sequences.
use floe_native_apps.Prelude.{
  ℕ, Bool, false, not, ◌&&◌, ◌||◌, Option, none, some, List, [], ◌∷◌, leb, ◌==◌, if◌then◌else◌,
  nat_key,
}
use floe_native_apps.Python.Int.{ℤ, pos}
use floe_native_apps.Python.Text.{Text, valid_text}
use floe_native_apps.Python.Value.{Value}
use floe_native_apps.InputOrder.{Owner, InputError, context_error, Delivery, State, each}
use floe_native_apps.InputOrder as Order
use floe_native_apps.InputDispatch.{
  Source, DispatchError, version_unsupported, text_invalid, Host, World, Operation, ordinary,
  confirmed, available, fail, tell, env, is_some,
}

abbrev pub max_sequence : ℕ
max_sequence = 9007199254740991

-- The fields of a packet, which has four items.
unfoldable pub packet_fields : List Value → Option (ℕ × ℤ × Text)
packet_fields (kind ∷ Value.int (pos n) ∷ Value.int wid ∷ Value.text x ∷ []) =
    if leb 1 n && leb n max_sequence then some (n, wid, x) else none
packet_fields _ = none

module _ {H : Type 0} (host : Host H) where
  abbrev pub Dispatch : Type 0
  Dispatch = State (World H) Operation

  -- `reject`, outside the scheduler.
  unfoldable pub turn_away : Owner → ℕ → DispatchError → Dispatch → Dispatch
  unfolding fail tell
  turn_away o sequence error s =
      let t =
        Order.invalidated (env host) o (record s { world = fail host o s.world; broken = false }) in
      let told = tell host (is_some (host.source o s.world.host)) o sequence error t.world in
      if t.broken then t else record t { world = told }

  unfoldable pub enqueue_packet : Owner → Option (ℕ × ℤ × Text) → Dispatch → Dispatch
  unfolding turn_away
  enqueue_packet o none s =
      let t = Order.invalidated (env host) o (record s { broken = false }) in
      let (h, os) = host.close_protocol o t.world.host in
      let u =
        each (Order.until_broken (env host)) os
          (record t { world = record t.world { host = h } }) in
      if t.broken then t else u
  enqueue_packet o (some (sequence, wid, x)) s =
      if not (valid_text x)
      then turn_away o sequence text_invalid s
      else Order.enqueue (env host) o (confirmed sequence wid x (host.window wid s.world.host)) s

  -- `getattr(source, 'floe_input_version', 0) != 1`, for the source of an available connection.
  pub has_version : Option Source → Bool
  has_version none = false
  has_version (some source) = source.version == 1

  -- `enqueue`: the packet, or a handler for other input.
  unfoldable pub enqueue_text : Owner → List Value → Dispatch → Dispatch
  unfolding enqueue_packet has_version
  enqueue_text o packet s =
      if s.closed || not (available host o s.world)
      then s
      else if not (has_version (host.source o s.world.host))
      then turn_away o 0 version_unsupported s
      else enqueue_packet o (packet_fields packet) s

  unfoldable pub enqueue_handler : Owner → ℕ → Dispatch → Dispatch
  unfolding has_version
  enqueue_handler o handler s =
      if s.closed || not (available host o s.world)
      then s
      else if not (has_version (host.source o s.world.host))
      then turn_away o 0 version_unsupported s
      else Order.enqueue (env host) o (ordinary handler) s

  unfoldable pub close : Dispatch → Dispatch
  close s =
      let t = Order.close (env host) s in
      record t { world = record t.world { host = host.shut t.world.host } }

-- What reaches the dispatch; `changes` is any change of the server, the adapters and the connections.
pub data Call (H : Type 0) : Type 0 where
  enqueues_text : Owner → List Value → Call H
  enqueues_handler : Owner → ℕ → Call H
  completes : ℕ → Option InputError → Call H
  expires : ℕ → Call H
  invalidates : Owner → Call H
  closes : Call H
  changes : H → Call H

module _ {H : Type 0} (host : Host H) where
  unfoldable pub step : Dispatch host → Call H → Dispatch host
  step s (enqueues_text o packet) = enqueue_text host o packet s
  step s (enqueues_handler o handler) = enqueue_handler host o handler s
  step s (completes serial error) = Order.complete (env host) serial error s
  step s (expires serial) = Order.expire (env host) serial s
  step s (invalidates o) = Order.invalidated (env host) o s
  step s closes = close host s
  step s (changes h) = record s { world = record s.world { host = h } }

  unfoldable pub run : Dispatch host → List (Call H) → Dispatch host
  run s [] = s
  run s (c ∷ cs) = run (step s c) cs

unfoldable pub new : {H : Type 0} → H → State (World H) Operation
new h = Order.new (record { connections = []; host = h; delivered = [] })
