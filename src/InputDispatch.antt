-- ===== src/InputDispatch.antt =====
-- input_dispatch.py: the admission of text and of ordinary input from Xpra's connections, which the
-- scheduler (InputOrder) calls back. What the module asks of Xpra's server, of the two adapters and of
-- the connections is an interface `Host` over their state, which is arbitrary.
pub mod Calls
pub mod Keeps
pub mod Sequence
mod Examples
use floe_native_apps.Prelude.{
  ℕ, ◌≤◌, ◌<◌, Bool, true, false, not, ◌&&◌, ◌||◌, Option, none, some, List, [], ◌∷◌, leb, ltb,
  ◌==◌, if◌then◌else◌, Dict, get, put, nat_key,
}
use floe_native_apps.Python.Int.{ℤ, pos, negsuc}
use floe_native_apps.Python.Text.{Text, valid_text}
use floe_native_apps.Python.Value.{Value}
use floe_native_apps.Python.Value as Value
use floe_native_apps.InputOrder.{Owner, InputError, context_error, Delivery, Env}
use floe_native_apps.InputOrder as Order

-- What the server knows of a connection: its input version and its uuid.
pub record Source : Type 0 where
  pub version : ℕ
  pub uuid : ℕ

-- The entry of a connection in `connections`.
pub record Connection : Type 0 where
  pub sequence : ℕ
  pub failed : Bool

pub data DispatchError : Type 0 where
  version_unsupported text_invalid sequence_invalid target_unavailable no_context : DispatchError
  delivery : InputError → DispatchError

-- Windows and uuids are compared with `is` and `==`, so they are numbers; a handler is one too. A
-- handler, a close of a protocol and a commit may invalidate connections, which they report.
pub record Host (H : Type 0) : Type 0 where
  pub source : Owner → H → Option Source
  pub is_closed : Owner → H → Bool
  pub window : ℤ → H → Option ℕ
  pub readonly : H → Bool
  pub can_send : Owner → ℕ → H → Bool
  pub driver : H → Option ℕ
  pub focused : ℕ → H → Bool
  pub context : ℕ → H → Option ℕ
  pub xim_context : ℕ → H → Option ℕ
  pub clear_keys : H → H
  pub send : Owner → ℕ → Option DispatchError → H → H
  pub close_protocol : Owner → H → H × List Owner
  pub handle : ℕ → Owner → H → H × List Owner
  pub handle_raises : ℕ → Owner → H → Bool
  pub timeout_add : ℕ → H → H × ℕ
  pub timeout_remove : ℕ → H → H
  pub commit : ℕ → ℕ → Text → H → H × List Owner × Order.Outcome
  pub cancel : ℕ → ℕ → H → H
  pub shut : H → H

-- `delivered` is no field of the program: the connection and the sequence of each text that was handed
-- to an adapter, the latest first.
pub record World (H : Type 0) : Type 0 where
  pub connections : Dict ℕ Connection
  pub host : H
  pub delivered : List (Owner × ℕ)

-- The tuple that is enqueued: a handler, or a packet with the window it named.
pub data Operation : Type 0 where
  ordinary : ℕ → Operation
  confirmed : ℕ → ℤ → Text → Option ℕ → Operation

abbrev pub adapter_contexts : ℕ
adapter_contexts = 0

abbrev pub adapter_xim : ℕ
adapter_xim = 1

abbrev entry : Option Connection → Connection
entry none = record { sequence = 0; failed = false }
entry (some c) = c

-- `state`.
abbrev pub state_of : {H : Type 0} → Owner → World H → Connection
state_of o w = entry (get o w.connections)

abbrev pub is_some {ℓ} : {A : Type ℓ} → Option A → Bool
is_some none = false
is_some (some a) = true

-- `driver and driver == getattr(source, 'uuid', None)`, and with `!=`.
abbrev drives : Option Source → Option ℕ → Bool
drives (some s) (some d) = not (d == 0) && s.uuid == d
drives _ _ = false

abbrev pub is_other : Source → Option ℕ → Bool
is_other s none = false
is_other s (some d) = not (d == 0) && not (s.uuid == d)

abbrev pub same_window : Option ℕ → Option ℕ → Bool
same_window (some a) (some b) = a == b
same_window _ _ = false

module _ {H : Type 0} (host : Host H) where
  unfoldable pub available : Owner → World H → Bool
  available o w =
      is_some (host.source o w.host) && not (host.is_closed o w.host) && not (state_of o w).failed

  -- `reject` up to its call of `invalidate`.
  unfoldable pub fail : Owner → World H → World H
  fail o w = record w {
    connections = put o (record (state_of o w) { failed = true }) w.connections;
    host =
        if drives (host.source o w.host) (host.driver w.host)
        then host.clear_keys w.host
        else w.host;
  }

  -- The rest of it; `known` is that the source was there when it began.
  unfoldable pub tell : Bool → Owner → ℕ → DispatchError → World H → World H
  tell known o sequence error w =
      if known && not (host.is_closed o w.host)
      then record w { host = host.send o sequence (some error) w.host }
      else w

  -- Both, in the callback `admit`, which reports the invalidation. A drain runs then, so it only takes
  -- operations off the queue.
  unfoldable pub reject : Owner → ℕ → DispatchError → World H → World H × List Owner
  unfolding fail tell
  reject o sequence error w =
      (tell (is_some (host.source o w.host)) o sequence error (fail o w), o ∷ [])

  abbrev refuse : Owner → ℕ → DispatchError → World H → World H × List Owner × Option Delivery
  refuse o sequence error w = let (t, os) = reject o sequence error w in (t, os, none)

  abbrev deliver_to : Owner → ℕ → Text → ℕ → ℕ → World H → World H × List Owner × Option Delivery
  deliver_to o sequence text adapter token w = (
    record w { delivered = (o, sequence) ∷ w.delivered },
    [],
    some (record { sequence = sequence; adapter = adapter; token = token; text = text }),
  )

  -- The tokens of the private context and of XIM.
  pub with_token :
      Owner → ℕ → Text → Option ℕ → Option ℕ → World H → World H × List Owner × Option Delivery
  unfolding reject
  with_token o sequence text (some token) xim w =
      deliver_to o sequence text adapter_contexts token w
  with_token o sequence text none (some token) w = deliver_to o sequence text adapter_xim token w
  with_token o sequence text none none w = refuse o sequence no_context w

  -- The window that is there now, and its context.
  pub with_window : Owner → ℕ → Text → Option ℕ → World H → World H × List Owner × Option Delivery
  unfolding with_token reject
  with_window o sequence text none w = refuse o sequence target_unavailable w
  with_window o sequence text (some x) w =
      if not (host.focused x w.host)
      then refuse o sequence no_context w
      else with_token o sequence text (host.context x w.host) (host.xim_context x w.host) w

  unfoldable pub sendable : Owner → Option ℕ → H → Bool
  sendable o none h = false
  sendable o (some x) h = host.can_send o x h

  -- The tests on the window that is there now.
  unfoldable pub lacks_target : Owner → Option ℕ → Option ℕ → Source → H → Bool
  lacks_target o window original source h =
      host.readonly h
      || not (same_window window original)
      || not (sendable o window h)
      || is_other source (host.driver h)

  -- From the test of the sequence on; the source is that of the connection.
  pub confirm :
      Owner
      → ℕ
      → ℤ
      → Text
      → Option ℕ
      → Option Source
      → World H
      → World H × List Owner × Option Delivery
  unfolding with_window reject
  confirm o sequence wid text original none w = (w, [], none)
  confirm o sequence wid text original (some source) w =
      let t = record w {
        connections = put o (record (state_of o w) { sequence = sequence }) w.connections;
      } in
      let window = host.window wid w.host in
      if leb sequence (state_of o w).sequence
      then refuse o sequence sequence_invalid w
      else if lacks_target o window original source w.host
      then refuse o sequence target_unavailable t
      else with_window o sequence text window t

  -- The scheduler calls it for a connection that is available, so its source is there.
  unfoldable pub admit : Owner → Operation → World H → World H × List Owner × Option Delivery
  unfolding confirm
  admit o (ordinary handler) w =
      let (h, os) = host.handle handler o w.host in (record w { host = h }, os, none)
  admit o (confirmed sequence wid text original) w =
      confirm o sequence wid text original (host.source o w.host) w

  -- A handler may raise. The other calls of the host are taken not to.
  unfoldable pub admit_raises : Owner → Operation → World H → Bool
  admit_raises o (ordinary handler) w = host.handle_raises handler o w.host
  admit_raises o (confirmed sequence wid text original) w = false

  -- An error that is an empty text counts as none.
  unfoldable pub result : Owner → ℕ → Option InputError → World H → World H × List Owner
  result o sequence none w = (record w { host = host.send o sequence none w.host }, [])
  result o sequence (some (context_error [])) w =
      (record w { host = host.send o sequence none w.host }, [])
  result o sequence (some error) w = (fail o w, o ∷ [])

  -- The end of `reject` in `result`, which follows the invalidation.
  unfoldable pub after_result : Owner → ℕ → Option InputError → World H → World H → World H
  unfolding tell
  after_result o sequence none w v = v
  after_result o sequence (some (context_error [])) w v = v
  after_result o sequence (some error) w v =
      tell (is_some (host.source o w.host)) o sequence (delivery error) v

  -- What `OrderedInput` is made with.
  abbrev pub env : Env (World H) Operation
  env = record {
    available = available;
    admit = admit;
    admit_raises = admit_raises;
    result = result;
    after_result = after_result;
    result_raises = λ o sequence error w. false;
    overflow = λ o w. let (h, os) = host.close_protocol o w.host in (record w { host = h }, os);
    timeout_add = λ ms w. let (h, n) = host.timeout_add ms w.host in (record w { host = h }, n);
    timeout_remove = λ n w. record w { host = host.timeout_remove n w.host };
    commit = λ a t text w.
        let (h, os, outcome) = host.commit a t text w.host in (record w { host = h }, os, outcome);
    cancel = λ a t w. record w { host = host.cancel a t w.host };
  }
