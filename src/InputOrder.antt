-- ===== src/InputOrder.antt =====
-- input_order.py: the one bounded scheduler of native input (`OrderedInput`).
-- The callbacks given to the constructor are the fields of `Env`, over a world that they share. While
-- `admit`, `result`, `overflow` or `commit` runs it may call `invalidate`, which it reports as a list of
-- owners, and lets an exception of that call through; what `result` does after these calls is
-- `after_result`, given the world in which `result` was called. `admit` and `result` may also raise once they have
-- made these calls, and `commit` may complete at once, raise, or leave its completion to a later event.
-- `available`, `cancel` and the timers return, and make no call back; `overflow` raises only what an
-- `invalidate` raises.
pub mod Settle
pub mod Shrink
pub mod Drain
pub mod Preserve
pub mod Steady
pub mod Fifo
pub mod Ready
pub mod Worlds
mod Examples
use floe_native_apps.Prelude.{
  ℕ, zero, suc, ◌+◌, Bool, true, false, not, ◌&&◌, ◌||◌, Option, none, some, List, [], ◌∷◌, ◌++◌,
  leb, ◌==◌, if◌then◌else◌, length, keep_if, map,
}
use floe_native_apps.Python.Text.{Text}

-- Objects compared by `is` are numbers.
abbrev pub Owner : Type 0
Owner = ℕ

pub data InputError : Type 0 where
  delivery_timeout delivery_failed : InputError
  context_error : Text → InputError

-- The tuple that `admit` returns: sequence, adapter, token, text.
pub record Delivery : Type 0 where
  pub sequence : ℕ
  pub adapter : ℕ
  pub token : ℕ
  pub text : Text

-- What `adapter.commit` does before it returns.
pub data Outcome : Type 0 where
  deferred : Outcome
  completed : Option InputError → Outcome
  raised : Outcome

pub record Env (W Op : Type 0) : Type 0 where
  pub available : Owner → W → Bool
  pub admit : Owner → Op → W → W × List Owner × Option Delivery
  pub admit_raises : Owner → Op → W → Bool
  pub result : Owner → ℕ → Option InputError → W → W × List Owner
  pub after_result : Owner → ℕ → Option InputError → W → W → W
  pub result_raises : Owner → ℕ → Option InputError → W → Bool
  pub overflow : Owner → W → W × List Owner
  pub timeout_add : ℕ → W → W × ℕ
  pub timeout_remove : ℕ → W → W
  pub commit : ℕ → ℕ → Text → W → W × List Owner × Outcome
  pub cancel : ℕ → ℕ → W → W

-- The tuple in `self.pending`; `serial` is its identity.
pub record Pending : Type 0 where
  pub serial : ℕ
  pub owner : Owner
  pub sequence : ℕ
  pub adapter : ℕ
  pub token : ℕ

-- Two fields are not of the program: `admitted` lists what was handed to `admit`, oldest first, and
-- `broken` is that an exception left the latest drain, or kept the latest call from it.
pub record State (W Op : Type 0) : Type 0 where
  pub queue : List (Owner × Op)
  pub pending : Option Pending
  pub timer : ℕ
  pub closed : Bool
  pub draining : Bool
  pub serial : ℕ
  pub broken : Bool
  pub admitted : List (Owner × Op)
  pub world : W

abbrev pub delivery_timeout_ms : ℕ
delivery_timeout_ms = 30000

abbrev pub queue_limit : ℕ
queue_limit = 256

abbrev pub is_some {ℓ} : {A : Type ℓ} → Option A → Bool
is_some none = false
is_some (some a) = true

unfoldable pub new : {W Op : Type 0} → W → State W Op
new w = record {
  queue = [];
  pending = none;
  timer = 0;
  closed = false;
  draining = false;
  serial = 0;
  broken = false;
  admitted = [];
  world = w;
}

-- The items of other owners, and the operations of this one.
unfoldable pub others : {Op : Type 0} → Owner → List (Owner × Op) → List (Owner × Op)
others owner q = keep_if (λ item. not (item.0 == owner)) q

unfoldable pub operations : {Op : Type 0} → Owner → List (Owner × Op) → List Op
operations owner q = map (λ item. item.1) (keep_if (λ item. item.0 == owner) q)

-- `self.pending and self.pending[0] is owner`.
abbrev pub owned_by : Owner → Option Pending → Bool
owned_by owner none = false
owned_by owner (some p) = p.owner == owner

-- The calls that a callback makes, one after the other.
abbrev pub each : {S : Type 0} → (Owner → S → S) → List Owner → S → S
each f [] s = s
each f (o ∷ os) s = each f os (f o s)

abbrev pub sequence_of : Owner → Option Pending → Option ℕ
sequence_of owner none = none
sequence_of owner (some p) = if p.owner == owner then some p.sequence else none

abbrev pub is_pending : ℕ → Option Pending → Bool
is_pending serial none = false
is_pending serial (some p) = p.serial == serial

abbrev transaction : Owner → Delivery → ℕ → Pending
transaction owner d serial = record {
  serial = serial;
  owner = owner;
  sequence = d.sequence;
  adapter = d.adapter;
  token = d.token;
}

module _ {W Op : Type 0} (env : Env W Op) where
  unfoldable pub clear_timer : State W Op → State W Op
  clear_timer s =
      if s.timer == 0 then s else record s { timer = 0; world = env.timeout_remove s.timer s.world }

  pub cancel_in : Option Pending → State W Op → State W Op
  unfolding clear_timer
  cancel_in none s = s
  cancel_in (some p) s =
      let t = clear_timer (record s { pending = none }) in
      record t { world = env.cancel p.adapter p.token t.world }

  unfoldable pub cancel_pending : State W Op → State W Op
  unfolding cancel_in
  cancel_pending s = cancel_in s.pending s

  -- `invalidate` up to its call of `drain`.
  unfoldable pub retire : Owner → State W Op → State W Op
  retire owner s =
      let t = record s { queue = others owner s.queue } in
      if owned_by owner s.pending then cancel_pending t else t

  pub report :
      (Owner → State W Op → State W Op) → Pending → Option InputError → State W Op → State W Op
  report invalidate p error s =
      let (w, retired) = env.result p.owner p.sequence error s.world in
      let t = each invalidate retired (record s { world = w }) in
      let done = record t {
        world = env.after_result p.owner p.sequence error s.world t.world;
        broken = env.result_raises p.owner p.sequence error s.world;
      } in
      let u = if t.broken then t else done in if env.available p.owner s.world then u else s

  -- The closure `completed` up to its call of `drain`, for the transaction that is pending.
  pub settle :
      (Owner → State W Op → State W Op) → Pending → Option InputError → State W Op → State W Op
  unfolding report
  settle invalidate p error s =
      let t = record (clear_timer s) { pending = none } in
      report invalidate p error
        (if is_some error then record t { world = env.cancel p.adapter p.token t.world } else t)

  -- What `completed` raises within `commit` is caught, and then nothing is pending.
  pub after_commit : Pending → Outcome → State W Op → State W Op
  unfolding settle
  after_commit p deferred s = s
  after_commit p (completed error) s = record (settle retire p error s) { broken = false }
  after_commit p raised s = settle retire p (some delivery_failed) s

  -- The new transaction, its timer, and the call of `commit`. Within `drain` an `invalidate` ends
  -- before it would drain again; where it has ended this transaction, `completed` does nothing.
  pub deliver : Owner → Option Delivery → State W Op → State W Op
  unfolding after_commit
  deliver owner none s = s
  deliver owner (some d) s =
      let p = transaction owner d s.serial in
      let (w, timer) = env.timeout_add delivery_timeout_ms s.world in
      let (w', retired, outcome) = env.commit d.adapter d.token d.text w in
      let t =
        each retire retired
          (record s { pending = some p; serial = s.serial + 1; timer = timer; world = w' }) in
      if is_pending s.serial t.pending then after_commit p outcome t else t

  -- One round of the loop of `drain`, for the item taken from the queue.
  pub turn : Owner → Op → State W Op → State W Op
  unfolding deliver
  turn owner op s =
      let (w, retired, delivery) = env.admit owner op s.world in
      let t =
        each retire retired (record s { admitted = s.admitted ++ (owner, op) ∷ []; world = w }) in
      let done =
        if env.admit_raises owner op s.world
        then record t { broken = true }
        else deliver owner delivery t in
      if env.available owner s.world then done else s

  -- The loop of `drain`; `q` is the queue of `s`.
  pub loop_in : ℕ → List (Owner × Op) → State W Op → State W Op
  unfolding turn
  loop_in zero q s = s
  loop_in (suc fuel) [] s = s
  loop_in (suc fuel) ((owner, op) ∷ rest) s =
      let t = turn owner op (record s { queue = rest }) in
      let more = loop_in fuel t.queue t in
      if is_some s.pending || s.closed || s.broken then s else more

  -- The queue only shrinks in a drain, so its length is enough fuel.
  unfoldable pub drain : State W Op → State W Op
  unfolding loop_in
  drain s =
      if s.draining || s.closed
      then s
      else record (loop_in (length s.queue) s.queue
          (record s { draining = true; broken = false })) { draining = false }

  -- The object after `invalidate`.
  unfoldable pub invalidated : Owner → State W Op → State W Op
  unfolding retire drain
  invalidated owner s = drain (retire owner s)

  -- One of the calls that a callback makes, none of which follows an exception.
  unfoldable pub until_broken : Owner → State W Op → State W Op
  unfolding invalidated
  until_broken owner s = if s.broken then s else invalidated owner s

  -- The sequence of the cancelled transaction, the cancelled operations, and the object.
  unfoldable pub invalidate : Owner → State W Op → Option ℕ × List Op × State W Op
  invalidate owner s = (sequence_of owner s.pending, operations owner s.queue, invalidated owner s)

  unfoldable pub enqueue : Owner → Op → State W Op → State W Op
  enqueue owner op s =
      let (w, retired) = env.overflow owner s.world in
      let t = each until_broken retired (record s { world = w; broken = false }) in
      if s.closed || not (env.available owner s.world)
      then s
      else if leb queue_limit (length s.queue)
      then until_broken owner t
      else drain (record s { queue = s.queue ++ (owner, op) ∷ [] })

  pub complete_in : Option Pending → ℕ → Option InputError → State W Op → State W Op
  unfolding settle
  complete_in none serial error s = s
  complete_in (some p) serial error s =
      let t = settle until_broken p error (record s { broken = false }) in
      let u = if t.broken then t else drain t in if p.serial == serial then u else s

  -- The closure `completed` of the transaction `serial`, called by its adapter.
  unfoldable pub complete : ℕ → Option InputError → State W Op → State W Op
  unfolding complete_in
  complete serial error s = complete_in s.pending serial error s

  -- The closure `expired` of the transaction `serial`, called by its timer.
  unfoldable pub expire : ℕ → State W Op → State W Op
  expire serial s =
      if is_pending serial s.pending
      then complete serial (some delivery_timeout) (record s { timer = 0 })
      else s

  unfoldable pub close : State W Op → State W Op
  close s = cancel_pending (record s { closed = true; queue = [] })

-- What reaches the scheduler between two of its own steps; `becomes` is any change of the world.
pub data Call (W Op : Type 0) : Type 0 where
  enqueues : Owner → Op → Call W Op
  completes : ℕ → Option InputError → Call W Op
  expires : ℕ → Call W Op
  invalidates : Owner → Call W Op
  closes : Call W Op
  becomes : W → Call W Op

module _ {W Op : Type 0} (env : Env W Op) where
  unfoldable pub step : State W Op → Call W Op → State W Op
  step s (enqueues owner op) = enqueue env owner op s
  step s (completes serial error) = complete env serial error s
  step s (expires serial) = expire env serial s
  step s (invalidates owner) = (invalidate env owner s).2
  step s closes = close env s
  step s (becomes w) = record s { world = w }

  -- The calls are listed in the order in which they are made.
  unfoldable pub run : State W Op → List (Call W Op) → State W Op
  run s [] = s
  run s (c ∷ cs) = run (step s c) cs
