-- ===== src/DesktopClipboard/Observe.antt =====
-- `NativeClipboard.observe`: the records of the native channel, and the steps of the whole object.
use floe_native_apps.Prelude.{
  ℕ, ◌+◌, ◌-◌, ◌*◌, min, Bool, true, false, not, ◌&&◌, ◌||◌, Option, none, some, List, [], ◌∷◌,
  ◌++◌, leb, ◌==◌, if◌then◌else◌, length,
}
use floe_native_apps.Python.Int.{ℤ, pos, negsuc}
use floe_native_apps.Python.Text.{Text, codes, text_eq, has_nul}
use floe_native_apps.Python.Number.{within, is_dash, well_encoded, from_hex}
use floe_native_apps.Python.Value.{Value}
use floe_native_apps.DesktopClipboard.{
  limit, chunk, max_id, Target, Native, ClipboardTarget, Pending, Reading, Clipboard,
  target_unavailable, unavailable, Event, completed, changed, Outcome, Submission, token, valid,
  commit, cancel, pump, invalidate, close,
}

-- The size of a selection, with -1 for one that cannot be read; sizes are counted from there.
abbrev pub size_of : Option ℤ → Option ℕ
size_of (some (pos n)) = if leb n limit then some (n + 1) else none
size_of (some (negsuc ℕ.zero)) = some 0
size_of _ = none

pub data Call : Type 0 where
  commits : ClipboardTarget → Value → ℕ → Submission → Native → Call
  cancels : ClipboardTarget → Call
  observes : ℕ → List Text → Native → Call
  invalidates closes : Call

-- All five, where each is there.
abbrev all_of : Option ℕ → Option ℕ → Option ℕ → Option ℕ → Option ℕ → Option (ℕ × ℕ × ℕ × ℕ × ℕ)
all_of (some a) (some b) (some c) (some d) (some e) = some (a, b, c, d, e)
all_of _ _ _ _ _ = none

abbrev settled : Outcome → Clipboard × List Event
settled (raised, s, events) = (s, events)

module _ (number : Text → Option ℤ) (decode : List ℕ → Option Text) where
  -- A `clipboard-published`, where `published`, or a `clipboard-rejected` of the sequence `n`.
  unfoldable pub publication : Bool → ℕ → Option Pending → Native → Clipboard → Outcome
  publication published i none n s = (false, s, [])
  publication published i (some p) n s =
      let t = record s { pending = none } in
      let error = if published then none else some unavailable in
      if i == p.sequence
      then (
        false,
        t,
        completed p.completed (if valid p.token n t then error else some target_unavailable) ∷ [],
      )
      else (false, s, [])

  unfoldable pub observe_publication : Bool → List Text → Native → Clipboard → Outcome
  unfolding publication
  observe_publication published (x ∷ []) n s = elim (within 1 s.sequence (number x)) [
    | none ↦ (true, s, [])
    | some i ↦ publication published i s.pending n s
  ]
  observe_publication published _ n s = (true, s, [])

  -- The call of `pump` that follows where nothing was raised.
  unfoldable pub then_pump : Outcome → Outcome
  unfolding pump
  then_pump (true, s, events) = (true, s, events)
  then_pump (false, s, events) = let (t, more) = pump s in (false, t, events ++ more)

  -- A new selection of a valid target; `size` is counted from -1.
  unfoldable pub begin : ℕ → ℕ → ClipboardTarget → Clipboard → Outcome
  begin revision size t s =
      let r : Reading = record { revision = revision; token = t; size = size - 1; bytes = [] } in
      if leb size 1
      then (false, s, changed t.target t.epoch (if size == 1 then some [] else none) ∷ [])
      else then_pump (false, record s { reading = some r }, [])

  unfoldable pub admitted : Option ClipboardTarget → ℕ → ℕ → Clipboard → Outcome
  unfolding begin
  admitted none revision size s = (false, s, [])
  admitted (some t) revision size s = begin revision size t s

  unfoldable pub targeted : ℕ → ℕ → ℕ → ℕ → Option Target → Native → Clipboard → ℕ → ℕ → Outcome
  unfolding admitted
  targeted epoch generation window id none n s revision size = (false, s, [])
  targeted epoch generation window id (some t) n s revision size =
      if epoch == n.epoch && t.window == window && t.generation == generation
      then admitted (token id t n s) revision size s
      else (false, s, [])

  -- The fields of a state: revision, epoch, generation, window and size.
  unfoldable pub state_fields : List Text → Option (ℕ × ℕ × ℕ × ℕ × ℕ)
  state_fields (r ∷ e ∷ g ∷ w ∷ x ∷ []) =
      all_of (within 1 max_id (number r)) (within 1 max_id (number e)) (within 1 max_id (number g))
        (within 1 max_id (number w)) (size_of (number x))
  state_fields _ = none

  unfoldable pub state_in : Option (ℕ × ℕ × ℕ × ℕ × ℕ) → ℕ → Native → Clipboard → Outcome
  unfolding targeted
  state_in none id n s = (true, s, [])
  state_in (some (revision, epoch, generation, window, size)) id n s =
      if leb revision s.revision
      then (true, s, [])
      else targeted epoch generation window id n.target n
          (record s { revision = revision; reading = none }) revision size

  -- `id` is that of the token that may be made.
  unfoldable pub observe_state : ℕ → List Text → Native → Clipboard → Outcome
  unfolding state_in
  observe_state id fields n s = state_in (state_fields fields) id n s

  abbrev text_of : Option Text → Option Text
  text_of none = none
  text_of (some t) = if has_nul t then none else some t

  -- A chunk at `offset` of the selection that is being read.
  unfoldable pub extended : Reading → ℕ → Text → Clipboard → Outcome
  unfolding from_hex
  extended r offset encoded s =
      let bytes = r.bytes ++ from_hex encoded in
      if not (offset == length r.bytes) || not (length encoded == 2 * min chunk (r.size - offset))
      then (true, s, [])
      else if length bytes == r.size
      then (
        false,
        record s { reading = none },
        changed r.token.target r.token.epoch (text_of (decode bytes)) ∷ [],
      )
      else (false, record s { reading = some (record r { bytes = bytes }) }, [])

  unfoldable pub received : Option Reading → ℕ → ℕ → Text → Native → Clipboard → Outcome
  unfolding extended
  received none revision offset encoded n s = (false, s, [])
  received (some r) revision offset encoded n s =
      if not (revision == r.revision)
      then (false, s, [])
      else if not (valid r.token n s) || is_dash encoded
      then (
        false,
        record s { reading = none },
        if valid r.token n s then changed r.token.target r.token.epoch none ∷ [] else [],
      )
      else extended r offset encoded s

  abbrev pub is_request : ℕ → ℕ → Option (ℕ × ℕ) → Bool
  is_request revision offset none = false
  is_request revision offset (some (r, o)) = r == revision && o == offset

  unfoldable pub data_in : Option ℕ → Option ℕ → Text → Native → Clipboard → Outcome
  unfolding received
  data_in (some revision) (some offset) encoded n s =
      if not (is_request revision offset s.request) || not (well_encoded encoded)
      then (true, s, [])
      else then_pump (received s.reading revision offset encoded n (record s { request = none }))
  data_in _ _ encoded n s = (true, s, [])

  unfoldable pub observe_data : List Text → Native → Clipboard → Outcome
  unfolding data_in
  observe_data (r ∷ o ∷ encoded ∷ []) n s =
      data_in (within 1 max_id (number r)) (within 0 limit (number o)) encoded n s
  observe_data _ n s = (true, s, [])

  -- `fields` is the record; `id` is that of the token that may be made.
  unfoldable pub observe : ℕ → List Text → Native → Clipboard → Outcome
  observe id [] n s = (not s.closed, s, [])
  observe id (kind ∷ fields) n s =
      if s.closed
      then (false, s, [])
      else if text_eq kind (codes "clipboard-published")
      then observe_publication true fields n s
      else if text_eq kind (codes "clipboard-rejected")
      then observe_publication false fields n s
      else if text_eq kind (codes "clipboard-state")
      then observe_state id fields n s
      else if text_eq kind (codes "clipboard-data")
      then observe_data fields n s
      else (true, s, [])

  -- What reaches the object; `n` is what the channel holds then.
  unfoldable pub step : Clipboard → Call → Clipboard × List Event
  step s (commits t value callback answer n) = settled (commit t value callback answer n s)
  step s (cancels t) = (cancel t s, [])
  step s (observes id fields n) = settled (observe id fields n s)
  step s invalidates = (invalidate s, [])
  step s closes = close s

  unfoldable pub run : Clipboard → List Call → Clipboard
  run s [] = s
  run s (c ∷ cs) = run (step s c).0 cs
