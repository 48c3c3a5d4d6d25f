-- ===== src/DesktopClipboard/Settled.antt =====
-- Each publication is completed at most once, or twice where its submission closes the channel.
use floe_native_apps.Prelude.{
  ℕ, ◌+◌, ◌≤◌, ◌≡◌, refl, Bool, true, false, Option, none, some, List, [], ◌∷◌, ◌++◌, ◌==◌,
  if◌then◌else◌, leb, arith, Bool-cases, ◌&&◌, ◌||◌, not, ◌-◌, inl, inr,
}
use floe_native_apps.Python.Int.{ℤ}
use floe_native_apps.Python.Text.{Text, codes, text_eq}
use floe_native_apps.Python.Number.{within, well_encoded}
use floe_native_apps.Python.Value.{Value}
use floe_native_apps.DesktopClipboard.{
  max_id, limit, token, Target, Native, ClipboardTarget, Pending, Reading, Clipboard, Event,
  completed, changed, read_sent, Outcome, Submission, submitted, refused, lost, conclude, new,
  commit, cancel, pump, invalidate, close,
}
use floe_native_apps.DesktopClipboard.Observe.{
  state_fields, state_in, data_in, is_request, publication, observe_publication, then_pump, begin,
  admitted, targeted, observe_state, extended, received, observe_data, observe, Call, commits,
  cancels, observes, invalidates, closes, step, run,
}

-- The calls of the callback `i` among the events.
abbrev pub calls_of : ℕ → List Event → ℕ
calls_of i [] = 0
calls_of i (completed j e ∷ events) = (if j == i then 1 else 0) + calls_of i events
calls_of i (changed t n x ∷ events) = calls_of i events
calls_of i (read_sent r o ∷ events) = calls_of i events

abbrev pub holds : ℕ → Option Pending → ℕ
holds i none = 0
holds i (some p) = if p.completed == i then 1 else 0

abbrev pub commits_of : ℕ → Call → ℕ
commits_of i (commits t value callback sent n) = if callback == i then 1 else 0
commits_of i _ = 0

pub committed : ℕ → List Call → ℕ
committed i [] = 0
committed i (c ∷ cs) = commits_of i c + committed i cs

abbrev pub lost_by : ℕ → Call → ℕ
lost_by i (commits t value callback lost n) = if callback == i then 1 else 0
lost_by i _ = 0

-- The commits with the callback `i` whose submission closes the channel.
pub lost_in : ℕ → List Call → ℕ
lost_in i [] = 0
lost_in i (c ∷ cs) = lost_by i c + lost_in i cs

-- What an outcome owes to the callback `i`.
abbrev owed : ℕ → Outcome → ℕ
owed i (raised, s, events) = calls_of i events + holds i s.pending

calls_of-append :
    (i : ℕ) (xs ys : List Event) → calls_of i (xs ++ ys) ≡ calls_of i xs + calls_of i ys
calls_of-append i [] ys = omega arith
calls_of-append i (completed j e ∷ xs) ys = omega (arith, calls_of-append i xs ys)
calls_of-append i (changed t n x ∷ xs) ys = omega (arith, calls_of-append i xs ys)
calls_of-append i (read_sent r o ∷ xs) ys = omega (arith, calls_of-append i xs ys)

pump-calls :
    (i : ℕ) (s : Clipboard) → calls_of i (pump s).1 + holds i (pump s).0.pending ≡ holds i s.pending
unfolding pump
pump-calls i s = ground arith

then_pump-owed :
    (number : Text → Option ℤ) (decode : List ℕ → Option Text) (i : ℕ) (o : Outcome)
    → owed i (then_pump number decode o) ≡ owed i o
unfolding then_pump
then_pump-owed number decode i (true, s, events) = refl
then_pump-owed number decode i (false, s, events) =
    omega (arith, calls_of-append i events (pump s).1, pump-calls i s)

commit-owed :
    (i : ℕ) (t : ClipboardTarget) (v : Value) (c : ℕ) (b : Submission) (n : Native) (s : Clipboard)
    → owed i (commit t v c b n s)
      ≤ commits_of i (commits t v c b n) + lost_by i (commits t v c b n) + holds i s.pending
unfolding commit conclude close
commit-owed i t v c submitted n s = ground arith
commit-owed i t v c refused n s = ground arith
commit-owed i t v c lost n s = ground arith

module _ (number : Text → Option ℤ) (decode : List ℕ → Option Text) where
  publication-owed :
      (i : ℕ) (b : Bool) (k : ℕ) (p : Option Pending) (n : Native) (s : Clipboard)
      → s.pending ≡ p
      → owed i (publication number decode b k p n s) ≤ holds i s.pending
  unfolding publication
  publication-owed i b k none n s e = omega arith
  publication-owed i b k (some p) n s e = ground arith

  observe_publication-owed :
      (i : ℕ) (b : Bool) (fields : List Text) (n : Native) (s : Clipboard)
      → owed i (observe_publication number decode b fields n s) ≤ holds i s.pending
  unfolding observe_publication
  observe_publication-owed i b [] n s = omega arith
  observe_publication-owed i b (x ∷ y ∷ zs) n s = omega arith
  observe_publication-owed i b (x ∷ []) n s =
      ground (arith, λ (k : ℕ). publication-owed i b k s.pending n s refl)

  begin-owed :
      (i r size : ℕ) (t : ClipboardTarget) (s : Clipboard)
      → owed i (begin number decode r size t s) ≤ holds i s.pending
  unfolding begin
  begin-owed i r size t s =
      let reading : Reading = record { revision = r; token = t; size = size - 1; bytes = [] } in
      elim (Bool-cases (leb size 1)) [
        | inl e ↦ simp e (omega arith)
        | inr e ↦ simp e (
            omega (
              arith,
              then_pump-owed number decode i (false, record s { reading = some reading }, []),
            ))
      ]

  admitted-owed :
      (i : ℕ) (t : Option ClipboardTarget) (r size : ℕ) (s : Clipboard)
      → owed i (admitted number decode t r size s) ≤ holds i s.pending
  unfolding admitted
  admitted-owed i none r size s = omega arith
  admitted-owed i (some t) r size s = begin-owed i r size t s

  targeted-owed :
      (i e g w id : ℕ) (t : Option Target) (n : Native) (s : Clipboard) (r size : ℕ)
      → owed i (targeted number decode e g w id t n s r size) ≤ holds i s.pending
  unfolding targeted
  targeted-owed i e g w id none n s r size = omega arith
  targeted-owed i e g w id (some t) n s r size =
      elim (Bool-cases (e == n.epoch && t.window == w && t.generation == g)) [
        | inl b ↦ simp b (admitted-owed i (token id t n s) r size s)
        | inr b ↦ simp b (omega arith)
      ]

  state_in-owed :
      (i : ℕ) (x : Option (ℕ × ℕ × ℕ × ℕ × ℕ)) (id : ℕ) (n : Native) (s : Clipboard)
      → owed i (state_in number decode x id n s) ≤ holds i s.pending
  unfolding state_in
  state_in-owed i none id n s = omega arith
  state_in-owed i (some (r, e, g, w, z)) id n s = elim (Bool-cases (leb r s.revision)) [
    | inl q ↦ simp q (omega arith)
    | inr q ↦
        simp q (targeted-owed i e g w id n.target n (record s { revision = r; reading = none }) r z)
  ]

  received-owed :
      (i : ℕ) (x : Option Reading) (r o : ℕ) (t : Text) (n : Native) (s : Clipboard)
      → owed i (received number decode x r o t n s) ≤ holds i s.pending
  unfolding received extended
  received-owed i none r o t n s = omega arith
  received-owed i (some x) r o t n s = ground arith

  data_in-owed :
      (i : ℕ) (r o : Option ℕ) (t : Text) (n : Native) (s : Clipboard)
      → owed i (data_in number decode r o t n s) ≤ holds i s.pending
  unfolding data_in
  data_in-owed i none o t n s = omega arith
  data_in-owed i (some r) none t n s = omega arith
  data_in-owed i (some r) (some o) t n s =
      let u = record s { request = none } in
      elim (Bool-cases (not (is_request number decode r o s.request) || not (well_encoded t))) [
        | inl q ↦ simp q (omega arith)
        | inr q ↦ simp q (
            omega (
              arith,
              then_pump-owed number decode i (received number decode s.reading r o t n u),
              received-owed i s.reading r o t n u,
            ))
      ]

  observe_data-owed :
      (i : ℕ) (fields : List Text) (n : Native) (s : Clipboard)
      → owed i (observe_data number decode fields n s) ≤ holds i s.pending
  unfolding observe_data
  observe_data-owed i [] n s = omega arith
  observe_data-owed i (a ∷ []) n s = omega arith
  observe_data-owed i (a ∷ b ∷ []) n s = omega arith
  observe_data-owed i (a ∷ b ∷ c ∷ []) n s =
      data_in-owed i (within 1 max_id (number a)) (within 0 limit (number b)) c n s
  observe_data-owed i (a ∷ b ∷ c ∷ d ∷ ds) n s = omega arith

  -- A record completes nothing but the publication that was pending.
  observe-owed :
      (i id : ℕ) (fields : List Text) (n : Native) (s : Clipboard)
      → owed i (observe number decode id fields n s) ≤ holds i s.pending
  unfolding observe observe_state
  observe-owed i id [] n s = omega arith
  observe-owed i id (k ∷ fields) n s = elim (Bool-cases s.closed) [
    | inl a ↦ simp a (omega arith)
    | inr a ↦ elim (Bool-cases (text_eq k (codes "clipboard-published"))) [
      | inl b ↦ simp (a, b) (observe_publication-owed i true fields n s)
      | inr b ↦ elim (Bool-cases (text_eq k (codes "clipboard-rejected"))) [
        | inl c ↦ simp (a, b, c) (observe_publication-owed i false fields n s)
        | inr c ↦ elim (Bool-cases (text_eq k (codes "clipboard-state"))) [
          | inl d ↦ simp (a, b, c, d) (state_in-owed i (state_fields number decode fields) id n s)
          | inr d ↦ elim (Bool-cases (text_eq k (codes "clipboard-data"))) [
            | inl e ↦ simp (a, b, c, d, e) (observe_data-owed i fields n s)
            | inr e ↦ simp (a, b, c, d, e) (omega arith)
          ]
        ]
      ]
    ]
  ]

  step-calls :
      (i : ℕ) (s : Clipboard) (c : Call)
      → calls_of i (step number decode s c).1 + holds i (step number decode s c).0.pending
        ≤ commits_of i c + lost_by i c + holds i s.pending
  unfolding step cancel invalidate close
  step-calls i s (commits t v c b n) = commit-owed i t v c b n s
  step-calls i s (cancels t) = ground arith
  step-calls i s (observes id fields n) = omega (arith, observe-owed i id fields n s)
  step-calls i s invalidates = omega arith
  step-calls i s closes = ground arith

  -- The calls of the callback that the methods make on the way.
  unfoldable pub completions : ℕ → Clipboard → List Call → ℕ
  completions i s [] = 0
  completions i s (c ∷ cs) =
      let (t, events) = step number decode s c in calls_of i events + completions i t cs

  run-completions :
      (i : ℕ) (s : Clipboard) (cs : List Call)
      → completions i s cs + holds i (run number decode s cs).pending
        ≤ committed i cs + lost_in i cs + holds i s.pending
  unfolding completions run committed lost_in
  run-completions i s [] = omega arith
  run-completions i s (c ∷ cs) =
      omega (arith, step-calls i s c, run-completions i (step number decode s c).0 cs)

  -- From a new object, under any calls and with any channel: the callback of a publication is called
  -- at most once for each `commit` that it was given to, and once more where the submission of that
  -- `commit` closes the channel; it has not yet been called for the publication that is pending.
  pub completions-committed :
      (i : ℕ) (cs : List Call)
      → completions i new cs + holds i (run number decode new cs).pending
        ≤ committed i cs + lost_in i cs
  unfolding new
  completions-committed i cs = omega (arith, run-completions i new cs)
