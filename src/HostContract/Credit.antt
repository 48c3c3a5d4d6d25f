-- ===== src/HostContract/Credit.antt =====
-- `FrameCredit` of host_desktop_contract.py: how many frames may be on their way to the viewer.
use floe_native_apps.Prelude.{
  ℕ, ◌+◌, ◌-◌, ◌≤◌, ◌≡◌, ◌↔◌, refl, max, Option, none, some, List, [], ◌∷◌, arith, leb,
  if◌then◌else◌, Result, ok, err, subst,
}
use floe_native_apps.Python.Value.{Value}
use floe_native_apps.HostContract.{ErrorCode, invalid_argument, invalid_frame, integer}

pub record FrameCredit : Type 0 where
  pub capacity : ℕ
  pub sequence : ℕ
  pub acknowledged : ℕ

unfoldable pub new : Value → Result ErrorCode FrameCredit
new capacity = elim (integer capacity 1 8) [
  | none ↦ err invalid_argument
  | some n ↦ ok (record { capacity = n; sequence = 0; acknowledged = 0 })
]

-- `acknowledged` never passes `sequence` (below), so the difference is Python's.
unfoldable pub pending : FrameCredit → ℕ
pending c = c.sequence - c.acknowledged

-- The frame reserved, or `none` where the credit is used up.
unfoldable pub reserve : FrameCredit → Option ℕ × FrameCredit
reserve c =
    if leb c.capacity (pending c)
    then (none, c)
    else (some (c.sequence + 1), record c { sequence = c.sequence + 1 })

unfoldable pub acknowledge : Value → FrameCredit → Result ErrorCode FrameCredit
acknowledge frame c = elim (integer frame 1 c.sequence) [
  | none ↦ err invalid_frame
  | some f ↦ ok (record c { acknowledged = max c.acknowledged f })
]

unfoldable pub reset : FrameCredit → FrameCredit
reset c = record c { acknowledged = c.sequence }

pub data Call : Type 0 where
  reserves : Call
  acknowledges : Value → Call
  resets : Call

abbrev after : FrameCredit → Result ErrorCode FrameCredit → FrameCredit
after c (ok d) = d
after c (err e) = c

unfoldable pub step : FrameCredit → Call → FrameCredit
unfolding reserve acknowledge reset pending
step c reserves = (reserve c).1
step c (acknowledges f) = after c (acknowledge f c)
step c resets = reset c

unfoldable pub run : FrameCredit → List Call → FrameCredit
run c [] = c
run c (x ∷ xs) = run (step c x) xs

abbrev prepend : Option ℕ → List ℕ → List ℕ
prepend none fs = fs
prepend (some f) fs = f ∷ fs

abbrev handed : Call → FrameCredit → List ℕ → List ℕ
handed reserves c fs = prepend (reserve c).0 fs
handed _ c fs = fs

-- The frames that `reserve` hands out on the way, oldest first.
unfoldable pub reserved : FrameCredit → List Call → List ℕ
reserved c [] = []
reserved c (x ∷ xs) = handed x c (reserved (step c x) xs)

pub record IsWithin (c : FrameCredit) : Type 0 where
  pub capacity : (1 ≤ c.capacity) × (c.capacity ≤ 8)
  pub seen : c.acknowledged ≤ c.sequence
  pub window : c.sequence ≤ c.acknowledged + c.capacity

step-IsWithin : (c : FrameCredit) (x : Call) → IsWithin c → IsWithin (step c x)
unfolding step integer
step-IsWithin c reserves h = ground arith
step-IsWithin c (acknowledges f) h = ground arith
step-IsWithin c resets h = ground arith

run-IsWithin_from : (c : FrameCredit) (xs : List Call) → IsWithin c → IsWithin (run c xs)
unfolding run
run-IsWithin_from c [] h = h
run-IsWithin_from c (x ∷ xs) h = run-IsWithin_from (step c x) xs (step-IsWithin c x h)

new-IsWithin : (v : Value) {c : FrameCredit} → new v ≡ ok c → IsWithin c
unfolding new integer
new-IsWithin v h = ground arith

-- Whatever is called on a credit that `new` made, at most `capacity` frames, and so at most 8, are
-- reserved beyond the last one acknowledged.
pub run-IsWithin :
    (v : Value) (xs : List Call) {c : FrameCredit} → new v ≡ ok c → IsWithin (run c xs)
run-IsWithin v xs {c} h = run-IsWithin_from c xs (new-IsWithin v h)

reserve_refused : (c : FrameCredit) → (reserve c).0 ≡ none → (step c reserves).sequence ≡ c.sequence
unfolding step
reserve_refused c e = ground arith

reserve_granted :
    (c : FrameCredit) {f : ℕ}
    → (reserve c).0 ≡ some f
    → (f ≡ c.sequence + 1) × ((step c reserves).sequence ≡ f)
unfolding step
reserve_granted c e = ground arith

acknowledge_sequence :
    (c : FrameCredit) (f : Value) → (step c (acknowledges f)).sequence ≡ c.sequence
unfolding step
acknowledge_sequence c f = ground arith

reset_sequence : (c : FrameCredit) → (step c resets).sequence ≡ c.sequence
unfolding step
reset_sequence c = refl

-- `Consecutive n fs`: the frames n + 1, n + 2 and so on.
abbrev pub Consecutive : ℕ → List ℕ → Type 0
Consecutive n [] = Unit
Consecutive n (f ∷ fs) = (f ≡ n + 1) × Consecutive f fs

prepend-Consecutive :
    (c : FrameCredit) (o : Option ℕ) (fs : List ℕ)
    → (reserve c).0 ≡ o
    → Consecutive (step c reserves).sequence fs
    → Consecutive c.sequence (prepend o fs)
prepend-Consecutive c none fs e h = subst (λ n. Consecutive n fs) (reserve_refused c e) h
prepend-Consecutive c (some f) fs e h =
    ((reserve_granted c e).0, subst (λ n. Consecutive n fs) (reserve_granted c e).1 h)

-- Frames are numbered without gaps and never twice, whatever is acknowledged or reset between them.
pub reserved-Consecutive :
    (c : FrameCredit) (xs : List Call) → Consecutive c.sequence (reserved c xs)
unfolding reserved
reserved-Consecutive c [] = tt
reserved-Consecutive c (reserves ∷ xs) =
    prepend-Consecutive c (reserve c).0 (reserved (step c reserves) xs) refl
      (reserved-Consecutive (step c reserves) xs)
reserved-Consecutive c (acknowledges f ∷ xs) =
    subst (λ n. Consecutive n (reserved (step c (acknowledges f)) xs)) (acknowledge_sequence c f)
      (reserved-Consecutive (step c (acknowledges f)) xs)
reserved-Consecutive c (resets ∷ xs) =
    subst (λ n. Consecutive n (reserved (step c resets) xs)) (reset_sequence c)
      (reserved-Consecutive (step c resets) xs)

-- A credit within its window refuses a frame exactly when `capacity` frames are unacknowledged.
pub reserve-none :
    (c : FrameCredit)
    → IsWithin c
    → ((reserve c).0 ≡ none) ↔ (c.sequence ≡ c.acknowledged + c.capacity)
unfolding reserve pending
reserve-none c h = (λ e. ground arith, λ e. ground arith)
