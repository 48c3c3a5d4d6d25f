-- ===== src/HeldInput.antt =====
-- host_desktop_input.py: the physical keys, and the keys and buttons that the helper holds down.
-- The backend's `key` and `button` are an interface over an arbitrary world, and may raise.
mod Keys
pub mod Release
mod Examples
pub use Keys.{key_codes, physical_key, physical_key_injective}
use floe_native_apps.Prelude.{
  ℕ, ◌≡◌, Bool, true, false, not, ◌&&◌, ◌||◌, Option, none, some, List, [], ◌∷◌, ◌++◌, ◌==◌,
  if◌then◌else◌, any, keep_if, Result, ok, err,
}

-- The two methods of a backend, which differ in the input that they send.
pub data Kind : Type 0 where
  key button : Kind

-- A call of the backend returns the world, and whether it raised.
pub record Backend (W : Type 0) : Type 0 where
  pub send : Kind → ℕ → Bool → W → W × Bool

-- A call of the backend.
pub record Sent : Type 0 where
  pub kind : Kind
  pub code : ℕ
  pub down : Bool

-- `sent` is no field of the program: it lists the calls of the backend, the latest first.
pub record Held (W : Type 0) : Type 0 where
  pub keys : List ℕ
  pub buttons : List ℕ
  pub sent : List Sent
  pub world : W

-- How a method returns.
pub data Outcome : Type 0 where
  returned : Outcome
  raised : Outcome
  keys_held : Outcome

abbrev pub contains : ℕ → List ℕ → Bool
contains code s = any (λ c. c == code) s

-- set.add and set.discard.
abbrev pub add : ℕ → List ℕ → List ℕ
add code s = if contains code s then s else code ∷ s

abbrev pub discard : ℕ → List ℕ → List ℕ
discard code s = keep_if (λ c. not (c == code)) s

abbrev pub held : {W : Type 0} → Kind → Held W → List ℕ
held key h = h.keys
held button h = h.buttons

abbrev pub hold : {W : Type 0} → Kind → List ℕ → Held W → Held W
hold key s h = record h { keys = s }
hold button s h = record h { buttons = s }

unfoldable pub new : {W : Type 0} → W → Held W
new w = record { keys = []; buttons = []; sent = []; world = w }

module _ {W : Type 0} (b : Backend W) where
  -- One call of the backend.
  unfoldable pub emit : Kind → ℕ → Bool → Held W → Held W × Bool
  emit k code down h =
      let (w, failed) = b.send k code down h.world in
      (
        record h { sent = record { kind = k; code = code; down = down } ∷ h.sent; world = w },
        failed,
      )

  abbrev outcome : Bool → Outcome
  outcome true = raised
  outcome false = returned

  press_in : Kind → ℕ → Held W → Held W × Outcome
  unfolding emit
  press_in k code h =
      let (h', failed) = emit k code true (hold k (add code (held k h)) h) in (h', outcome failed)

  release_in : Kind → ℕ → Held W → Held W × Outcome
  unfolding emit
  release_in k code h =
      let (h', failed) = emit k code false h in
      if failed then (h', raised) else (hold k (discard code (held k h')) h', returned)

  -- `key` and `button`, which are one text over the two sets.
  unfoldable pub set_input : Kind → ℕ → Bool → Held W → Held W × Outcome
  unfolding press_in release_in
  set_input k code true h = press_in k code h
  set_input k code false h = if contains code (held k h) then release_in k code h else (h, returned)

  -- The loops of `release`: what the backend raises is dropped.
  unfoldable pub release_all : Kind → List ℕ → Held W → Held W
  unfolding emit
  release_all k [] h = h
  release_all k (c ∷ cs) h = release_all k cs (emit k c false h).0

  unfoldable pub release : Held W → Held W
  unfolding release_all
  release h =
      release_all button h.buttons (release_all key h.keys (record h { keys = []; buttons = [] }))

  abbrev is_empty : List ℕ → Bool
  is_empty [] = true
  is_empty (c ∷ cs) = false

  abbrev then_set : Kind → ℕ → Bool → Held W × Outcome → Held W × Outcome
  then_set k code down (h, returned) = set_input k code down h
  then_set k code down (h, other) = (h, other)

  -- Control down, V down, V up, control up; then `finally: self.release()`.
  unfoldable pub paste : Held W → Held W × Outcome
  paste h =
      let (h', o) =
        then_set key 29 false
          (then_set key 47 false (then_set key 47 true (set_input key 29 true h))) in
      if is_empty h.keys && is_empty h.buttons then (release h', o) else (h, keys_held)

pub data Call : Type 0 where
  sets : Kind → ℕ → Bool → Call
  releases pastes : Call

module _ {W : Type 0} (b : Backend W) where
  unfoldable pub step : Held W → Call → Held W
  step h (sets k code down) = (set_input b k code down h).0
  step h releases = release b h
  step h pastes = (paste b h).0

  unfoldable pub run : Held W → List Call → Held W
  run h [] = h
  run h (c ∷ cs) = run (step h c) cs
