-- ===== src/DesktopNative/Channel.antt =====
-- `NativeChannel`: the lines of the native channel, and what waits to be written to it. The callback
-- `observed` for a line is a script over an arbitrary world: it may send and close on this channel, and
-- go on by what became of a send, and then it returns or raises.
pub mod Bounds
pub mod Flush
use floe_native_apps.Prelude.{
  ℕ, zero, suc, ◌+◌, ◌≤◌, ◌≡◌, refl, ◌⊎◌, inl, inr, min, Bool, true, false, not, ◌&&◌, ◌||◌, Option,
  none, some, List, [], ◌∷◌, ◌++◌, leb, ltb, ◌==◌, if◌then◌else◌, length, length-append,
  length-drop, take, drop, all, arith, Bool-cases,
}
use floe_native_apps.DesktopControl.Reader.{Bytes}

abbrev pub max_buffer : ℕ
max_buffer = 131072

abbrev pub max_record : ℕ
max_record = 4096

-- `reports` and `escaped` are no fields of the program: the number of calls of `lost`, and whether an
-- exception that is neither an OSError nor a ValueError has left `read`, which keeps the lines that follow.
pub record Channel (W : Type 0) : Type 0 where
  pub input : Bytes
  pub output : Bytes
  pub closed : Bool
  pub reports : ℕ
  pub escaped : Bool
  pub world : W

unfoldable pub new : {W : Type 0} → W → Channel W
new w = record { input = []; output = []; closed = false; reports = 0; escaped = false; world = w }

unfoldable pub close : {W : Type 0} → Channel W → Channel W
close c =
    if c.closed
    then c
    else record c { closed = true; input = []; output = []; reports = c.reports + 1 }

abbrev is_ascii : Bytes → Bool
is_ascii = all (λ b. ltb b 128)

abbrev ends_line : Bytes → Bool
ends_line [] = false
ends_line (b ∷ []) = b == 10
ends_line (b ∷ c ∷ rest) = ends_line (c ∷ rest)

-- Whether it raised; the commands are code points.
unfoldable pub send : {W : Type 0} → Bytes → Channel W → Bool × Channel W
unfolding close
send commands c =
    if not (is_ascii commands) || c.closed
    then (true, c)
    else if not (ends_line commands) || ltb max_buffer (length c.output + length commands)
    then (true, close c)
    else (false, record c { output = c.output ++ commands })

-- What the socket does with the bytes that it is offered.
pub data Answer : Type 0 where
  takes : ℕ → Answer
  blocks fails : Answer

write_in : {W : Type 0} → Answer → Channel W → Channel W
unfolding close
write_in blocks c = c
write_in fails c = close c
write_in (takes n) c =
    let count = min n (min 16384 (length c.output)) in
    if count == 0 then close c else record c { output = drop count c.output }

is_empty : Bytes → Bool
is_empty [] = true
is_empty (b ∷ bs) = false

unfoldable pub write : {W : Type 0} → Answer → Channel W → Channel W
unfolding write_in is_empty
write answer c = if c.closed || is_empty c.output then c else write_in answer c

-- The bytes before the first line feed.
unfoldable pub index : Bytes → Option ℕ
index [] = none
index (b ∷ bs) = elim (index bs) [
  | none ↦ if b == 10 then some 0 else none
  | some n ↦ if b == 10 then some 0 else some (n + 1)
]

-- How the callback ends: an OSError or a ValueError is handled, another exception is not.
pub data Ending : Type 0 where
  returns raises escapes : Ending

-- What the callback does with the channel; a send is told whether it raised.
pub data Script (W : Type 0) : Type 0 where
  ends : W → Ending → Script W
  sends : Bytes → (Bool → Script W) → Script W
  closes : Script W → Script W

unfoldable pub play : {W : Type 0} → Script W → Channel W → Ending × Channel W
play (ends w e) c = (e, record c { world = w })
play (sends commands next) c = let (raised, d) = send commands c in play (next raised) d
play (closes next) c = play next (close c)

-- The `except` of `read`.
unfoldable pub finish : {W : Type 0} → Ending × Channel W → Channel W
unfolding close
finish (returns, c) = c
finish (raises, c) = close c
finish (escapes, c) = record c { escaped = true }

abbrev pub goes_on : Ending → Bool
goes_on returns = true
goes_on _ = false

module _ {W : Type 0} (observed : Bytes → W → Script W) where
  -- A line that was taken from the input.
  unfoldable pub line : Bytes → Channel W → Ending × Channel W
  unfolding play
  line bytes c = if not (is_ascii bytes) then (raises, c) else play (observed bytes c.world) c

  -- The loop of `read`, and the test after it. A round takes at least one byte.
  unfoldable pub loop : ℕ → Option ℕ → Channel W → Channel W
  unfolding finish
  loop zero boundary c = c
  loop (suc fuel) none c = if ltb max_record (length c.input) then close c else c
  loop (suc fuel) (some n) c =
      let o = line (take n c.input) (record c { input = drop (suc n) c.input }) in
      let rest = loop fuel (index o.1.input) o.1 in
      if ltb max_record n
      then close c
      else if not (goes_on o.0) || o.1.closed
      then finish o
      else rest

  -- The argument is what recv returned, of at most 16384 bytes.
  unfoldable pub read : Bytes → Channel W → Channel W
  unfolding loop
  read [] c = close c
  read (b ∷ bs) c =
      let t = record c { input = c.input ++ b ∷ bs } in
      if c.closed then c else loop (suc (length t.input)) (index t.input) t
