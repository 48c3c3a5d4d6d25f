-- ===== src/DesktopControl/Reader.antt =====
-- The framing of control messages, of `encode_message` and `Peer.read`. The JSON parser, the
-- application and `authenticate` (Viewers) are an interface over an arbitrary world.
pub mod Frames
pub mod Chunks
pub mod Room
use floe_native_apps.Prelude.{
  ℕ, zero, suc, ◌+◌, ◌*◌, ◌/◌, ◌%◌, ◌≡◌, Bool, true, false, not, ◌&&◌, ◌||◌, Option, none, some,
  List, [], ◌∷◌, ◌++◌, leb, ltb, ◌==◌, if◌then◌else◌, length, take, drop,
}
use floe_native_apps.Python.Text.{Text, codes}
use floe_native_apps.Python.Int.{pos}
use floe_native_apps.Python.Value.{Value, int, text, object, Fields}
use floe_native_apps.DesktopControl.Viewers.{get_field}

abbrev pub Bytes : Type 0
Bytes = List ℕ

abbrev pub max_message : ℕ
max_message = 131072

-- struct.pack('!I', n) for n < 2 ** 32, and its inverse.
unfoldable pub pack : ℕ → Bytes
pack n = n / 16777216 % 256 ∷ n / 65536 % 256 ∷ n / 256 % 256 ∷ n % 256 ∷ []

unfoldable pub unpack : ℕ → ℕ → ℕ → ℕ → ℕ
unpack a b c d = a * 16777216 + b * 65536 + c * 256 + d

-- `body` is the text of json.dumps, encoded; `none` is the ValueError.
unfoldable pub encode_message : Bytes → ℕ → Option Bytes
unfolding pack
encode_message body maximum =
    if ltb 0 (length body) && leb (length body) maximum
    then some (1 ∷ pack (length body) ++ body)
    else none

-- `parse` is json.loads, with none where it raises. `admit` tells whether the peer is authenticated
-- then, and whether it is closed; `request` tells whether it is closed.
pub record App (W : Type 0) : Type 0 where
  pub parse : Bytes → Option Value
  pub admit : Fields → W → W × Bool × Bool
  pub request : Fields → W → W × Bool

pub record Reader (W : Type 0) : Type 0 where
  pub input : Bytes
  pub authenticated : Bool
  pub closed : Bool
  pub world : W

-- What the loop finds at the start of the input: too little, a bad header, or a message and the rest.
pub data Split : Type 0 where
  short bad : Split
  whole : Bytes → Bytes → Split

body_of : ℕ → Bytes → Split
body_of n rest = if ltb (length rest) n then short else whole (take n rest) (drop n rest)

unfoldable pub split : Bytes → Split
unfolding body_of unpack
split (k ∷ a ∷ b ∷ c ∷ d ∷ rest) =
    if not (k == 1) || unpack a b c d == 0 || ltb max_message (unpack a b c d)
    then bad
    else body_of (unpack a b c d) rest
split _ = short

abbrev is_id : Option Value → Bool
is_id (some (int (pos n))) = leb 1 n && leb n 9007199254740991
is_id _ = false

abbrev is_method : Option Value → Bool
is_method (some (text t)) = leb 1 (length t) && leb (length t) 64
is_method _ = false

unfoldable pub is_request : Fields → Bool
unfolding get_field
is_request fields =
    is_id (get_field (codes "id") fields) && is_method (get_field (codes "method") fields)

module _ {W : Type 0} (app : App W) where
  -- `Peer.close`, as far as the reader sees it.
  abbrev pub shut : Reader W → Reader W
  shut r = record r { closed = true; input = [] }

  abbrev pub shut_if : Bool → Reader W → Reader W
  shut_if c r = if c then shut r else r

  unfoldable pub admission : Fields → Reader W → Reader W
  admission fields r =
      let (w, authenticated, closed) = app.admit fields r.world in
      shut_if closed (record r { authenticated = authenticated; world = w })

  unfoldable pub request : Fields → Reader W → Reader W
  request fields r =
      let (w, closed) = app.request fields r.world in shut_if closed (record r { world = w })

  unfoldable pub parsed : Option Value → Reader W → Reader W
  unfolding admission request
  parsed (some (object fields)) r =
      if not r.authenticated
      then admission fields r
      else if is_request fields
      then request fields r
      else shut r
  parsed _ r = shut r

  -- One round of the loop of `read`, from json.loads on.
  unfoldable pub message : Bytes → Reader W → Reader W
  message body r = parsed (app.parse body) r

  -- The loop. A round takes at least six bytes, so the length of the input is enough fuel.
  unfoldable pub loop : ℕ → Reader W → Reader W
  loop zero r = r
  loop (suc fuel) r = if r.closed then r else elim (split r.input) [
    | short ↦ r
    | bad ↦ shut r
    | whole body rest ↦ loop fuel (message body (record r { input = rest }))
  ]

  abbrev pub extend : Bytes → Reader W → Reader W
  extend bs r = if r.closed then r else record r { input = r.input ++ bs }

  -- The argument is what recv returned.
  unfoldable pub read : Bytes → Reader W → Reader W
  unfolding loop
  read [] r = if r.closed then r else shut r
  read (b ∷ bs) r = loop (length r.input + length (b ∷ bs)) (extend (b ∷ bs) r)
