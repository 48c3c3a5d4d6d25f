-- ===== src/DesktopControl/Viewers.antt =====
-- The viewers of `DesktopControl`, and which of them has input authority. An open `Peer` is one in
-- `peers`; `id` is the object's identity, and the set of peers is a list in the order of arrival. What
-- the application is told is a list of events: a close that it causes is a later call.
pub mod Authority
use floe_native_apps.Prelude.{
  ℕ, suc, ◌+◌, ◌≡◌, Bool, true, false, not, ◌&&◌, ◌||◌, Option, none, some, List, [], ◌∷◌, ◌++◌,
  leb, ltb, ◌==◌, if◌then◌else◌, length, keep_if, map, all, any,
}
use floe_native_apps.Python.Text.{Text, codes, text_eq}
use floe_native_apps.Python.Int.{pos}
use floe_native_apps.Python.Value.{Value, int, text, object, Fields, end, field}

pub record Viewer : Type 0 where
  pub id : ℕ
  pub authenticated : Bool
  pub sequence : ℕ

pub record Control : Type 0 where
  pub instance_name : Text
  pub token : Text
  pub peers : List Viewer
  pub current : Option ℕ
  pub closed : Bool
  pub sequence : ℕ
  pub next_id : ℕ

pub data Event : Type 0 where
  attach detach : ℕ → Event
  takeover : Option ℕ → Option ℕ → Event

abbrev pub max_peers : ℕ
max_peers = 8

unfoldable pub new : Text → Text → Control
new instance_name token = record {
  instance_name = instance_name;
  token = token;
  peers = [];
  current = none;
  closed = false;
  sequence = 0;
  next_id = 0;
}

-- One connection of the loop of `accept`; `same_user` is that the peer has this user's id.
unfoldable pub accept : Bool → Control → Control
accept same_user s =
    let v : Viewer = record { id = s.next_id; authenticated = false; sequence = 0 } in
    if s.closed || leb max_peers (length s.peers) || not same_user
    then s
    else record s { peers = s.peers ++ v ∷ []; next_id = s.next_id + 1 }

-- message.get(key), where the keys of a JSON object are distinct (`unique_object`).
unfoldable pub get_field : Text → Fields → Option Value
get_field key end = none
get_field key (field k v fs) = if text_eq k key then some v else get_field key fs

abbrev keys : Fields → List Text
keys end = []
keys (field k v fs) = k ∷ keys fs

abbrev hex_digits : Text
hex_digits = codes "0123456789abcdef"

abbrev is_hex : Text → Bool
is_hex = all (λ c. any (λ d. d == c) hex_digits)

abbrev is_text : Option Value → Text → Bool
is_text (some (text t)) expected = text_eq t expected
is_text _ expected = false

abbrev is_version : Option Value → Bool
is_version (some (int (pos n))) = n == 1
is_version _ = false

abbrev is_token : Option Value → Text → Bool
is_token (some (text t)) token = length t == 64 && is_hex t && text_eq t token
is_token _ token = false

-- The test of `authenticate`: exactly the three fields, with version 1, this instance and this token.
unfoldable pub is_authentic : Fields → Control → Bool
unfolding get_field
is_authentic message s =
    length (keys message) == 3
    && is_version (get_field (codes "version") message)
    && is_text (get_field (codes "instance") message) s.instance_name
    && is_token (get_field (codes "token") message) s.token

abbrev is_viewer : ℕ → Viewer → Bool
is_viewer i v = v.id == i

-- max(peers, key=sequence) over the authenticated ones: the first of the greatest.
unfoldable pub newest : List Viewer → Option Viewer
newest [] = none
newest (v ∷ vs) =
    let rest = newest vs in
    if v.authenticated
    then elim rest [ none ↦ some v | some w ↦ if ltb v.sequence w.sequence then some w else some v ]
    else rest

abbrev pub id_of : Option Viewer → Option ℕ
id_of none = none
id_of (some v) = some v.id

abbrev pub is_current : ℕ → Option ℕ → Bool
is_current i none = false
is_current i (some j) = j == i

abbrev find : ℕ → List Viewer → Option Viewer
find i [] = none
find i (v ∷ vs) = if is_viewer i v then some v else find i vs

abbrev was_authenticated : Option Viewer → Bool
was_authenticated none = false
was_authenticated (some v) = v.authenticated

abbrev is_open : Option Viewer → Bool
is_open none = false
is_open (some v) = true

-- `Peer.close`, for a peer that is open.
unfoldable pub close_peer : ℕ → Control → Control × List Event
unfolding newest
close_peer i s =
    let found = find i s.peers in
    let remaining = keep_if (λ v. not (is_viewer i v)) s.peers in
    let left = if was_authenticated found then detach i ∷ [] else [] in
    let replacement = id_of (newest remaining) in
    if not (is_open found)
    then (s, [])
    else if is_current i s.current
    then (
      record s { peers = remaining; current = replacement },
      left ++ takeover (some i) replacement ∷ [],
    )
    else (record s { peers = remaining }, left)

-- The loop of `close`, over the peers as they were.
unfoldable pub close_all : List Viewer → Control → Control × List Event
close_all [] s = (s, [])
close_all (v ∷ vs) s =
    let (t, events) = close_peer v.id s in let (u, later) = close_all vs t in (u, events ++ later)

-- `DesktopControl.close`, without the socket and its file.
unfoldable pub close : Control → Control × List Event
unfolding close_all
close s = if s.closed then (s, []) else close_all s.peers (record s { closed = true })

-- The viewer `i` with the sequence `n`, authenticated.
unfoldable pub admitted : ℕ → ℕ → List Viewer → List Viewer
admitted i n [] = []
admitted i n (v ∷ vs) =
    (if is_viewer i v then record v { authenticated = true; sequence = n } else v) ∷ admitted i n vs

-- A message of a peer that is open and not yet authenticated.
unfoldable pub authenticate : ℕ → Fields → Control → Control × List Event
unfolding admitted
authenticate i message s =
    if is_authentic message s
    then (
      record s {
        sequence = s.sequence + 1;
        peers = admitted i (s.sequence + 1) s.peers;
        current = some i;
      },
      attach i ∷ takeover s.current (some i) ∷ [],
    )
    else close_peer i s

-- The reads, timers and failures that reach the viewers.
pub data Call : Type 0 where
  accepts : Bool → Call
  authenticates : ℕ → Fields → Call
  closes : ℕ → Call
  shuts : Call

unfoldable pub step : Control → Call → Control
step s (accepts u) = accept u s
step s (authenticates i message) =
    if is_open (find i s.peers) && not (was_authenticated (find i s.peers))
    then (authenticate i message s).0
    else s
step s (closes i) = (close_peer i s).0
step s shuts = (close s).0

unfoldable pub run : Control → List Call → Control
run s [] = s
run s (c ∷ cs) = run (step s c) cs
