-- ===== src/InputContext.antt =====
-- input_context.py: `Contexts`, which hands one confirmed text at a time to a toolkit on the private
-- bus. The bus, the clock, the marker and the display are outside: a method takes what they answer as
-- arguments. `completed` is the last thing that a method calls, so a method returns that call.
pub mod Sequence
pub mod Completion
mod Examples
use floe_native_apps.Prelude.{
  ℕ, suc, ◌+◌, max, ◌≡◌, refl, Bool, true, false, not, ◌&&◌, ◌||◌, Option, none, some, List, [],
  ◌∷◌, ◌++◌, leb, ltb, ◌==◌, if◌then◌else◌, Dict, get, put, remove, nat_key, keep_values, any,
}
use floe_native_apps.Python.Text.{Text, codes, text_eq}

pub record Context : Type 0 where
  pub sender : Text
  pub toolkit : Text
  pub unsupported : Bool

-- (pid, xid, sender)
pub record Token : Type 0 where
  pub pid : ℕ
  pub xid : ℕ
  pub sender : Text

-- The dictionary in `self.pending`: `text` is none once it was popped, and `completed` names the
-- callback.
pub record Operation : Type 0 where
  pub token : Token
  pub sender : Text
  pub xid : ℕ
  pub sequence : ℕ
  pub text : Option Text
  pub completed : ℕ

-- `taken` is no field of the program: it lists the sequences whose text was handed out, with whom to.
pub record Contexts : Type 0 where
  pub contexts : Dict ℕ Context
  pub pending : Option Operation
  pub sequence : ℕ
  pub taken : List (Text × ℕ)

pub data InputError : Type 0 where
  context_unavailable module_version_unsupported session_exhausted marker_unavailable
        target_unavailable :
      InputError

-- A call of `completed`: which one, and with what error.
abbrev pub CallBack : Type 0
CallBack = Option (ℕ × Option InputError)

unfoldable pub new : Contexts
new = record { contexts = []; pending = none; sequence = 0; taken = [] }

abbrev pub max_sequence : ℕ
max_sequence = 0xffffffff

finish_in : Option Operation → Option InputError → Contexts → Contexts × CallBack
finish_in none error s = (record s { pending = none }, none)
finish_in (some o) error s = (record s { pending = none }, some (o.completed, error))

-- `_finish`.
unfoldable pub finish : Option InputError → Contexts → Contexts × CallBack
unfolding finish_in
finish error s = finish_in s.pending error s

abbrev pub sent_by : Text → Option Operation → Bool
sent_by sender none = false
sent_by sender (some o) = text_eq o.sender sender

-- `_owner_changed`: `gone` is that the signal names no new owner.
unfoldable pub owner_changed : Text → Bool → Contexts → Contexts × CallBack
owner_changed sender gone s =
    let t = record s { contexts = keep_values (λ c. not (text_eq c.sender sender)) s.contexts } in
    if not gone
    then (s, none)
    else if sent_by sender s.pending
    then finish (some context_unavailable) t
    else (t, none)

token_of : ℕ → ℕ → Option Context → Option Token
token_of xid pid none = none
token_of xid pid (some c) = some (record { pid = pid; xid = xid; sender = c.sender })

unfoldable pub context_for : ℕ → ℕ → Contexts → Option Token
unfolding token_of
context_for xid pid s = token_of xid pid (get pid s.contexts)

abbrev is_some {ℓ} : {A : Type ℓ} → Option A → Bool
is_some none = false
is_some (some a) = true

-- `self.contexts.get(pid, {}).get('sender') != sender`
abbrev is_owner : Text → Option Context → Bool
is_owner sender none = false
is_owner sender (some c) = text_eq c.sender sender

abbrev is_unsupported : Option Context → Bool
is_unsupported none = false
is_unsupported (some c) = c.unsupported

-- The new pending operation, and whether the marker for it could be sent.
begin : Token → Text → ℕ → ℕ → Bool → Contexts → Contexts × CallBack
begin token text completed sequence marked s =
    let t = record s {
      sequence = sequence;
      pending = some (record {
        token = token;
        sender = token.sender;
        xid = token.xid;
        sequence = sequence;
        text = some text;
        completed = completed;
      });
    } in
    if ltb max_sequence sequence
    then (record s { sequence = sequence }, some (completed, some session_exhausted))
    else if marked
    then (t, none)
    else finish (some marker_unavailable) t

-- `clock` is the reading of `marker_clock`, `marked` the answer of `marker`.
unfoldable pub commit : Token → Text → ℕ → ℕ → Bool → Contexts → Contexts × CallBack
unfolding begin
commit token text completed clock marked s =
    if is_some s.pending || not (is_owner token.sender (get token.pid s.contexts))
    then (s, some (completed, some context_unavailable))
    else if is_unsupported (get token.pid s.contexts)
    then (s, some (completed, some module_version_unsupported))
    else begin token text completed (max (s.sequence + 1) clock) marked s

abbrev pub token_eq : Token → Token → Bool
token_eq a b = a.pid == b.pid && a.xid == b.xid && text_eq a.sender b.sender

abbrev has_token : Token → Option Operation → Bool
has_token token none = false
has_token token (some o) = token_eq o.token token

unfoldable pub cancel : Token → Contexts → Contexts
cancel token s = if has_token token s.pending then record s { pending = none } else s

abbrev matches : Text → ℕ → Operation → Bool
matches sender sequence o = text_eq o.sender sender && o.sequence == sequence

hand_over : Operation → Option Text → Bool → Contexts → Option (ℕ × Text) × Contexts × CallBack
hand_over o none admitted s = (none, s, none)
hand_over o (some text) admitted s =
    let (t, call) = finish (some target_unavailable) s in
    if admitted
    then (
      some (o.sequence, text),
      record s {
        pending = some (record o { text = none });
        taken = (o.sender, o.sequence) ∷ s.taken;
      },
      none,
    )
    else (none, t, call)

take_in : Option Operation → Text → ℕ → Bool → Contexts → Option (ℕ × Text) × Contexts × CallBack
unfolding hand_over
take_in none sender sequence admitted s = (none, s, none)
take_in (some o) sender sequence admitted s =
    if matches sender sequence o then hand_over o o.text admitted s else (none, s, none)

-- `admitted` is that the display has the window below the target, and the target focused.
unfoldable pub take : Text → ℕ → Bool → Contexts → Option (ℕ × Text) × Contexts × CallBack
unfolding take_in
take sender sequence admitted s = take_in s.pending sender sequence admitted s

done_in : Option Operation → Text → ℕ → Contexts → Bool × Contexts × CallBack
done_in none sender sequence s = (false, s, none)
done_in (some o) sender sequence s =
    let (t, call) = finish none s in
    if not (matches sender sequence o) || is_some o.text then (false, s, none) else (true, t, call)

unfoldable pub done : Text → ℕ → Contexts → Bool × Contexts × CallBack
unfolding done_in
done sender sequence s = done_in s.pending sender sequence s

abbrev toolkits : List Text
toolkits = codes "gtk3" ∷ codes "gtk4" ∷ codes "qt5" ∷ codes "qt6" ∷ []

-- The replies of the `Register` method.
pub data Reply : Type 0 where
  registered invalid_version duplicate_owner : Reply

abbrev owned_by_other : Text → Option Context → Bool
owned_by_other sender none = false
owned_by_other sender (some c) = not (text_eq c.sender sender)

-- The `Register` branch of `_call`; `pid` is the answer of the bus.
unfoldable pub register : Text → ℕ → ℕ → Text → Contexts → Reply × Contexts
register sender pid version toolkit s =
    let context : Context = record {
      sender = sender;
      toolkit = toolkit;
      unsupported = not (version == 1);
    } in
    let t = record s { contexts = put pid context s.contexts } in
    if not (any (text_eq toolkit) toolkits)
    then (invalid_version, s)
    else if owned_by_other sender (get pid s.contexts)
    then (duplicate_owner, s)
    else if version == 1
    then (registered, t)
    else (invalid_version, t)

unfoldable pub close : Contexts → Contexts
close s = record s { pending = none; contexts = [] }

pub data Call : Type 0 where
  owner_changes : Text → Bool → Call
  commits : Token → Text → ℕ → ℕ → Bool → Call
  cancels : Token → Call
  takes : Text → ℕ → Bool → Call
  dones : Text → ℕ → Call
  registers : Text → ℕ → ℕ → Text → Call
  closes : Call

unfoldable pub step : Contexts → Call → Contexts × CallBack
step s (owner_changes sender gone) = owner_changed sender gone s
step s (commits token text completed clock marked) = commit token text completed clock marked s
step s (cancels token) = (cancel token s, none)
step s (takes sender sequence admitted) =
    let (r, t, call) = take sender sequence admitted s in (t, call)
step s (dones sender sequence) = let (r, t, call) = done sender sequence s in (t, call)
step s (registers sender pid version toolkit) = ((register sender pid version toolkit s).1, none)
step s closes = (close s, none)

unfoldable pub run : Contexts → List Call → Contexts
run s [] = s
run s (c ∷ cs) = run (step s c).0 cs
