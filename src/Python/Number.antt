-- ===== src/Python/Number.antt =====
-- Numbers and bytes written as text, as the records of the native channel carry them.
use floe_native_apps.Prelude.{
  ℕ, ◌+◌, ◌-◌, ◌*◌, ◌%◌, Bool, true, false, not, ◌&&◌, ◌||◌, Option, none, some, List, [], ◌∷◌, leb,
  ◌==◌, if◌then◌else◌, length, all, any,
}
use floe_native_apps.Python.Int.{ℤ, pos, negsuc}
use floe_native_apps.Python.Text.{Text, codes, text_eq}

abbrev is_digit : ℕ → Bool
is_digit c = leb 48 c && leb c 57

-- Digits, with single underscores between them; `bare` is that a digit has to follow.
unfoldable pub digits : ℕ → Bool → Text → Option ℕ
digits n true [] = none
digits n false [] = some n
digits n bare (c ∷ cs) =
    let more = digits (n * 10 + (c - 48)) false cs in
    let next = digits n true cs in
    if is_digit c then more else if c == 95 && not bare then next else none

negate : Option ℕ → Option ℤ
negate none = none
negate (some ℕ.zero) = some (pos 0)
negate (some (ℕ.suc n)) = some (negsuc n)

positive : Option ℕ → Option ℤ
positive none = none
positive (some n) = some (pos n)

-- `int` of an ASCII text with no blanks, of at most 4300 digits; none is the ValueError.
unfoldable pub int_of_text : Text → Option ℤ
unfolding digits negate positive
int_of_text [] = none
int_of_text (c ∷ cs) =
    if c == 45
    then negate (digits 0 true cs)
    else if c == 43
    then positive (digits 0 true cs)
    else positive (digits 0 true (c ∷ cs))

-- A natural number from `low` to `high`.
abbrev pub within : ℕ → ℕ → Option ℤ → Option ℕ
within low high (some (pos n)) = if leb low n && leb n high then some n else none
within low high _ = none

abbrev is_hex : Text → Bool
is_hex = all (λ c. any (λ d. d == c) (codes "0123456789abcdef"))

abbrev hex_value : ℕ → ℕ
hex_value c = if leb c 57 then c - 48 else c - 87

-- bytes.fromhex, for an even number of hex digits.
unfoldable pub from_hex : Text → List ℕ
from_hex (a ∷ b ∷ rest) = (hex_value a * 16 + hex_value b) ∷ from_hex rest
from_hex _ = []

abbrev pub is_dash : Text → Bool
is_dash t = text_eq t (codes "-")

-- A chunk of at most 1024 bytes, or the mark for none.
abbrev pub well_encoded : Text → Bool
well_encoded t =
    is_dash t || (leb 2 (length t) && leb (length t) 2048 && length t % 2 == 0 && is_hex t)

hex_digit : ℕ → Option ℕ
hex_digit c =
    if is_digit c
    then some (c - 48)
    else if leb 97 c && leb c 102
    then some (c - 87)
    else if leb 65 c && leb c 70
    then some (c - 55)
    else none

hex_byte : Option ℕ → Option ℕ → Option (List ℕ) → Option (List ℕ)
hex_byte (some a) (some b) (some rest) = some ((a * 16 + b) ∷ rest)
hex_byte _ _ _ = none

-- bytes.fromhex of any text with no blanks; none is the ValueError.
unfoldable pub bytes_from_hex : Text → Option (List ℕ)
unfolding hex_digit hex_byte
bytes_from_hex [] = some []
bytes_from_hex (a ∷ []) = none
bytes_from_hex (a ∷ b ∷ rest) = hex_byte (hex_digit a) (hex_digit b) (bytes_from_hex rest)
