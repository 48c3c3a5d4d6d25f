-- ===== src/Python/Text.antt =====
-- Python's `str` as its code points, `str.encode('utf-8')`, and the two text checks of the program
-- (`valid_text` in input_order.py, `text_value` in host_desktop_contract.py).
use Prim.Native.Char.{code}
use Prim.Native.String.{String}
use floe_native_apps.Prelude.{
  ℕ, ◌+◌, ◌/◌, ◌%◌, Bool, false, not, ◌&&◌, Option, none, some, List, [], ◌∷◌, ◌++◌, ltb, leb, ◌==◌,
  if◌then◌else◌, length, any, ◌≡◌, refl, true, false, arith,
}

abbrev pub Text : Type 0
Text = List ℕ

-- A surrogate code point, which UTF-8 cannot encode.
abbrev pub is_surrogate : ℕ → Bool
is_surrogate c = leb 0xd800 c && leb c 0xdfff

unfoldable pub encode_char : ℕ → List ℕ
encode_char c =
    if ltb c 0x80
    then c ∷ []
    else if ltb c 0x800
    then (0xc0 + c / 64) ∷ (0x80 + c % 64) ∷ []
    else if ltb c 0x10000
    then (0xe0 + c / 4096) ∷ (0x80 + c / 64 % 64) ∷ (0x80 + c % 64) ∷ []
    else (0xf0 + c / 262144) ∷ (0x80 + c / 4096 % 64) ∷ (0x80 + c / 64 % 64) ∷ (0x80 + c % 64) ∷ []

-- `none` is the UnicodeEncodeError.
unfoldable pub encode : Text → Option (List ℕ)
unfolding encode_char
encode [] = some []
encode (c ∷ cs) = elim (encode cs) [
  | none ↦ none
  | some rest ↦ if is_surrogate c then none else some (encode_char c ++ rest)
]

abbrev pub has_nul : Text → Bool
has_nul = any (λ c. c == 0)

abbrev fits : Option (List ℕ) → ℕ → Bool
fits none maximum = false
fits (some bytes) maximum = leb (length bytes) maximum

-- valid_text of input_order.py: not empty, at most 16000 encoded bytes, no NUL.
unfoldable pub valid_text : Text → Bool
unfolding encode
valid_text [] = false
valid_text (c ∷ cs) = fits (encode (c ∷ cs)) 16000 && not (has_nul (c ∷ cs))

-- The code points of a text literal.
abbrev pub codes : String → Text
codes String.[] = []
codes (String.◌∷◌ c s) = code c ∷ codes s

-- `==` of two texts.
unfoldable pub text_eq : Text → Text → Bool
text_eq [] [] = true
text_eq (x ∷ xs) (y ∷ ys) = x == y && text_eq xs ys
text_eq _ _ = false

pub eq_of_text_eq : (xs ys : Text) → text_eq xs ys ≡ true → xs ≡ ys
unfolding text_eq
eq_of_text_eq [] [] h = refl
eq_of_text_eq [] (y ∷ ys) h = cc
eq_of_text_eq (x ∷ xs) [] h = cc
eq_of_text_eq (x ∷ xs) (y ∷ ys) h = ground (arith, eq_of_text_eq xs ys)

pub text_eq_refl : (xs : Text) → text_eq xs xs ≡ true
unfolding text_eq
text_eq_refl [] = refl
text_eq_refl (x ∷ xs) = ground (arith, text_eq_refl xs)
