-- ===== src/Json.antt =====
-- `json.dumps` with its default separators and `ensure_ascii=True`, for the flat objects with
-- sorted keys that hub/src/modules/node_list/main.py hashes.
pub mod Injective
use prover.Prelude.{
  ℕ, ◌+◌, ◌-◌, ◌/◌, ◌%◌, ◌≡◌, refl, ◌&&◌, Option, none, some, List, [], ◌∷◌, ◌++◌, Text, codes,
  ◌==◌, leb, ltb, if◌then◌else◌,
}
use prover.Prelude.Decimal.{decimal}

-- A digit of `{0:04x}`.
abbrev pub hex_digit : ℕ → ℕ
hex_digit d = if ltb d 10 then 48 + d else 87 + d

-- `\uXXXX`
abbrev pub unicode_escape : ℕ → Text → Text
unicode_escape c rest =
    92
    ∷ 117
    ∷ hex_digit (c / 4096 % 16)
    ∷ hex_digit (c / 256 % 16)
    ∷ hex_digit (c / 16 % 16)
    ∷ hex_digit (c % 16)
    ∷ rest

-- A character other than those with a short escape: as it is, escaped, or escaped as a surrogate
-- pair.
unfoldable pub escape_other : ℕ → Text → Text
escape_other c rest =
    if leb 32 c && leb c 126
    then c ∷ rest
    else (if ltb c 65536
        then unicode_escape c rest
        else unicode_escape (55296 + (c - 65536) / 1024)
            (unicode_escape (56320 + (c - 65536) % 1024) rest))

-- The letter of a short escape, for the characters that have one.
unfoldable pub short_escape : ℕ → Option ℕ
short_escape c =
    if c == 34
    then some 34
    else if c == 92
    then some 92
    else if c == 10
    then some 110
    else if c == 13
    then some 114
    else if c == 9
    then some 116
    else if c == 12
    then some 102
    else if c == 8
    then some 98
    else none

-- The escape of one character, before the rest of the text.
unfoldable pub escape_char : ℕ → Text → Text
unfolding short_escape escape_other
escape_char c rest = elim (short_escape c) [
  | some letter ↦ 92 ∷ letter ∷ rest
  | none ↦ escape_other c rest
]

-- A text up to its closing quote, before the rest.
unfoldable pub escape : Text → Text → Text
unfolding escape_char
escape [] rest = 34 ∷ rest
escape (c ∷ cs) rest = escape_char c (escape cs rest)

pub data Value : Type 0 where
  null : Value
  number : ℕ → Value
  string : Text → Value

unfoldable pub dumps_value : Value → Text → Text
unfolding escape decimal
dumps_value null rest = codes "null" ++ rest
dumps_value (number n) rest = decimal n ++ rest
dumps_value (string s) rest = 34 ∷ escape s rest

-- `"key": value`, and the separator before the next one.
unfoldable pub dumps_fields : List (Text × Value) → Text
unfolding dumps_value
dumps_fields [] = codes "}"
dumps_fields ((k, v) ∷ []) = 34 ∷ escape k (codes ": " ++ dumps_value v (codes "}"))
dumps_fields ((k, v) ∷ f ∷ fs) =
    34 ∷ escape k (codes ": " ++ dumps_value v (codes ", " ++ dumps_fields (f ∷ fs)))

-- `json.dumps` of an object whose fields are given in the order of their keys.
unfoldable pub dumps : List (Text × Value) → Text
unfolding dumps_fields
dumps fields = codes "{" ++ dumps_fields fields

dumps_test :
    dumps ((codes "a", string (codes "x\"é")) ∷ (codes "b", number 120) ∷ (codes "c", null) ∷ [])
    ≡ codes "{\"a\": \"x\\\"\\u00e9\", \"b\": 120, \"c\": null}"
unfolding dumps
dumps_test = refl
