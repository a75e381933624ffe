-- ===== src/Base64.antt =====
-- The standard library's `base64.b64encode`, `urlsafe_b64encode` and `urlsafe_b64decode`, and the big-endian
-- `int.to_bytes`, `int.from_bytes` and `int.bit_length`, which the node uses on bytes, ASCII
-- texts and numbers that are not negative.
pub mod Laws
use prover.Prelude.{
  ℕ, zero, suc, ◌+◌, ◌-◌, ◌*◌, ◌/◌, ◌%◌, ◌^◌, ◌≡◌, refl, Bool, true, false, ◌&&◌, Option, none,
  some, List, [], ◌∷◌, ◌++◌, Text, codes, if◌then◌else◌, map, ltb, leb, ◌==◌,
}

-- The groups of six bits of some bytes, without the padding.
unfoldable pub sextets : List ℕ → List ℕ
sextets [] = []
sextets (a ∷ []) = (a / 4) ∷ ((a % 4) * 16) ∷ []
sextets (a ∷ b ∷ []) = (a / 4) ∷ ((a % 4) * 16 + b / 16) ∷ ((b % 16) * 4) ∷ []
sextets (a ∷ b ∷ c ∷ rest) =
    (a / 4) ∷ ((a % 4) * 16 + b / 16) ∷ ((b % 16) * 4 + c / 64) ∷ (c % 64) ∷ sextets rest

unfoldable pub padding : List ℕ → Text
padding [] = []
padding (a ∷ []) = codes "=="
padding (a ∷ b ∷ []) = codes "="
padding (a ∷ b ∷ c ∷ rest) = padding rest

-- The character of six bits.
unfoldable pub letter : ℕ → ℕ
letter v =
    if ltb v 26
    then 65 + v
    else if ltb v 52
    then 71 + v
    else if ltb v 62
    then v - 4
    else if v == 62
    then b'-'
    else b'_'

-- `base64.b64encode`, whose alphabet differs in the last two characters.
abbrev pub standard : ℕ → ℕ
standard c = if c == b'-' then b'+' else if c == b'_' then b'/' else c

unfoldable pub b64encode : List ℕ → Text
unfolding sextets padding letter
b64encode bytes = map (λ v. standard (letter v)) (sextets bytes) ++ padding bytes

unfoldable pub urlsafe_b64encode : List ℕ → Text
unfolding sextets padding letter
urlsafe_b64encode bytes = map letter (sextets bytes) ++ padding bytes

-- The six bits of a character; the decoder also takes `+` and `/`.
unfoldable pub bits_of : ℕ → Option ℕ
bits_of c =
    if leb 65 c && leb c 90
    then some (c - 65)
    else if leb 97 c && leb c 122
    then some (c - 71)
    else if leb 48 c && leb c 57
    then some (c + 4)
    else if c == b'-'
    then some 62
    else if c == b'+'
    then some 62
    else if c == b'_'
    then some 63
    else if c == b'/'
    then some 63
    else none

-- The place in a group of four characters, and the bits that are left over there.
pub data Quad : Type 0 where
  first : Quad
  second third fourth : ℕ → Quad

abbrev pub prepend : ℕ → Option (List ℕ) → Option (List ℕ)
prepend b none = none
prepend b (some bytes) = some (b ∷ bytes)

-- The decoder's loop: `none` is the error for a group that ends too early. Characters outside the
-- alphabet are skipped, and all after the padding that completes a group.
unfoldable pub a2b : Quad → ℕ → Text → Option (List ℕ)
unfolding bits_of
a2b first pads [] = some []
a2b (second left) pads [] = none
a2b (third left) pads [] = none
a2b (fourth left) pads [] = none
a2b first pads (c ∷ cs) = elim (bits_of c) [
  | some v ↦ a2b (second v) 0 cs
  | none ↦ a2b first pads cs
]
a2b (second left) pads (c ∷ cs) = elim (bits_of c) [
  | some v ↦ prepend (left * 4 + v / 16) (a2b (third (v % 16)) 0 cs)
  | none ↦ a2b (second left) pads cs
]
a2b (third left) pads (c ∷ cs) = elim (bits_of c) [
  | some v ↦ prepend (left * 16 + v / 4) (a2b (fourth (v % 4)) 0 cs)
  | none ↦ elim (c == b'=') [
    | false ↦ a2b (third left) pads cs
    | true ↦ elim (leb 1 pads) [ true ↦ some [] | false ↦ a2b (third left) (suc pads) cs ]
  ]
]
a2b (fourth left) pads (c ∷ cs) = elim (bits_of c) [
  | some v ↦ prepend (left * 64 + v) (a2b first 0 cs)
  | none ↦ elim (c == b'=') [ false ↦ a2b (fourth left) pads cs | true ↦ some [] ]
]

unfoldable pub urlsafe_b64decode : Text → Option (List ℕ)
unfolding a2b
urlsafe_b64decode = a2b first 0

-- `int.from_bytes(bytes, byteorder='big')`
unfoldable pub from_bytes : ℕ → List ℕ → ℕ
from_bytes acc [] = acc
from_bytes acc (b ∷ bytes) = from_bytes (acc * 256 + b) bytes

-- `n.to_bytes(length, 'big')`, for a number that fits.
unfoldable pub to_bytes : ℕ → ℕ → List ℕ
to_bytes n zero = []
to_bytes n (suc length) = to_bytes (n / 256) length ++ n % 256 ∷ []

-- The bits of a number, on fuel: the number itself is enough, since a half of it is smaller.
unfoldable pub bits : ℕ → ℕ → ℕ
bits zero n = 0
bits (suc fuel) n = let rest = bits fuel (n / 2) in if n == 0 then 0 else suc rest

-- `n.bit_length()`
unfoldable pub bit_length : ℕ → ℕ
unfolding bits
bit_length n = bits n n

test : urlsafe_b64decode (urlsafe_b64encode (1 ∷ 0 ∷ 1 ∷ 255 ∷ [])) ≡ some (1 ∷ 0 ∷ 1 ∷ 255 ∷ [])
unfolding urlsafe_b64decode urlsafe_b64encode
test = refl
