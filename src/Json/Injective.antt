-- ===== src/Json/Injective.antt =====
-- The escapes of Json: a text can be told from its escaped form.
use prover.Prelude.{
  ℕ, ◌+◌, ◌-◌, ◌*◌, ◌/◌, ◌%◌, ◌≤◌, ◌<◌, ◌≡◌, ◌≢◌, refl, ◌&&◌, Option, none, some, [], ◌∷◌, Text,
  ◌==◌, leb, ltb, if◌then◌else◌, All, arith, ◌⊎◌, inl, inr, Bool-cases, Option-cases, sym, ap, ◌∙◌,
  ap₂,
}
use prover.Json.{hex_digit, unicode_escape, escape_other, escape_char, escape, short_escape}

-- A Unicode scalar value: a code point that is no surrogate.
abbrev pub IsScalar : ℕ → Type 0
IsScalar c = (c < 55296) ⊎ ((57343 < c) × (c < 1114112))

abbrev unhex : ℕ → ℕ
unhex d = if ltb d 58 then d - 48 else d - 87

unhex-hex_digit : (d : ℕ) → d < 16 → unhex (hex_digit d) ≡ d
unhex-hex_digit d h = ground arith

-- The four digits of a code unit, and the rest.
read_unit : Text → Option (ℕ × Text)
read_unit (_ ∷ _ ∷ a ∷ b ∷ c ∷ d ∷ rest) =
    some (unhex a * 4096 + unhex b * 256 + unhex c * 16 + unhex d, rest)
read_unit _ = none

read_unit-unicode_escape :
    (c : ℕ) (rest : Text) → c < 65536 → read_unit (unicode_escape c rest) ≡ some (c, rest)
unfolding read_unit
read_unit-unicode_escape c rest h = ap some (
    ap (λ (k : ℕ). (k, rest))
      (omega (
        arith,
        unhex-hex_digit (c / 4096 % 16) (omega arith),
        unhex-hex_digit (c / 256 % 16) (omega arith),
        unhex-hex_digit (c / 16 % 16) (omega arith),
        unhex-hex_digit (c % 16) (omega arith),
      )))

div_mod_1024 : (n : ℕ) → n / 1024 * 1024 + n % 1024 ≡ n
div_mod_1024 n = omega arith

-- After a first code unit: it is the character, or the first half of a surrogate pair.
join_units : ℕ → Text → Option (ℕ × Text)
join_units u rest =
    if leb 55296 u && leb u 56319
    then elim (read_unit rest) [
      | none ↦ none
      | some (low, rest') ↦ some (65536 + (u - 55296) * 1024 + (low - 56320), rest')
    ]
    else some (u, rest)

read_units : Option (ℕ × Text) → Option (ℕ × Text)
unfolding join_units
read_units none = none
read_units (some (u, rest)) = join_units u rest

read_escape : ℕ → Text → Text → Option (ℕ × Text)
unfolding read_units
read_escape x text rest =
    if x == 34
    then some (34, rest)
    else if x == 92
    then some (92, rest)
    else if x == 110
    then some (10, rest)
    else if x == 114
    then some (13, rest)
    else if x == 116
    then some (9, rest)
    else if x == 102
    then some (12, rest)
    else if x == 98
    then some (8, rest)
    else read_units (read_unit text)

read_after : ℕ → Text → Option (ℕ × Text)
unfolding read_escape
read_after h [] = none
read_after h (x ∷ rest) = read_escape x (h ∷ x ∷ rest) rest

-- The first character of an escaped text, and the rest.
read_char : Text → Option (ℕ × Text)
unfolding read_after
read_char [] = none
read_char (h ∷ rest) = if h == 92 then read_after h rest else some (h, rest)

read_units-high :
    (c : ℕ) (rest : Text)
    → 65536 ≤ c
    → c < 1114112
    → read_units
        (some (55296 + (c - 65536) / 1024, unicode_escape (56320 + (c - 65536) % 1024) rest))
      ≡ some (c, rest)
unfolding read_units
read_units-high c rest h k = ground (
  arith,
  read_unit-unicode_escape (56320 + (c - 65536) % 1024) rest (omega arith),
  div_mod_1024 (c - 65536),
)

read_units-low :
    (c : ℕ) (rest : Text) → (c < 55296) ⊎ (57343 < c) → read_units (some (c, rest)) ≡ some (c, rest)
unfolding read_units
read_units-low c rest (inl h) = ground arith
read_units-low c rest (inr h) = ground arith

IsScalar-lt : (c : ℕ) → IsScalar c → c < 1114112
IsScalar-lt c s = omega arith

read_char-escape_other :
    (c : ℕ) (rest : Text) → IsScalar c → c ≢ 92 → read_char (escape_other c rest) ≡ some (c, rest)
unfolding escape_other read_char
read_char-escape_other c rest s h = elim (Bool-cases (leb 32 c && leb c 126)) [
  | inl plain ↦ rw plain (ground arith)
  | inr e ↦ rw e (elim (Bool-cases (ltb c 65536)) [
    | inl small ↦
        rw (small, read_unit-unicode_escape c rest (ground arith))
          (read_units-low c rest (elim s [ inl k ↦ inl k | inr k ↦ inr k.0 ]))
    | inr large ↦
        rw
          (
            large,
            read_unit-unicode_escape (55296 + (c - 65536) / 1024)
                (unicode_escape (56320 + (c - 65536) % 1024) rest) (omega (arith, IsScalar-lt c s)),
          )
          (read_units-high c rest (ground arith) (IsScalar-lt c s))
  ])
]

read_escape-short_escape :
    (c letter : ℕ) (text rest : Text)
    → short_escape c ≡ some letter
    → read_escape letter text rest ≡ some (c, rest)
unfolding short_escape read_escape
read_escape-short_escape c letter text rest e = ground arith

short_escape-quotes : (c : ℕ) → short_escape c ≡ none → (c ≢ 92) × (c ≢ 34)
unfolding short_escape
short_escape-quotes c e = (λ h. ground arith, λ h. ground arith)

escape_char_short :
    (c letter : ℕ) (rest : Text)
    → short_escape c ≡ some letter
    → escape_char c rest ≡ 92 ∷ letter ∷ rest
unfolding escape_char
escape_char_short c letter rest e = rw (e, escape_char)

escape_char_long :
    (c : ℕ) (rest : Text) → short_escape c ≡ none → escape_char c rest ≡ escape_other c rest
unfolding escape_char
escape_char_long c rest e = rw (e, escape_char)

-- What was escaped is read back.
read_char-escape_char :
    (c : ℕ) (rest : Text) → IsScalar c → read_char (escape_char c rest) ≡ some (c, rest)
unfolding read_char
read_char-escape_char c rest s = elim (Option-cases (short_escape c)) [
  | inl e ↦
      ap read_char (escape_char_long c rest e)
      ∙ read_char-escape_other c rest s (short_escape-quotes c e).0
  | inr (letter, e) ↦
      ap read_char (escape_char_short c letter rest e)
      ∙ read_escape-short_escape c letter (92 ∷ letter ∷ rest) rest e
]

-- No escape begins with the closing quote.
read_quote : (rest : Text) → read_char (34 ∷ rest) ≡ some (34, rest)
unfolding read_char
read_quote rest = refl

head_of : Text → ℕ
head_of [] = 0
head_of (c ∷ cs) = c

head_of-escape_char : (c : ℕ) (rest : Text) → head_of (escape_char c rest) ≢ 34
unfolding escape_char escape_other head_of short_escape
head_of-escape_char c rest = λ h. ground arith

pair_eq :
    {c d : ℕ} {s t : Text}
    → ◌≡◌ {A = Option (ℕ × Text)} (some (c, s)) (some (d, t))
    → (c ≡ d) × (s ≡ t)
pair_eq h = (cc, cc)

-- A text and what follows it are determined by its escaped form.
pub escape-injective :
    (s t : Text) (rest rest' : Text)
    → All IsScalar s
    → All IsScalar t
    → escape s rest ≡ escape t rest'
    → (s ≡ t) × (rest ≡ rest')
unfolding escape
escape-injective [] [] rest rest' _ _ h = (refl, cc)
escape-injective [] (d ∷ t) rest rest' _ _ h =
    absurd (head_of-escape_char d (escape t rest') (unfold head_of in sym (ap head_of h)))
escape-injective (c ∷ s) [] rest rest' _ _ h =
    absurd (head_of-escape_char c (escape s rest) (unfold head_of in ap head_of h))
escape-injective (c ∷ s) (d ∷ t) rest rest' (hc, hs) (hd, ht) h =
    let e : ◌≡◌ {A = Option (ℕ × Text)} (some (c, escape s rest)) (some (d, escape t rest')) =
      sym (read_char-escape_char c (escape s rest) hc)
      ∙ ap read_char h
      ∙ read_char-escape_char d (escape t rest') hd in
    let (p, q) = pair_eq e in
    let (r, w) = escape-injective s t rest rest' hs ht q in (ap₂ ◌∷◌ p r, w)
