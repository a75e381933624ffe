-- ===== src/PyText.antt =====
-- The methods of Python's `str`, and `int`, as hub/src/application/api/v1/hub/node/api.py uses
-- them: on code points, with case and digits of ASCII.
pub mod Laws
use prover.Prelude.{
  ℕ, ◌+◌, ◌-◌, ◌*◌, ◌≡◌, refl, Bool, true, false, ◌&&◌, ◌||◌, Option, none, some, List, [], ◌∷◌,
  Text, codes, text_discrete, leb, ◌==◌, if◌then◌else◌, is_empty, is_yes,
}
use prover.Prelude.Decimal.{is_digit}
use prover.Prelude.Int.{ℤ, pos, neg}

-- `str.isspace` of one character, which is what `strip` removes.
unfoldable pub is_space : ℕ → Bool
is_space c =
    (leb 9 c && leb c 13)
    || (leb 28 c && leb c 32)
    || c == 133
    || c == 160
    || c == 5760
    || (leb 8192 c && leb c 8202)
    || c == 8232
    || c == 8233
    || c == 8239
    || c == 8287
    || c == 12288

unfoldable pub lstrip_by : (ℕ → Bool) → Text → Text
lstrip_by p [] = []
lstrip_by p (c ∷ cs) = let rest = lstrip_by p cs in if p c then rest else c ∷ cs

unfoldable pub rstrip_by : (ℕ → Bool) → Text → Text
rstrip_by p [] = []
rstrip_by p (c ∷ cs) = let rest = rstrip_by p cs in if is_empty rest && p c then [] else c ∷ rest

-- `s.strip()`
unfoldable pub strip : Text → Text
unfolding is_space lstrip_by rstrip_by
strip s = rstrip_by is_space (lstrip_by is_space s)

-- `s.rstrip(".")`
unfoldable pub rstrip_dots : Text → Text
unfolding rstrip_by
rstrip_dots = rstrip_by (λ c. c == b'.')

abbrev pub lower_char : ℕ → ℕ
lower_char c = if leb b'A' c && leb c b'Z' then c + 32 else c

unfoldable pub lower : Text → Text
lower [] = []
lower (c ∷ cs) = lower_char c ∷ lower cs

-- `s.startswith(prefix)`
unfoldable pub starts_with : Text → Text → Bool
starts_with [] s = true
starts_with (p ∷ ps) [] = false
starts_with (p ∷ ps) (c ∷ cs) = p == c && starts_with ps cs

-- `needle in s`
unfoldable pub contains : Text → Text → Bool
unfolding starts_with
contains needle [] = is_empty needle
contains needle (c ∷ cs) = starts_with needle (c ∷ cs) || contains needle cs

abbrev pub text_eq : Text → Text → Bool
text_eq s t = is_yes (text_discrete s t)

-- `s.endswith(suffix)`
unfoldable pub ends_with : Text → Text → Bool
ends_with suffix [] = text_eq [] suffix
ends_with suffix (c ∷ cs) = text_eq (c ∷ cs) suffix || ends_with suffix cs

-- The text before and after the first `sep`, if there is one.
unfoldable pub split_first : ℕ → Text → Option (Text × Text)
split_first sep [] = none
split_first sep (c ∷ cs) =
    let rest : Option (Text × Text) = elim (split_first sep cs) [
      | none ↦ none
      | some (before, after) ↦ some (c ∷ before, after)
    ] in
    if c == sep then some ([], cs) else rest

-- The text before and after the last `sep`, if there is one: `s.rpartition(sep)`.
unfoldable pub split_last : ℕ → Text → Option (Text × Text)
split_last sep [] = none
split_last sep (c ∷ cs) = elim (split_last sep cs) [
  | some (before, after) ↦ some (c ∷ before, after)
  | none ↦ if c == sep then some ([], cs) else none
]

-- Digits with single underscores between them; the flag tells that a digit came last.
unfoldable pub scan_digits : Bool → ℕ → Text → Option ℕ
scan_digits after_digit n [] = if after_digit then some n else none
scan_digits after_digit n (c ∷ cs) = elim (is_digit c) [
  | true ↦ scan_digits true (n * 10 + (c - 48)) cs
  | false ↦ elim (c == b'_' && after_digit) [ true ↦ scan_digits false n cs | false ↦ none ]
]

abbrev pub map_int : (ℕ → ℤ) → Option ℕ → Option ℤ
map_int f none = none
map_int f (some n) = some (f n)

unfoldable pub signed : Text → Option ℤ
unfolding scan_digits
signed [] = none
signed (c ∷ cs) =
    if c == b'-'
    then map_int neg (scan_digits false 0 cs)
    else if c == b'+'
    then map_int pos (scan_digits false 0 cs)
    else map_int pos (scan_digits false 0 (c ∷ cs))

-- `int(s)`; `none` is a `ValueError`.
unfoldable pub int_of : Text → Option ℤ
unfolding strip signed
int_of s = signed (strip s)

int_test : int_of (codes " +8_0 ") ≡ some (pos 80)
unfolding int_of
int_test = refl
