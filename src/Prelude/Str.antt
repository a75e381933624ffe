-- ===== src/Prelude/Str.antt =====
-- A Python `str` as the list of its code points.
use Prim.Native.Char.{code}
use Prim.Native.Nat.{ℕ}
use Prim.Native.String.{String}
use mathlib.Core.List.{List, [], ◌∷◌}
use mathlib.Core.Logic.{◌≢◌}
use mathlib.Core.Path.{refl, ap₂}
use native.Mathlib.Decide.{ℕ_discrete}

abbrev pub Text : Type 0
Text = List ℕ

-- The code points of a literal.
abbrev pub codes : String → Text
codes String.[] = []
codes (String.◌∷◌ c s) = code c ∷ codes s

pub tail_ne : (x y : ℕ) (xs ys : Text) → xs ≢ ys → x ∷ xs ≢ y ∷ ys
tail_ne x y xs ys h = λ e. h (cc)

pub head_ne : (x y : ℕ) (xs ys : Text) → x ≢ y → x ∷ xs ≢ y ∷ ys
head_ne x y xs ys h = λ e. h (cc)

pub nil-ne-cons : (y : ℕ) (ys : Text) → ◌≢◌ {A = Text} [] (y ∷ ys)
nil-ne-cons y ys = λ e. cc

pub cons-ne-nil : (x : ℕ) (xs : Text) → ◌≢◌ {A = Text} (x ∷ xs) []
cons-ne-nil x xs = λ e. cc

-- Python's `==` on texts, as a decision.
unfoldable pub text_discrete : Discrete Text
unfolding ℕ_discrete
text_discrete [] [] = yes refl
text_discrete [] (y ∷ ys) = no (nil-ne-cons y ys)
text_discrete (x ∷ xs) [] = no (cons-ne-nil x xs)
text_discrete (x ∷ xs) (y ∷ ys) = elim (ℕ_discrete x y) [
  | yes p ↦ elim (text_discrete xs ys) [
    | yes q ↦ yes (ap₂ ◌∷◌ p q)
    | no n ↦ no (tail_ne x y xs ys n)
  ]
  | no n ↦ no (head_ne x y xs ys n)
]
