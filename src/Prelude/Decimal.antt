-- ===== src/Prelude/Decimal.antt =====
-- Python's `str(n)` of a number, and the value of a run of decimal digits.
use Prim.Native.Nat.{ℕ, zero, suc, ◌+◌, ◌-◌, ◌*◌, ◌/◌, ◌%◌, ◌<◌}
use mathlib.Core.Bool.{Bool, true, ◌&&◌}
use mathlib.Core.List.{[], ◌∷◌}
use mathlib.Core.Logic.{inl, inr}
use mathlib.Core.Path.{◌≡◌, refl, sym, ap, ◌∙◌}
use native.Mathlib.Omega.{arith}
use prover.Prelude.Str.{Text}
use prover.Prelude.Tests.{ltb, leb, if◌then◌else◌, Bool-cases}
use prover.Prelude.Lists.{All}

-- The digits of `n` before those in `acc`, by as many rounds as the fuel allows.
unfoldable pub digits_before : ℕ → ℕ → Text → Text
digits_before zero n acc = acc
digits_before (suc fuel) n acc =
    let rest = digits_before fuel (n / 10) ((48 + n % 10) ∷ acc) in
    if ltb n 10 then (48 + n) ∷ acc else rest

-- `str(n)`: `n + 1` rounds are enough, since each divides by ten.
unfoldable pub decimal : ℕ → Text
unfolding digits_before
decimal n = digits_before (suc n) n []

-- The value of the digits, after a number that was read before them.
unfoldable pub value_after : ℕ → Text → ℕ
value_after n [] = n
value_after n (c ∷ cs) = value_after (n * 10 + (c - 48)) cs

abbrev pub is_digit : ℕ → Bool
is_digit c = leb 48 c && leb c 57

value_after-digits_before :
    (fuel n : ℕ) (acc : Text)
    → n < fuel
    → value_after 0 (digits_before fuel n acc) ≡ value_after n acc
unfolding value_after digits_before
value_after-digits_before zero n acc h = absurd (omega arith)
value_after-digits_before (suc fuel) n acc h = elim (Bool-cases (ltb n 10)) [
  | inl e ↦ rw e (ap (λ k. value_after k acc) (omega arith))
  | inr e ↦ rw e (
      value_after-digits_before fuel (n / 10) ((48 + n % 10) ∷ acc) (ground arith)
      ∙ ap (λ k. value_after k acc) (omega arith))
]

-- Reading back what `str` prints.
pub value_after-decimal : (n : ℕ) → value_after 0 (decimal n) ≡ n
unfolding decimal value_after
value_after-decimal n = value_after-digits_before (suc n) n [] (omega arith)

pub decimal-injective : (m n : ℕ) → decimal m ≡ decimal n → m ≡ n
decimal-injective m n h = sym (value_after-decimal m) ∙ ap (value_after 0) h ∙ value_after-decimal n

digits_before-digits :
    (fuel n : ℕ) (acc : Text)
    → All (λ c. is_digit c ≡ true) acc
    → All (λ c. is_digit c ≡ true) (digits_before fuel n acc)
unfolding digits_before
digits_before-digits zero n acc h = h
digits_before-digits (suc fuel) n acc h = elim (Bool-cases (ltb n 10)) [
  | inl e ↦ rw e (ground arith, h)
  | inr e ↦ rw e (digits_before-digits fuel (n / 10) ((48 + n % 10) ∷ acc) (ground arith, h))
]

pub decimal-digits : (n : ℕ) → All (λ c. is_digit c ≡ true) (decimal n)
unfolding decimal
decimal-digits n = digits_before-digits (suc n) n [] tt

digits_before-cons :
    (fuel n c : ℕ) (acc : Text) → (d : ℕ) × (ds : Text) × (digits_before fuel n (c ∷ acc) ≡ d ∷ ds)
unfolding digits_before
digits_before-cons zero n c acc = (c, acc, refl)
digits_before-cons (suc fuel) n c acc = elim (Bool-cases (ltb n 10)) [
  | inl e ↦ (48 + n, c ∷ acc, rw e)
  | inr e ↦ rw e (digits_before-cons fuel (n / 10) (48 + n % 10) (c ∷ acc))
]

-- A number prints as one digit at least.
pub decimal-cons : (n : ℕ) → (d : ℕ) × (ds : Text) × (decimal n ≡ d ∷ ds)
unfolding decimal
decimal-cons n = elim (Bool-cases (ltb n 10)) [
  | inl e ↦ (48 + n, [], rw e)
  | inr e ↦ rw e (digits_before-cons n (n / 10) (48 + n % 10) [])
]
