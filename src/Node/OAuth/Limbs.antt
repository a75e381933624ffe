-- ===== src/Node/OAuth/Limbs.antt =====
-- The limbs that `_to_circom_bigint_bytes` of google/main.py writes determine the number.
use Prim.Native.Nat.{ℕ}
use native.Mathlib.Nat.{
  div-div-eq-div-mul, div-add-mod, div-lt_iff_lt-mul, mod-lt, pow-suc, pow-zero, zero-mul, zero-add,
}
use prover.Prelude.{
  zero, suc, ◌+◌, ◌*◌, ◌/◌, ◌%◌, ◌^◌, ◌<◌, ◌≡◌, refl, List, [], ◌∷◌, arith, ap, ap₂, subst, sym,
  ◌∙◌, map, length, All,
}
use prover.Prelude.Decimal.{decimal, decimal-injective}
use prover.Node.OAuth.{chunks, to_circom_bigint_bytes}

pub pow_add : (b m n : ℕ) → b ^ (m + n) ≡ b ^ m * b ^ n
pow_add b zero n =
    ap (λ k. b ^ k) (zero-add n) ∙ omega arith ∙ ap (λ k. k * b ^ n) (sym (pow-zero b))
pow_add b (suc m) n =
    ap (λ k. b ^ k) (omega arith)
    ∙ pow-suc b (m + n)
    ∙ rw (pow_add b m n, pow-suc b m) (omega arith)

pub pow_pos : (n : ℕ) → 0 < 2 ^ n
pow_pos zero = omega arith
pow_pos (suc n) = omega (arith, pow-suc 2 n, pow_pos n)

div_one : (a n : ℕ) → a / 2 ^ (0 * n) ≡ a
div_one a n = rw (zero-mul n) (omega arith)

-- The next shift divides once more by the width.
shift-suc : (n num i : ℕ) → num / 2 ^ ((i + 1) * n) ≡ (num / 2 ^ (i * n)) / 2 ^ n
shift-suc n num i =
    ap (λ k. num / 2 ^ k) (omega arith)
    ∙ ap (λ k. num / k) (pow_add 2 (i * n) n)
    ∙ sym (div-div-eq-div-mul num (2 ^ (i * n)) (2 ^ n))

-- A number below `w * m` is below `w` once divided by `m`.
pub div_bound : (x w m : ℕ) → 0 < m → x < w * m → x / m < w
div_bound x w m h l = (div-lt_iff_lt-mul h).1 l

-- Quotient and remainder determine the number.
div-mod-injective : (a b m : ℕ) → a % m ≡ b % m → a / m ≡ b / m → a ≡ b
div-mod-injective a b m r q = sym (div-add-mod a m) ∙ ap₂ (λ x y. m * x + y) q r ∙ div-add-mod b m

next_bound :
    (n i k num : ℕ) → num / 2 ^ (i * n) < 2 ^ (suc k * n) → num / 2 ^ ((i + 1) * n) < 2 ^ (k * n)
next_bound n i k num h = rw (shift-suc n num i) (
    div_bound (num / 2 ^ (i * n)) (2 ^ (k * n)) (2 ^ n) (pow_pos n)
      (subst (λ w. num / 2 ^ (i * n) < w) (ap (λ e. 2 ^ e) (omega arith) ∙ pow_add 2 (k * n) n) h))

chunks-injective :
    (n i k a b : ℕ)
    → (a / 2 ^ (i * n)) < 2 ^ (k * n)
    → (b / 2 ^ (i * n)) < 2 ^ (k * n)
    → chunks n a i k ≡ chunks n b i k
    → a / 2 ^ (i * n) ≡ b / 2 ^ (i * n)
unfolding chunks
chunks-injective n i zero a b ha hb h = let one = ap (λ e. 2 ^ e) (zero-mul n) in omega (arith, one)
chunks-injective n i (suc k) a b ha hb h =
    div-mod-injective (a / 2 ^ (i * n)) (b / 2 ^ (i * n)) (2 ^ n) (cc) (
      sym (shift-suc n a i)
      ∙ chunks-injective n (i + 1) k a b (next_bound n i k a ha) (next_bound n i k b hb) (cc)
      ∙ shift-suc n b i)

map-decimal-injective : (xs ys : List ℕ) → map decimal xs ≡ map decimal ys → xs ≡ ys
map-decimal-injective [] [] h = refl
map-decimal-injective [] (y ∷ ys) h = absurd (cc)
map-decimal-injective (x ∷ xs) [] h = absurd (cc)
map-decimal-injective (x ∷ xs) (y ∷ ys) h =
    ap₂ (λ z zs. z ∷ zs) (decimal-injective x y (cc)) (map-decimal-injective xs ys (cc))

-- Moduli of at most `k` limbs of `n` bits have the same limbs only if they are the same.
pub to_circom_bigint_bytes-injective :
    (n k a b : ℕ)
    → a < 2 ^ (k * n)
    → b < 2 ^ (k * n)
    → to_circom_bigint_bytes n k a ≡ to_circom_bigint_bytes n k b
    → a ≡ b
unfolding to_circom_bigint_bytes
to_circom_bigint_bytes-injective n k a b ha hb h =
    sym (div_one a n)
    ∙ chunks-injective n 0 k a b (subst (λ x. x < 2 ^ (k * n)) (sym (div_one a n)) ha)
        (subst (λ x. x < 2 ^ (k * n)) (sym (div_one b n)) hb)
        (map-decimal-injective (chunks n a 0 k) (chunks n b 0 k) h)
    ∙ div_one b n

-- The number that limbs of `n` bits stand for, the lowest first.
abbrev pub value : ℕ → List ℕ → ℕ
value n [] = 0
value n (c ∷ cs) = c + 2 ^ n * value n cs

length-chunks : (n num i k : ℕ) → length (chunks n num i k) ≡ k
unfolding chunks
length-chunks n num i zero = refl
length-chunks n num i (suc k) = ap suc (length-chunks n num (i + 1) k)

chunks-lt : (n num i k : ℕ) → All (λ c. c < 2 ^ n) (chunks n num i k)
unfolding chunks
chunks-lt n num i zero = tt
chunks-lt n num i (suc k) = (mod-lt (num / 2 ^ (i * n)) (pow_pos n), chunks-lt n num (i + 1) k)

value-chunks :
    (n num i k : ℕ)
    → num / 2 ^ (i * n) < 2 ^ (k * n)
    → value n (chunks n num i k) ≡ num / 2 ^ (i * n)
unfolding chunks
value-chunks n num i zero h = let one = ap (λ e. 2 ^ e) (zero-mul n) in omega (arith, one)
value-chunks n num i (suc k) h =
    ap (λ v. (num / 2 ^ (i * n)) % 2 ^ n + 2 ^ n * v)
      (value-chunks n num (i + 1) k (next_bound n i k num h) ∙ shift-suc n num i)
    ∙ omega (arith, div-add-mod (num / 2 ^ (i * n)) (2 ^ n))

-- A modulus that fits into `k` limbs of `n` bits becomes the decimal numerals of exactly `k` numbers
-- below 2^n, which stand for the modulus.
pub to_circom_bigint_bytes-bounds :
    (n k num : ℕ)
    → num < 2 ^ (k * n)
    → (cs : List ℕ) × (to_circom_bigint_bytes n k num ≡ map decimal cs)
      × (length cs ≡ k)
      × All (λ c. c < 2 ^ n) cs
      × (value n cs ≡ num)
unfolding to_circom_bigint_bytes
to_circom_bigint_bytes-bounds n k num h = (
  chunks n num 0 k,
  refl,
  length-chunks n num 0 k,
  chunks-lt n num 0 k,
  value-chunks n num 0 k (subst (λ x. x < 2 ^ (k * n)) (sym (div_one num n)) h) ∙ div_one num n,
)
