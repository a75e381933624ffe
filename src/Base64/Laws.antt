-- ===== src/Base64/Laws.antt =====
-- What is encoded and decoded again is the same: bytes through base64, numbers through bytes.
use native.Mathlib.Nat.{pow-suc, pow-zero}
use prover.Prelude.{
  ℕ, zero, suc, ◌+◌, ◌*◌, ◌/◌, ◌%◌, ◌^◌, ◌≤◌, ◌<◌, ◌≡◌, refl, some, List, [], ◌∷◌, ◌++◌, Text,
  codes, map, arith, ap, ap₂, ◌∙◌, All,
}
use prover.Base64.{
  sextets, letter, bits_of, first, second, third, fourth, prepend, a2b, from_bytes, to_bytes, bits,
}

bits_of-letter : (v : ℕ) → v < 64 → bits_of (letter v) ≡ some v
unfolding bits_of letter
bits_of-letter v h = ground arith

from_bytes-append :
    (acc b : ℕ) (xs : List ℕ) → from_bytes acc (xs ++ b ∷ []) ≡ from_bytes acc xs * 256 + b
unfolding from_bytes
from_bytes-append acc b [] = refl
from_bytes-append acc b (x ∷ xs) = from_bytes-append (acc * 256 + x) b xs

pub from_bytes-to_bytes : (n k : ℕ) → n < 256 ^ k → from_bytes 0 (to_bytes n k) ≡ n
unfolding from_bytes to_bytes
from_bytes-to_bytes n zero h = omega (arith, pow-zero 256)
from_bytes-to_bytes n (suc k) h =
    from_bytes-append 0 (n % 256) (to_bytes (n / 256) k)
    ∙ ap (λ m. m * 256 + n % 256)
        (from_bytes-to_bytes (n / 256) k (omega (arith, h, pow-suc 256 k)))
    ∙ omega arith

All-snoc :
    (xs : List ℕ) (b : ℕ) → All (λ x. x < 256) xs → b < 256 → All (λ x. x < 256) (xs ++ b ∷ [])
All-snoc [] b h l = (l, tt)
All-snoc (x ∷ xs) b h l = (h.0, All-snoc xs b h.1 l)

pub to_bytes-lt : (n k : ℕ) → All (λ b. b < 256) (to_bytes n k)
unfolding to_bytes
to_bytes-lt n zero = tt
to_bytes-lt n (suc k) =
    All-snoc (to_bytes (n / 256) k) (n % 256) (to_bytes-lt (n / 256) k) (omega arith)

pub bits-bound : (fuel n : ℕ) → n ≤ fuel → n < 2 ^ bits fuel n
unfolding bits
bits-bound zero n h = omega (arith, pow-zero 2)
bits-bound (suc fuel) n h =
    ground (arith, bits-bound fuel (n / 2), pow-suc 2 (bits fuel (n / 2)), pow-zero 2)

module _ (c v pads : ℕ) (cs : Text) (e : bits_of c ≡ some v) where
  a2b-first : a2b first pads (c ∷ cs) ≡ a2b (second v) 0 cs
  unfolding a2b
  a2b-first = rw (e, a2b) refl

  a2b-second :
      (left : ℕ)
      → a2b (second left) pads (c ∷ cs) ≡ prepend (left * 4 + v / 16) (a2b (third (v % 16)) 0 cs)
  unfolding a2b
  a2b-second left = rw (e, a2b) refl

  a2b-third :
      (left : ℕ)
      → a2b (third left) pads (c ∷ cs) ≡ prepend (left * 16 + v / 4) (a2b (fourth (v % 4)) 0 cs)
  unfolding a2b
  a2b-third left = rw (e, a2b) refl

  a2b-fourth :
      (left : ℕ) → a2b (fourth left) pads (c ∷ cs) ≡ prepend (left * 64 + v) (a2b first 0 cs)
  unfolding a2b
  a2b-fourth left = rw (e, a2b) refl

a2b-two :
    (x y : ℕ) (cs : Text)
    → x < 64
    → y < 64
    → a2b first 0 (letter x ∷ letter y ∷ cs) ≡ prepend (x * 4 + y / 16) (a2b (third (y % 16)) 0 cs)
a2b-two x y cs hx hy =
    a2b-first (letter x) x 0 (letter y ∷ cs) (bits_of-letter x hx)
    ∙ a2b-second (letter y) y 0 cs (bits_of-letter y hy) x

a2b-third_end : (left : ℕ) → a2b (third left) 0 (codes "==") ≡ some []
unfolding a2b bits_of
a2b-third_end left = refl

a2b-fourth_end : (left : ℕ) → a2b (fourth left) 0 (codes "==") ≡ some []
unfolding a2b bits_of
a2b-fourth_end left = refl

pub a2b-sextets :
    (bs : List ℕ)
    → All (λ b. b < 256) bs
    → a2b first 0 (map letter (sextets bs) ++ codes "==") ≡ some bs
unfolding sextets
a2b-sextets [] h = unfold a2b bits_of in refl
a2b-sextets (a ∷ []) h =
    a2b-two (a / 4) ((a % 4) * 16) (codes "==") (omega (arith, h.0)) (omega arith)
    ∙ rw (a2b-third_end (((a % 4) * 16) % 16)) (ap (λ x. some (x ∷ [])) (omega arith))
a2b-sextets (a ∷ b ∷ []) h =
    a2b-two (a / 4) ((a % 4) * 16 + b / 16) (letter ((b % 16) * 4) ∷ codes "==")
      (omega (arith, h.0)) (omega (arith, h.1.0))
    ∙ rw
        (
          a2b-third (letter ((b % 16) * 4)) ((b % 16) * 4) 0 (codes "==")
              (bits_of-letter ((b % 16) * 4) (omega arith)) (((a % 4) * 16 + b / 16) % 16),
          a2b-fourth_end (((b % 16) * 4) % 4),
        )
        (ap₂ (λ x y. some (x ∷ y ∷ [])) (omega (arith, h.1.0)) (omega (arith, h.1.0)))
a2b-sextets (a ∷ b ∷ c ∷ rest) h =
    a2b-two (a / 4) ((a % 4) * 16 + b / 16)
      (letter ((b % 16) * 4 + c / 64) ∷ letter (c % 64) ∷ (map letter (sextets rest) ++ codes "=="))
      (omega (arith, h.0)) (omega (arith, h.1.0))
    ∙ rw
        (
          a2b-third (letter ((b % 16) * 4 + c / 64)) ((b % 16) * 4 + c / 64) 0
              (letter (c % 64) ∷ (map letter (sextets rest) ++ codes "=="))
              (bits_of-letter ((b % 16) * 4 + c / 64) (omega (arith, h.1.1.0)))
              (((a % 4) * 16 + b / 16) % 16),
          a2b-fourth (letter (c % 64)) (c % 64) 0 (map letter (sextets rest) ++ codes "==")
              (bits_of-letter (c % 64) (omega arith)) (((b % 16) * 4 + c / 64) % 4),
          a2b-sextets rest h.1.1.1,
        )
        (ap₂ (λ x y. some (x ∷ y ∷ (((b % 16) * 4 + c / 64) % 4 * 64 + c % 64) ∷ rest))
            (omega (arith, h.1.0)) (omega (arith, h.1.0, h.1.1.0))
          ∙ ap (λ z. some (a ∷ b ∷ z ∷ rest)) (omega (arith, h.1.1.0)))
