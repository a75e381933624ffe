-- ===== src/Node/OAuth/Examples.antt =====
-- The check of a modulus with limbs of two bits.
use prover.Prelude.{
  ℕ, ◌^◌, ◌<◌, ◌≡◌, ◌↔◌, ◌⊎◌, some, true, List, [], ◌∷◌, arith, refl, map, length, All,
}
use prover.Prelude.Decimal.{decimal}
use prover.Node.OAuth.{Provider, limbs, to_circom_bigint_bytes, verify}
use prover.Node.OAuth.Limbs.{value, to_circom_bigint_bytes-injective, to_circom_bigint_bytes-bounds}
use prover.Node.OAuth.Verify.{IsKey, verify-accepts}

abbrev provider : Provider
provider = record { circom_bigint_n = 2; circom_bigint_k = 2; jwks = some (5 ∷ []) }

verify-accepts_example :
    ((verify provider (some (11 ∷ [])) (limbs (to_circom_bigint_bytes 2 2 11))).1 ≡ some true)
    ↔ (IsKey 11 (5 ∷ []) ⊎ IsKey 11 (11 ∷ []))
verify-accepts_example =
    verify-accepts 2 2 11 (5 ∷ []) (11 ∷ []) (omega arith) (omega arith, tt) (omega arith, tt)

to_circom_bigint_bytes-injective_example : ◌≡◌ {A = ℕ} 11 11
to_circom_bigint_bytes-injective_example =
    to_circom_bigint_bytes-injective 2 2 11 11 (omega arith) (omega arith) refl

to_circom_bigint_bytes-bounds_example :
    (cs : List ℕ) × (to_circom_bigint_bytes 2 2 11 ≡ map decimal cs)
    × (length cs ≡ 2)
    × All (λ c. c < 2 ^ 2) cs
    × (value 2 cs ≡ 11)
to_circom_bigint_bytes-bounds_example = to_circom_bigint_bytes-bounds 2 2 11 (omega arith)
