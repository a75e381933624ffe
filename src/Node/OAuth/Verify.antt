-- ===== src/Node/OAuth/Verify.antt =====
-- Which moduli `verify` of google/main.py accepts.
use prover.Prelude.{
  ℕ, ◌*◌, ◌^◌, ◌<◌, ◌≡◌, ◌↔◌, ◌⊎◌, inl, inr, refl, true, false, some, List, [], ◌∷◌, arith, sym,
  Text, All, Bool-cases,
}
use prover.Node.OAuth.{
  limbs, list_eq, to_circom_bigint_bytes, matches_key, verify_once, retry_verify, verify,
}
use prover.Node.OAuth.Limbs.{to_circom_bigint_bytes-injective}

list_eq_same : (xs : List Text) → list_eq xs xs ≡ true
unfolding list_eq
list_eq_same [] = refl
list_eq_same (x ∷ xs) = ground (arith, list_eq_same xs)

list_eq_sound : (xs ys : List Text) → list_eq xs ys ≡ true → xs ≡ ys
unfolding list_eq
list_eq_sound [] [] h = refl
list_eq_sound [] (y ∷ ys) h = ground arith
list_eq_sound (x ∷ xs) [] h = ground arith
list_eq_sound (x ∷ xs) (y ∷ ys) h = ground (arith, list_eq_sound xs ys)

-- The modulus is one of the keys.
abbrev pub IsKey : ℕ → List ℕ → Type 0
IsKey m [] = ⊥
IsKey m (key ∷ keys) = (m ≡ key) ⊎ IsKey m keys

module _ (n k : ℕ) where
  abbrev pub Fits : ℕ → Type 0
  Fits m = m < 2 ^ (k * n)

  matches_key_complete :
      (m : ℕ) (keys : List ℕ)
      → IsKey m keys
      → matches_key n k (limbs (to_circom_bigint_bytes n k m)) keys ≡ true
  unfolding matches_key
  matches_key_complete m [] h = absurd h
  matches_key_complete m (key ∷ keys) (inl e) =
      rw (sym e, list_eq_same (to_circom_bigint_bytes n k m)) refl
  matches_key_complete m (key ∷ keys) (inr h) = ground (arith, matches_key_complete m keys h)

  matches_key_sound :
      (m : ℕ) (keys : List ℕ)
      → Fits m
      → All Fits keys
      → matches_key n k (limbs (to_circom_bigint_bytes n k m)) keys ≡ true
      → IsKey m keys
  unfolding matches_key
  matches_key_sound m [] f fs h = ground arith
  matches_key_sound m (key ∷ keys) f (g, fs) h =
      elim (Bool-cases (list_eq (to_circom_bigint_bytes n k m) (to_circom_bigint_bytes n k key))) [
        | inl e ↦ inl (
            to_circom_bigint_bytes-injective n k m key f g
              (list_eq_sound (to_circom_bigint_bytes n k m) (to_circom_bigint_bytes n k key) e))
        | inr e ↦ inr (matches_key_sound m keys f fs (ground arith))
      ]

  -- If all moduli fit into the limbs, then a proof with the limbs of `m` passes `verify` exactly if
  -- `m` is one of the keys that the provider holds or of those that it fetches now.
  pub verify-accepts :
      (m : ℕ) (held fetched : List ℕ)
      → Fits m
      → All Fits held
      → All Fits fetched
      → ((verify
            (record { circom_bigint_n = n; circom_bigint_k = k; jwks = some held })
            (some fetched)
            (limbs (to_circom_bigint_bytes n k m))).1
          ≡ some true)
        ↔ (IsKey m held ⊎ IsKey m fetched)
  unfolding verify
  verify-accepts m held fetched f hs fs = (
    λ h. elim (Bool-cases (matches_key n k (limbs (to_circom_bigint_bytes n k m)) held)) [
      | inl e ↦ inl (matches_key_sound m held f hs e)
      | inr e ↦ inr (matches_key_sound m fetched f fs (ground arith))
    ],
    λ h. elim h [
      | inl i ↦ rw (verify, matches_key_complete m held i) refl
      | inr i ↦ elim (Bool-cases (matches_key n k (limbs (to_circom_bigint_bytes n k m)) held)) [
        | inl e ↦ rw (verify, e) refl
        | inr e ↦ rw (verify, e, retry_verify, verify_once, matches_key_complete m fetched i) refl
      ]
    ],
  )

  verify-answers :
      (m : ℕ) (held fetched : List ℕ)
      → ((verify
            (record { circom_bigint_n = n; circom_bigint_k = k; jwks = some held })
            (some fetched)
            (limbs (to_circom_bigint_bytes n k m))).1
          ≡ some true)
        ⊎ ((verify
              (record { circom_bigint_n = n; circom_bigint_k = k; jwks = some held })
              (some fetched)
              (limbs (to_circom_bigint_bytes n k m))).1
            ≡ some false)
  unfolding verify
  verify-answers m held fetched =
      elim (Bool-cases (matches_key n k (limbs (to_circom_bigint_bytes n k m)) held)) [
        | inl e ↦ inl (rw (verify, e) refl)
        | inr e ↦
            elim (Bool-cases (matches_key n k (limbs (to_circom_bigint_bytes n k m)) fetched)) [
              | inl f ↦ inl (rw (verify, e, retry_verify, verify_once, f) refl)
              | inr f ↦ inr (rw (verify, e, retry_verify, verify_once, f) refl)
            ]
      ]

  -- A modulus that is none of the keys is turned down.
  pub verify-rejects :
      (m : ℕ) (held fetched : List ℕ)
      → Fits m
      → All Fits held
      → All Fits fetched
      → ¬ (IsKey m held ⊎ IsKey m fetched)
      → (verify
          (record { circom_bigint_n = n; circom_bigint_k = k; jwks = some held })
          (some fetched)
          (limbs (to_circom_bigint_bytes n k m))).1
        ≡ some false
  verify-rejects m held fetched f hs fs foreign = elim (verify-answers m held fetched) [
    | inl e ↦ absurd (foreign ((verify-accepts m held fetched f hs fs).0 e))
    | inr e ↦ e
  ]
