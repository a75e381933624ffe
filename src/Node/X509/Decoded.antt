-- ===== src/Node/X509/Decoded.antt =====
-- The keys of the provider of x509_google/main.py against its certificates.
use native.Mathlib.Nat.{pow-suc}
use prover.Prelude.{
  ℕ, zero, suc, ◌+◌, ◌-◌, ◌*◌, ◌/◌, ◌^◌, ◌≤◌, ◌<◌, ◌≡◌, ◌↔◌, ◌⊎◌, refl, Bool, true, false, Option,
  some, List, [], ◌∷◌, ◌++◌, Text, codes, map, arith, Bool-cases, inl, inr, ap, subst, All, ◌==◌,
}
use prover.PyText.{text_eq, rstrip_by}
use prover.Base64.{
  sextets, padding, letter, urlsafe_b64encode, urlsafe_b64decode, to_bytes, bits, bit_length,
}
use prover.Base64.Laws.{a2b-sextets, to_bytes-lt, from_bytes-to_bytes, bits-bound}
use prover.Node.OAuth.{
  limbs, to_circom_bigint_bytes, matches_key, verify as oauth_verify,
  verify_once as oauth_verify_once, retry_verify as oauth_retry_verify,
}
use prover.Node.OAuth.Limbs.{pow_add}
use prover.Node.OAuth.Verify.{IsKey, verify-accepts}
use prover.Node.X509.{
  PublicKey, rsa_key, Jwk, encode_number, decode_number, extract_jwk, update_jwks,
  jwk_to_rsa_public_key, Provider, is_modulus, matches_jwk, verify_once, retry_verify, verify,
}

abbrev is_pad : ℕ → Bool
is_pad c = c == b'='

letter-ne-pad : (v : ℕ) → v < 64 → is_pad (letter v) ≡ false
unfolding letter
letter-ne-pad v h = ground arith

rstrip_by-padding : (bs : List ℕ) → rstrip_by is_pad (padding bs) ≡ []
unfolding rstrip_by padding
rstrip_by-padding [] = refl
rstrip_by-padding (a ∷ []) = refl
rstrip_by-padding (a ∷ b ∷ []) = refl
rstrip_by-padding (a ∷ b ∷ c ∷ rest) = rstrip_by-padding rest

sextets-lt : (bs : List ℕ) → All (λ b. b < 256) bs → All (λ v. v < 64) (sextets bs)
unfolding sextets
sextets-lt [] h = tt
sextets-lt (a ∷ []) h = (omega (arith, h.0), (omega arith, tt))
sextets-lt (a ∷ b ∷ []) h = (omega (arith, h.0), (omega (arith, h.1.0), (omega arith, tt)))
sextets-lt (a ∷ b ∷ c ∷ rest) h = (
  omega (arith, h.0),
  (omega (arith, h.1.0), (omega (arith, h.1.1.0), (omega arith, sextets-lt rest h.1.1.1))),
)

rstrip_by-letters :
    (vs : List ℕ) (pad : Text)
    → All (λ v. v < 64) vs
    → rstrip_by is_pad pad ≡ []
    → rstrip_by is_pad (map letter vs ++ pad) ≡ map letter vs
unfolding rstrip_by
rstrip_by-letters [] pad h e = e
rstrip_by-letters (v ∷ vs) pad h e =
    rw (rstrip_by-letters vs pad h.1 e, letter-ne-pad v h.0) (ground arith)

pow_mono : (m d : ℕ) → 2 ^ m ≤ 2 ^ (m + d)
pow_mono m zero =
    let q : m + zero ≡ m = omega arith in let r : 2 ^ m ≤ 2 ^ m = omega arith in rw q r
pow_mono m (suc d) =
    let q : m + suc d ≡ suc (m + d) = omega arith in
    rw (q, pow-suc 2 (m + d)) (omega (arith, pow_mono m d))

pow_256 : (k : ℕ) → 2 ^ (8 * k) ≡ 256 ^ k
pow_256 zero = refl
pow_256 (suc k) =
    let q : 8 * suc k ≡ 8 + 8 * k = omega arith in
    rw (q, pow_add 2 8 (8 * k), pow_256 k, pow-suc 256 k) (omega arith)

le_pow : (m k : ℕ) → m ≤ k → 2 ^ m ≤ 2 ^ k
le_pow m k h =
    let q : m + (k - m) ≡ k = omega (arith, h) in subst (λ x. 2 ^ m ≤ 2 ^ x) q (pow_mono m (k - m))

-- The bytes that the length in bits asks for are enough.
fits : (n : ℕ) → n < 256 ^ ((bit_length n + 7) / 8)
unfolding bit_length
fits n =
    subst (λ x. n < x) (pow_256 ((bit_length n + 7) / 8))
      (omega (
        arith,
        bits-bound n n (omega arith),
        le_pow (bits n n) (8 * ((bits n n + 7) / 8)) (omega arith),
      ))

decode_number-encode_number : (n : ℕ) → decode_number (encode_number n) ≡ some n
unfolding decode_number encode_number urlsafe_b64encode urlsafe_b64decode
decode_number-encode_number n =
    let bs = to_bytes n ((bit_length n + 7) / 8) in
    let lt = to_bytes-lt n ((bit_length n + 7) / 8) in
    rw
      (
        rstrip_by-letters (sextets bs) (padding bs) (sextets-lt bs lt) (rstrip_by-padding bs),
        a2b-sextets bs lt,
        decode_number,
      )
      (ap some (from_bytes-to_bytes n ((bit_length n + 7) / 8) (fits n)))

-- A certificate of the response: its name there, and what it holds.
pub record Certificate : Type 0 where
  pub name : Text
  pub pem : Text
  pub modulus : ℕ
  pub exponent : ℕ
  pub kid : Text

abbrev pub entry : Certificate → Text × Text
entry c = (c.name, c.pem)

module _ (load_pem : Text → Option (PublicKey × Text)) (public_key : ℕ → ℕ → Bool) where
  -- The certificate has the parsed RSA key, which the library takes, and is not named `keys`.
  pub record IsRsa (c : Certificate) : Type 0 where
    pub named : text_eq c.name (codes "keys") ≡ false
    pub parsed : load_pem c.pem ≡ some (rsa_key c.modulus c.exponent, c.kid)
    pub taken : public_key c.exponent c.modulus ≡ true

  jwk_of : Certificate → Jwk
  jwk_of c = record {
    kty = codes "RSA";
    kid = c.kid;
    alg = codes "RS256";
    usage = codes "sig";
    n = encode_number c.modulus;
    e = encode_number c.exponent;
  }

  update_jwks-certificates :
      (cs : List Certificate)
      → All IsRsa cs
      → update_jwks load_pem public_key (map entry cs) ≡ some (map jwk_of cs)
  unfolding update_jwks extract_jwk jwk_of
  update_jwks-certificates [] h = refl
  update_jwks-certificates (c ∷ cs) h =
      rw (h.0.named, h.0.parsed, update_jwks-certificates cs h.1) refl

  jwk_to_rsa_public_key-jwk_of :
      (c : Certificate)
      → IsRsa c
      → jwk_to_rsa_public_key load_pem public_key (jwk_of c) ≡ some c.modulus
  unfolding jwk_to_rsa_public_key jwk_of
  jwk_to_rsa_public_key-jwk_of c h =
      rw (decode_number-encode_number c.modulus, decode_number-encode_number c.exponent, h.taken)
        refl

  matches_jwk-certificates :
      (n k : ℕ) (ls : List Text) (cs : List Certificate)
      → All IsRsa cs
      → matches_jwk load_pem public_key n k (limbs ls) (map jwk_of cs)
        ≡ some (matches_key n k (limbs ls) (map (λ c. c.modulus) cs))
  unfolding matches_jwk matches_key is_modulus
  matches_jwk-certificates n k ls [] h = refl
  matches_jwk-certificates n k ls (c ∷ cs) h =
      rw (jwk_to_rsa_public_key-jwk_of c h.0, matches_jwk-certificates n k ls cs h.1) (ground arith)

  -- The provider after it fetched the certificates.
  abbrev pub provider : ℕ → ℕ → List Certificate → Provider
  provider n k held = record {
    circom_bigint_n = n;
    circom_bigint_k = k;
    jwks = update_jwks load_pem public_key (map entry held);
  }

  abbrev pub moduli : List Certificate → List ℕ
  moduli cs = map (λ c. c.modulus) cs

  verify-certificates :
      (n k : ℕ) (ls : List Text) (held cs : List Certificate)
      → All IsRsa held
      → All IsRsa cs
      → (verify load_pem public_key (provider n k held) (some (map entry cs)) (limbs ls)).1
        ≡ (oauth_verify
            (record { circom_bigint_n = n; circom_bigint_k = k; jwks = some (moduli held) })
            (some (moduli cs))
            (limbs ls)).1
  unfolding verify verify_once retry_verify oauth_verify oauth_verify_once oauth_retry_verify
  verify-certificates n k ls held cs hs h =
      elim (Bool-cases (matches_key n k (limbs ls) (moduli held))) [
        | inl e ↦
            rw
              (
                update_jwks-certificates held hs,
                verify,
                matches_jwk-certificates n k ls held hs,
                oauth_verify,
                e,
              )
              refl
        | inr e ↦
            rw
              (
                update_jwks-certificates held hs,
                verify,
                matches_jwk-certificates n k ls held hs,
                oauth_verify,
                e,
                retry_verify,
                oauth_retry_verify,
                update_jwks-certificates cs h,
                verify_once,
                matches_jwk-certificates n k ls cs h,
              )
              refl
      ]

  -- The provider makes keys of the RSA certificates that it fetched, and of those that it fetches
  -- again where a first check fails. If all moduli fit into the limbs, a login with the limbs of `m`
  -- passes `verify` exactly if `m` is the modulus of one of these certificates: the way through the
  -- big-endian bytes and base64 without its padding loses nothing.
  pub verify-accepts_certificates :
      (n k m : ℕ) (held cs : List Certificate)
      → m < 2 ^ (k * n)
      → All (λ x. x < 2 ^ (k * n)) (moduli held)
      → All (λ x. x < 2 ^ (k * n)) (moduli cs)
      → All IsRsa held
      → All IsRsa cs
      → ((verify load_pem public_key
            (provider n k held)
            (some (map entry cs))
            (limbs (to_circom_bigint_bytes n k m))).1
          ≡ some true)
        ↔ (IsKey m (moduli held) ⊎ IsKey m (moduli cs))
  verify-accepts_certificates n k m held cs f gs fs hs h =
      rw (verify-certificates n k (to_circom_bigint_bytes n k m) held cs hs h)
        (verify-accepts n k m (moduli held) (moduli cs) f gs fs)
