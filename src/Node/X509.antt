-- ===== src/Node/X509.antt =====
-- `Provider` of prover/node/src/modules/oauth_provider/x509_google/main.py: how it makes JSON web keys
-- of certificates, how a key is read back, which all the providers do in the same way, and `verify`. The
-- parser of a certificate and the checks of `public_key` are parameters.
pub mod Decoded
mod Examples
use prover.Prelude.{
  ℕ, zero, suc, ◌+◌, ◌/◌, Bool, true, false, not, Option, none, some, List, [], ◌∷◌, ◌++◌, Text,
  codes, if◌then◌else◌, ◌==◌, map, All,
}
use prover.PyText.{text_eq, rstrip_by}
use prover.Dict.{Dict}
use prover.Base64.{urlsafe_b64encode, urlsafe_b64decode, to_bytes, from_bytes, bit_length}
use prover.Node.OAuth.{Modulus, limbs, other, unreadable, list_eq, to_circom_bigint_bytes}

-- The public key of a certificate.
pub data PublicKey : Type 0 where
  rsa_key : ℕ → ℕ → PublicKey
  other_key : PublicKey

pub record Jwk : Type 0 where
  pub kty : Text
  pub kid : Text
  pub alg : Text
  pub usage : Text
  pub n : Text
  pub e : Text

-- The provider: the width and number of the limbs, and the keys once they were fetched.
pub record Provider : Type 0 where
  pub circom_bigint_n : ℕ
  pub circom_bigint_k : ℕ
  pub jwks : Option (List Jwk)

-- `base64.urlsafe_b64encode(n.to_bytes((n.bit_length() + 7) // 8, 'big')).decode().rstrip("=")`
unfoldable pub encode_number : ℕ → Text
encode_number n =
    rstrip_by (λ c. c == b'=') (urlsafe_b64encode (to_bytes n ((bit_length n + 7) / 8)))

-- `int.from_bytes(base64.urlsafe_b64decode(text + "=="), byteorder='big')`; `none` is an exception.
unfoldable pub decode_number : Text → Option ℕ
decode_number text = elim (urlsafe_b64decode (text ++ codes "==")) [
  | none ↦ none
  | some bytes ↦ some (from_bytes 0 bytes)
]

-- `_extract_jwk_from_pem`, with the `kid` of the certificate; `none` is `None`, which is no JWK.
unfoldable pub extract_jwk : PublicKey → Text → Option Jwk
unfolding encode_number
extract_jwk other_key kid = none
extract_jwk (rsa_key n e) kid = some (record {
  kty = codes "RSA";
  kid = kid;
  alg = codes "RS256";
  usage = codes "sig";
  n = encode_number n;
  e = encode_number e;
})

abbrev pub both : {A B : Type 0} → Option A → Option B → Option (A × B)
both none b = none
both (some a) none = none
both (some a) (some b) = some (a, b)

abbrev pub and_then : {A B : Type 0} → Option A → (A → Option B) → Option B
and_then none f = none
and_then (some a) f = f a

-- A certificate in PEM: its key and the `kid` that is made of it; `none` is a parser's exception.
module _ (load_pem : Text → Option (PublicKey × Text)) (public_key : ℕ → ℕ → Bool) where
  abbrev pub extract_pem : Text → Option Jwk
  extract_pem pem = and_then (load_pem pem) (λ (c : PublicKey × Text). extract_jwk c.0 c.1)

  -- The keys of `update_jwks`, from the response's object without its entry `keys`.
  unfoldable pub update_jwks : Dict Text → Option (List Jwk)
  unfolding extract_jwk
  update_jwks [] = some []
  update_jwks ((k, pem) ∷ response) =
      let rest : Option (List Jwk) = update_jwks response in
      if text_eq k (codes "keys")
      then rest
      else and_then (extract_pem pem) (λ j. and_then rest (λ js. some (j ∷ js)))

  -- `_jwk_to_rsa_public_key`: the modulus of the key. `public_key` says whether the library takes
  -- the exponent and the modulus.
  unfoldable pub jwk_to_rsa_public_key : Jwk → Option ℕ
  unfolding decode_number
  jwk_to_rsa_public_key jwk =
      and_then (both (decode_number jwk.n) (decode_number jwk.e))
        (λ (x : ℕ × ℕ). if public_key x.1 x.0 then some x.0 else none)

  -- The test of the loop over the keys.
  unfoldable pub is_modulus : ℕ → ℕ → Modulus → ℕ → Bool
  unfolding list_eq to_circom_bigint_bytes
  is_modulus n k (limbs ls) m = list_eq ls (to_circom_bigint_bytes n k m)
  is_modulus n k other m = false
  is_modulus n k unreadable m = false

  -- The loop over the keys: each is read when its turn comes.
  unfoldable pub matches_jwk : ℕ → ℕ → Modulus → List Jwk → Option Bool
  unfolding jwk_to_rsa_public_key is_modulus
  matches_jwk n k input [] = some false
  matches_jwk n k input (j ∷ js) =
      let rest : Option Bool = matches_jwk n k input js in
      and_then (jwk_to_rsa_public_key j) (λ m. if is_modulus n k input m then some true else rest)

  -- `_verify`
  unfoldable pub verify_once : Provider → Modulus → Option Bool
  unfolding matches_jwk
  verify_once p unreadable = some false
  verify_once p other =
      and_then p.jwks (λ js. matches_jwk p.circom_bigint_n p.circom_bigint_k other js)
  verify_once p (limbs ls) =
      and_then p.jwks (λ js. matches_jwk p.circom_bigint_n p.circom_bigint_k (limbs ls) js)

  -- After a first failure; `none` for the response is an exception of the download.
  unfoldable pub retry_verify : Provider → Option (Dict Text) → Modulus → Provider × Option Bool
  unfolding update_jwks verify_once
  retry_verify p response input = elim (and_then response update_jwks) [
    | none ↦ (p, none)
    | some js ↦ let p' : Provider = record p { jwks = some js } in (p', verify_once p' input)
  ]

  -- `verify`
  unfoldable pub verify : Provider → Option (Dict Text) → Modulus → Provider × Option Bool
  unfolding retry_verify
  verify p response input = elim (verify_once p input) [
    | none ↦ (p, none)
    | some true ↦ (p, some true)
    | some false ↦ retry_verify p response input
  ]
