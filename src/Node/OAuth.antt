-- ===== src/Node/OAuth.antt =====
-- prover/node/src/modules/oauth_provider/google/main.py (telegram and x509_google have the same
-- `verify`, `_verify` and `_to_circom_bigint_bytes`), and the resolver of
-- prover/node/src/modules/oauth_provider/base.py. A key of the provider is its RSA modulus: what
-- the cryptography library decodes of a JWK.
pub mod Limbs
pub mod Verify
mod Examples
use prover.Prelude.{
  ℕ, zero, suc, ◌+◌, ◌*◌, ◌/◌, ◌%◌, ◌^◌, Bool, true, false, ◌||◌, Option, none, some, List, [], ◌∷◌,
  Text, if◌then◌else◌, map, is_yes, text_discrete,
}
use prover.Prelude.Decimal.{decimal}
use prover.Dict.{Dict, lookup}

-- `(num >> (i * n)) & ((1 << n) - 1)`, for `i` from the given one on.
unfoldable pub chunks : ℕ → ℕ → ℕ → ℕ → List ℕ
chunks n num i zero = []
chunks n num i (suc k) = (num / 2 ^ (i * n)) % 2 ^ n ∷ chunks n num (i + 1) k

-- `_to_circom_bigint_bytes`
unfoldable pub to_circom_bigint_bytes : ℕ → ℕ → ℕ → List Text
unfolding chunks
to_circom_bigint_bytes n k num = map decimal (chunks n num 0 k)

-- The payload's `modulus`: a list of texts, another JSON value, or what raises on the way to it.
pub data Modulus : Type 0 where
  limbs : List Text → Modulus
  other : Modulus
  unreadable : Modulus

unfoldable pub list_eq : List Text → List Text → Bool
list_eq [] [] = true
list_eq [] (t ∷ ts) = false
list_eq (s ∷ ss) [] = false
list_eq (s ∷ ss) (t ∷ ts) =
    let rest = list_eq ss ts in if is_yes (text_discrete s t) then rest else false

-- The provider: the width and number of the limbs, and the keys once they were fetched.
pub record Provider : Type 0 where
  pub circom_bigint_n : ℕ
  pub circom_bigint_k : ℕ
  pub jwks : Option (List ℕ)

-- The loop over the keys.
unfoldable pub matches_key : ℕ → ℕ → Modulus → List ℕ → Bool
unfolding list_eq to_circom_bigint_bytes
matches_key n k m [] = false
matches_key n k (limbs ls) (key ∷ keys) =
    let rest = matches_key n k (limbs ls) keys in
    if list_eq ls (to_circom_bigint_bytes n k key) then true else rest
matches_key n k other (key ∷ keys) = false
matches_key n k unreadable (key ∷ keys) = false

-- `_verify`; `none` is the `AttributeError` of a provider that has no keys yet.
unfoldable pub verify_once : Provider → Modulus → Option Bool
unfolding matches_key
verify_once p unreadable = some false
verify_once p other = elim p.jwks [
  | none ↦ none
  | some keys ↦ some (matches_key p.circom_bigint_n p.circom_bigint_k other keys)
]
verify_once p (limbs ls) = elim p.jwks [
  | none ↦ none
  | some keys ↦ some (matches_key p.circom_bigint_n p.circom_bigint_k (limbs ls) keys)
]

-- After a first failure: fetch and try again; `none` for the fetch is an exception.
unfoldable pub retry_verify : Provider → Option (List ℕ) → Modulus → Provider × Option Bool
unfolding verify_once
retry_verify p none m = (p, none)
retry_verify p (some keys) m =
    let p' : Provider = record p { jwks = some keys } in (p', verify_once p' m)

-- `verify`; `fetched` is what `update_jwks` gets, if it is called.
unfoldable pub verify : Provider → Option (List ℕ) → Modulus → Provider × Option Bool
unfolding retry_verify
verify p fetched m = elim (verify_once p m) [
  | none ↦ (p, none)
  | some true ↦ (p, some true)
  | some false ↦ retry_verify p fetched m
]

-- An entry of the resolver's file: a name, an object with perhaps a `provider`, or another value.
pub data ProviderInfo : Type 0 where
  name : Text → ProviderInfo
  object : Option Text → ProviderInfo
  something : ProviderInfo

abbrev pub provider_of : Option ProviderInfo → Option Text
provider_of none = none
provider_of (some (name s)) = some s
provider_of (some (object p)) = p
provider_of (some something) = none

-- `OAuthProviderResolver.resolve_provider`
unfoldable pub resolve_provider : Text → Dict ProviderInfo → Option Text
resolve_provider template_id infos = provider_of (lookup template_id infos)

-- `_load_config`: the entries of the file; `none` is an exception of its reading.
unfoldable pub load_config : Option (Dict ProviderInfo) → Dict ProviderInfo
load_config none = []
load_config (some infos) = infos
