-- ===== src/Node/X509/Examples.antt =====
-- One certificate, whose modulus is 11.
use prover.Prelude.{
  ℕ, ◌≡◌, ◌↔◌, ◌⊎◌, refl, Bool, true, Option, some, [], ◌∷◌, Text, codes, arith, text_discrete,
}
use prover.Node.OAuth.{limbs, to_circom_bigint_bytes}
use prover.Node.OAuth.Verify.{IsKey}
use prover.Node.X509.{PublicKey, rsa_key, verify}
use prover.Node.X509.Decoded.{Certificate, entry, IsRsa, provider, verify-accepts_certificates}

abbrev load_pem : Text → Option (PublicKey × Text)
load_pem pem = some (rsa_key 11 3, codes "kid")

abbrev take_all : ℕ → ℕ → Bool
take_all e n = true

abbrev certificate : Certificate
certificate = record {
  name = codes "k1";
  pem = codes "pem";
  modulus = 11;
  exponent = 3;
  kid = codes "kid";
}

certificate-IsRsa : IsRsa load_pem take_all certificate
unfolding text_discrete
certificate-IsRsa = record { named = refl; parsed = refl; taken = refl }

verify-accepts_certificates_example :
    ((verify load_pem take_all
        (provider load_pem take_all 2 2 [])
        (some (entry certificate ∷ []))
        (limbs (to_circom_bigint_bytes 2 2 11))).1
      ≡ some true)
    ↔ (IsKey 11 [] ⊎ IsKey 11 (11 ∷ []))
verify-accepts_certificates_example =
    verify-accepts_certificates load_pem take_all 2 2 11 [] (certificate ∷ []) (omega arith) tt
      (omega arith, tt) tt (certificate-IsRsa, tt)
