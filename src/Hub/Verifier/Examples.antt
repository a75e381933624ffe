-- ===== src/Hub/Verifier/Examples.antt =====
-- An update on its way to the explorer, with shifted texts in place of sealed ones.
use prover.Prelude.{◌≡◌, refl, not, some, [], ◌∷◌, Text, codes, is_empty}
use prover.Hub.Http.{respond, ok, successfully}
use prover.Hub.Register
use prover.Hub.Register.{Decrypted}
use prover.Hub.Result.{cipher, explorer, decryptor, short}
use prover.Hub.Verifier.{Codec, hub_put_verifier}
use prover.Hub.Verifier.Relay.{request_of, explained, hub_answer, verifier-hub_put_verifier}
use prover.Node.Service
use prover.Node.Status.{status_code_successfully}
use prover.Node.HttpV1.{status_response}
use prover.Node.Verifier
use prover.Node.Verifier.{VerifierRequest, VerifierWorld, verifier}

abbrev seal : Text → Text
seal s = 64 ∷ s

abbrev open_seal : Text → Decrypted
open_seal [] = Register.plain []
open_seal (c ∷ cs) = Register.plain cs

abbrev open_node : Text → prover.Node.Service.Decrypted
open_node [] = Service.undecrypted
open_node (c ∷ cs) = Service.plain cs

abbrev to_explorer : Text → Text
to_explorer s = 35 ∷ s

-- A list of verifiers is its own JSON text.
abbrev codec : Codec Text
codec = record { loads = λ s. some s; truthy = λ s. not (is_empty s); dumps = λ s. s }

abbrev world : VerifierWorld Text
world = record {
  private_key = Verifier.decryptor open_node;
  loads = λ s. some s;
  truthy = λ s. not (is_empty s);
  dumps = λ s. s;
  session_key = some (λ s. some (seal s));
  answers = hub_answer codec open_seal to_explorer;
}

abbrev update : VerifierRequest
update = record { proof_hash = codes "ah"; verifier = codes "bv" }

verifier-hub_put_verifier_example :
    (b : prover.Node.Verifier.VerifierBody) × (verifier world update
      ≡ (b ∷ [], status_response status_code_successfully (codes "Successfully")))
    × (hub_put_verifier codec
          (decryptor open_seal)
          (explorer (λ s. cipher (to_explorer s)))
          (request_of b)
        ≡ (explained to_explorer (codes "h") (codes "v") ∷ [], respond ok (short successfully)))
verifier-hub_put_verifier_example =
    verifier-hub_put_verifier codec open_seal to_explorer world seal update (codes "h") (codes "v")
      (record {
        node_decrypt = open_node;
        key = refl;
        hash_read = refl;
        text = codes "v";
        text_read = refl;
        text_loaded = refl;
        truthy = refl;
      })
      refl (λ s. refl) refl refl refl (λ b. refl)
