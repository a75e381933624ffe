-- ===== src/Node/Verifier/Examples.antt =====
-- An update of the verifiers of a proof, and one whose proof hash cannot be decrypted.
use prover.Prelude.{◌≡◌, ◌↔◌, refl, not, some, [], ◌∷◌, Text, codes, is_empty}
use prover.Node.Status.{status_code_successfully}
use prover.Node.Service.{Decrypted, plain, undecrypted}
use prover.Node.HttpV1.{status_response, uncaught}
use prover.Node.Verifier.{
  VerifierRequest, VerifierBody, VerifierWorld, decryptor, handle_verifier, check_verifiers,
  update_verifier, verifier,
}
use prover.Node.Verifier.Accepted.{IsUpdate, verifier-accepts}

abbrev open_node : Text → Decrypted
open_node [] = undecrypted
open_node (c ∷ cs) = plain cs

abbrev world : VerifierWorld Text
world = record {
  private_key = decryptor open_node;
  loads = λ s. some s;
  truthy = λ s. not (is_empty s);
  dumps = λ s. s;
  session_key = some (λ s. some s);
  answers = λ b. some 200;
}

abbrev update : VerifierRequest
update = record { proof_hash = codes "ah"; verifier = codes "bv" }

verifier-accepts_example :
    (((verifier world update).1 ≡ status_response status_code_successfully (codes "Successfully"))
      ↔ ((b : VerifierBody) × IsUpdate world update b))
    × ((b : VerifierBody)
        → IsUpdate world update b
        → verifier world update
          ≡ (b ∷ [], status_response status_code_successfully (codes "Successfully")))
verifier-accepts_example = verifier-accepts world update

-- A proof hash that cannot be decrypted raises an exception instead of being refused.
unread : verifier world (record update { proof_hash = [] }) ≡ ([], uncaught)
unfolding verifier handle_verifier check_verifiers update_verifier
unread = refl
