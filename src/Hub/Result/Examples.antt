-- ===== src/Hub/Result/Examples.antt =====
-- A result on its way to the explorer, with a shifted text in place of a sealed one.
use prover.Prelude.{◌≡◌, refl, none, some, [], ◌∷◌, Text, codes}
use prover.Prelude.Int.{pos}
use prover.Hub.Http.{respond, ok, successfully}
use prover.Hub.Register.{Decrypted, plain}
use prover.Hub.Result.{cipher, explorer, decryptor, short, hub_post_results}
use prover.Hub.Result.Relay.{request_of, explained, hub_post_results-send_result}
use prover.Node.HttpV1.{HubWorld, duration_text, send_result}
use prover.Node.Service.Prove.{ProofResult}

abbrev seal : Text → Text
seal s = 64 ∷ s

abbrev open_seal : Text → Decrypted
open_seal [] = plain []
open_seal (c ∷ cs) = plain cs

abbrev to_explorer : Text → Text
to_explorer s = 35 ∷ s

abbrev hub : HubWorld
hub = record { session_key = some (λ s. some (seal s)); dumps = λ v. codes "[]" }

abbrev result : ProofResult
result = record {
  code = pos 0;
  msg = [];
  proof = some (codes "p");
  witness = none;
  project_name = some (codes "Fair");
  verifiers = some [];
  duration = some 12;
}

hub_post_results-send_result_example :
    (b : prover.Node.HttpV1.ResultBody) × (send_result hub (codes "Fair") (codes "h") result
      ≡ some (b ∷ []))
    × (hub_post_results
          (decryptor open_seal)
          (explorer (λ s. cipher (to_explorer s)))
          (request_of b)
        ≡ (
          explained to_explorer (codes "Fair") (codes "h") (duration_text (some 12)) (codes "[]")
              ∷ [],
          respond ok (short successfully),
        ))
hub_post_results-send_result_example =
    hub_post_results-send_result open_seal to_explorer hub seal (codes "Fair") (codes "h") result
      refl (λ s. refl) refl refl refl
