-- ===== src/Hub/Result/Relay.antt =====
-- What the explorer hears of a proof: from `send_result` of prover/node/src/modules/hub/main.py
-- through `hub_post_results` of result/api.py.
use prover.Prelude.{
  ℕ, ◌≡◌, refl, false, ◌||◌, Option, none, some, [], ◌∷◌, Text, is_empty, arith, ap,
}
use prover.Prelude.Decimal.{decimal-cons}
use prover.Hub.Http.{respond, ok, successfully}
use prover.Hub.Register.{Decrypted, plain}
use prover.Hub.Result.{
  cipher, explorer, decryptor, ResultBody, short, relay, check_result, hub_post_results, send_proof,
}
use prover.Node.HttpV1.{HubWorld, duration_text, send_result}
use prover.Node.Service.Prove.{ProofResult}

-- The request that a body of the node is to the hub.
abbrev pub request_of : prover.Node.HttpV1.ResultBody → ResultBody
request_of b = record {
  project_name = b.project_name;
  proof_hash = b.proof_hash;
  duration = b.duration;
  verifiers = b.verifiers;
}

-- The body for the explorer, with the texts of the node.
abbrev pub explained : (Text → Text) → Text → Text → Text → Text → ResultBody
explained encrypt p h d v = record {
  project_name = encrypt p;
  proof_hash = encrypt h;
  duration = encrypt d;
  verifiers = encrypt v;
}

module _ (decrypt : Text → Decrypted) (to_explorer : Text → Text) where
  hub_post_results-plain :
      (b : ResultBody) (p h d v : Text)
      → decrypt b.project_name ≡ plain p
      → decrypt b.proof_hash ≡ plain h
      → decrypt b.duration ≡ plain d
      → decrypt b.verifiers ≡ plain v
      → (is_empty p || is_empty h || is_empty v || is_empty d) ≡ false
      → hub_post_results (decryptor decrypt) (explorer (λ s. cipher (to_explorer s))) b
        ≡ (explained to_explorer p h d v ∷ [], respond ok (short successfully))
  unfolding hub_post_results check_result relay send_proof
  hub_post_results-plain b p h d v ep eh ed ev n = rw (ep, eh, ed, ev, n) refl

  duration_text-nonempty : (d : Option ℕ) → is_empty (duration_text d) ≡ false
  duration_text-nonempty none = refl
  duration_text-nonempty (some n) = let (d, ds, e) = decimal-cons n in ap is_empty e

  send_result-seals :
      (hub : HubWorld) (seal : Text → Text) (name proof_hash : Text) (r : ProofResult)
      → hub.session_key ≡ some (λ s. some (seal s))
      → send_result hub name proof_hash r
        ≡ some (
            record {
              project_name = seal name;
              proof_hash = seal proof_hash;
              duration = seal (duration_text r.duration);
              verifiers = seal (hub.dumps r.verifiers);
            }
            ∷ [])
  unfolding send_result
  send_result-seals hub seal name proof_hash r e = rw (send_result, e) refl

  -- If the hub's key opens what the node's session key seals, then the body that the node posts for
  -- a result makes the hub post to the explorer exactly the node's texts, encrypted anew, and answer
  -- with success. The project's name, the proof hash and the list of verifiers are not empty texts.
  pub hub_post_results-send_result :
      (hub : HubWorld) (seal : Text → Text) (name proof_hash : Text) (r : ProofResult)
      → hub.session_key ≡ some (λ s. some (seal s))
      → ((s : Text) → decrypt (seal s) ≡ plain s)
      → is_empty name ≡ false
      → is_empty proof_hash ≡ false
      → is_empty (hub.dumps r.verifiers) ≡ false
      → (b : prover.Node.HttpV1.ResultBody) × (send_result hub name proof_hash r ≡ some (b ∷ []))
        × (hub_post_results
              (decryptor decrypt)
              (explorer (λ s. cipher (to_explorer s)))
              (request_of b)
            ≡ (
              explained to_explorer name proof_hash
                    (duration_text r.duration)
                    (hub.dumps r.verifiers)
                  ∷ [],
              respond ok (short successfully),
            ))
  hub_post_results-send_result hub seal name proof_hash r e opens n m k = (
    _,
    send_result-seals hub seal name proof_hash r e,
    hub_post_results-plain
        (record {
          project_name = seal name;
          proof_hash = seal proof_hash;
          duration = seal (duration_text r.duration);
          verifiers = seal (hub.dumps r.verifiers);
        })
        name proof_hash (duration_text r.duration) (hub.dumps r.verifiers) (opens name)
        (opens proof_hash) (opens (duration_text r.duration)) (opens (hub.dumps r.verifiers))
        (ground (arith, n, m, k, duration_text-nonempty r.duration)),
  )
