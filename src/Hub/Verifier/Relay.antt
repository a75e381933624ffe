-- ===== src/Hub/Verifier/Relay.antt =====
-- The way of an update of verifiers: `verifier` of prover/node/src/application/http_server/v1/main.py,
-- `hub_put_verifier` of verifier/api.py, and the explorer.
use prover.Prelude.{
  ℕ, ◌≡◌, refl, true, false, Option, some, List, [], ◌∷◌, Text, codes, is_empty, ap, ◌∙◌,
}
use prover.Hub.Http.{Response, status_of, respond, ok, successfully}
use prover.Hub.Register
use prover.Hub.Register.{Decrypted}
use prover.Hub.Result.{cipher, explorer, decryptor, short}
use prover.Hub.Verifier.{
  Codec, VerifierBody, update_verifier, relay, check_update, hub_put_verifier,
}
use prover.Node.Service
use prover.Node.Status.{status_code_successfully}
use prover.Node.HttpV1.{status_response}
use prover.Node.Verifier
use prover.Node.Verifier.{VerifierRequest, VerifierWorld, verifier}
use prover.Node.Verifier.Accepted.{verifier-accepts}

-- The request that a body of the node is to the hub.
abbrev pub request_of : prover.Node.Verifier.VerifierBody → VerifierBody
request_of b = record { proof_hash = b.proof_hash; verifiers = b.verifiers }

abbrev pub explained : (Text → Text) → Text → Text → VerifierBody
explained encrypt h v = record { proof_hash = encrypt h; verifiers = encrypt v }

module _ {V : Type 0} (c : Codec V) (decrypt : Text → Decrypted) (to_explorer : Text → Text) where
  hub_put_verifier-plain :
      (b : VerifierBody) (h t : Text) (v : V)
      → decrypt b.proof_hash ≡ Register.plain h
      → decrypt b.verifiers ≡ Register.plain t
      → c.loads t ≡ some v
      → is_empty h ≡ false
      → c.truthy v ≡ true
      → hub_put_verifier c (decryptor decrypt) (explorer (λ s. cipher (to_explorer s))) b
        ≡ (explained to_explorer h (c.dumps v) ∷ [], respond ok (short successfully))
  unfolding hub_put_verifier check_update relay update_verifier
  hub_put_verifier-plain b h t v eh et l n f = rw (eh, et, l, n, f) refl

  -- The hub's answer to a body of the node, by its status.
  abbrev pub hub_answer : prover.Node.Verifier.VerifierBody → Option ℕ
  hub_answer b = some (
      status_of
        (hub_put_verifier c (decryptor decrypt) (explorer (λ s. cipher (to_explorer s)))
          (request_of b)).1)

  -- What a request has to satisfy at the node: it is sealed for the node's private key, and its list
  -- of verifiers is not empty.
  pub record IsSealedFor (w : VerifierWorld V) (r : VerifierRequest) (h : Text) (v : V)
      : Type 0 where
    pub node_decrypt : Text → prover.Node.Service.Decrypted
    pub key : w.private_key ≡ prover.Node.Verifier.decryptor node_decrypt
    pub hash_read : node_decrypt r.proof_hash ≡ Service.plain h
    pub text : Text
    pub text_read : node_decrypt r.verifier ≡ Service.plain text
    pub text_loaded : w.loads text ≡ some v
    pub truthy : w.truthy v ≡ true

  -- If the hub's key opens what the node's session key seals, the hub loads what the node dumps, and
  -- the answers that the node gets are those of `hub_put_verifier`, then a request that is sealed for
  -- the node, with a proof hash that is not empty and a list of verifiers that is not, makes the node
  -- put to the hub one body, makes the hub put to the explorer the request's proof hash and
  -- verifiers, encrypted anew, and is answered with success by both.
  pub verifier-hub_put_verifier :
      (w : VerifierWorld V) (seal : Text → Text) (r : VerifierRequest) (h : Text) (v : V)
      → IsSealedFor w r h v
      → w.session_key ≡ some (λ s. some (seal s))
      → ((s : Text) → decrypt (seal s) ≡ Register.plain s)
      → c.loads (w.dumps v) ≡ some v
      → c.truthy v ≡ true
      → is_empty h ≡ false
      → ((b : prover.Node.Verifier.VerifierBody) → w.answers b ≡ hub_answer b)
      → (b : prover.Node.Verifier.VerifierBody) × (verifier w r
          ≡ (b ∷ [], status_response status_code_successfully (codes "Successfully")))
        × (hub_put_verifier c
              (decryptor decrypt)
              (explorer (λ s. cipher (to_explorer s)))
              (request_of b)
            ≡ (explained to_explorer h (c.dumps v) ∷ [], respond ok (short successfully)))
  unfolding respond
  verifier-hub_put_verifier w seal r h v x s opens back t n answers =
      let b : prover.Node.Verifier.VerifierBody = record {
        proof_hash = seal h;
        verifiers = seal (w.dumps v);
      } in
      let relayed =
        hub_put_verifier-plain (request_of b) h (w.dumps v) v (opens h) (opens (w.dumps v)) back n
          t in
      (
        b,
        (verifier-accepts w r).1 b (record {
          decrypt = x.node_decrypt;
          key = x.key;
          proof_hash = h;
          hash_read = x.hash_read;
          text = x.text;
          text_read = x.text_read;
          verifiers = v;
          text_loaded = x.text_loaded;
          put = record {
            truthy = x.truthy;
            encrypt = λ s. some (seal s);
            session = s;
            hash_sealed = refl;
            verifiers_sealed = refl;
            answered =
                answers b ∙ ap (λ (q : List VerifierBody × Response). some (status_of q.1)) relayed;
          };
        }),
        relayed,
      )
