-- ===== src/Node/Verifier.antt =====
-- The update of a proof's verifiers at the node: `verifier` of
-- prover/node/src/application/http_server/v1/main.py, `UpdateVerifier` of grpc_server/v1/main.py, and
-- `update_verifier` of prover/node/src/modules/hub/main.py. A list of verifiers is a value of a type
-- V, which is what `ujson.loads` makes of its text.
pub mod Accepted
mod Examples
use prover.Prelude.{
  ℕ, Bool, true, false, not, Option, none, some, List, [], ◌∷◌, ◌++◌, Text, codes, if◌then◌else◌,
  ◌==◌,
}
use prover.Prelude.Int.{ℤ, pos, negsuc}
use prover.Node.Status.{
  status_code_successfully, status_code_error, status_code_private_key_not_found,
  status_code_private_key_invalid,
}
use prover.Node.Service.{Decrypted, plain, undecrypted, error}
use prover.Node.HttpV1.{HttpResponse, status_response, uncaught}

pub record VerifierRequest : Type 0 where
  pub proof_hash : Text
  pub verifier : Text

-- The body that `update_verifier` puts to the hub.
pub record VerifierBody : Type 0 where
  pub proof_hash : Text
  pub verifiers : Text

-- The private key's file: missing, not a key, or its `decrypt`.
pub data KeyFile : Type 0 where
  missing : KeyFile
  malformed : KeyFile
  decryptor : (Text → Decrypted) → KeyFile

-- What the handlers are told: the private key; `ujson.loads`, `bool` and `ujson.dumps` of a list of
-- verifiers; the `encrypt` of the session key, if its file is there; and the status of the hub's
-- answer, if it answers. `none` is an exception.
pub record VerifierWorld (V : Type 0) : Type 0 where
  pub private_key : KeyFile
  pub loads : Text → Option V
  pub truthy : V → Bool
  pub dumps : V → Text
  pub session_key : Option (Text → Option Text)
  pub answers : VerifierBody → Option ℕ

-- What `update_verifier` returns: `None` without a session key, else a Boolean; or it raises.
pub data Updated : Type 0 where
  updated : Bool → Updated
  no_session_key : Updated
  update_error : Updated

-- How a handler ends. The two handlers say it in different words.
pub data Verdict : Type 0 where
  key_not_found : Verdict
  invalid_input : Verdict
  no_verifiers : Verdict
  successful : Verdict
  update_failed : Verdict
  escaped : Verdict

-- `if response.status == 200`, where an error of the client is `False`.
abbrev pub is_ok : Option ℕ → Bool
is_ok none = false
is_ok (some status) = status == 200

-- `False.encode` raises.
abbrev pub encrypt_hash : (Text → Option Text) → Option Text → Option Text
encrypt_hash encrypt none = none
encrypt_hash encrypt (some proof_hash) = encrypt proof_hash

-- `if result`
abbrev pub verdict_of : Updated → Verdict
verdict_of (updated true) = successful
verdict_of (updated false) = update_failed
verdict_of no_session_key = update_failed
verdict_of update_error = escaped

-- `rsa_encryption.decrypt(proof_hash)`, which may be `False`, the inner `none`.
abbrev pub hash_of : Decrypted → Option (Option Text)
hash_of (plain text) = some (some text)
hash_of undecrypted = some none
hash_of error = none

module _ {V : Type 0} (w : VerifierWorld V) where
  -- The request to the hub; `none` is an exception of `encrypt`.
  abbrev pub put_body : Option Text → Option Text → List VerifierBody × Updated
  put_body none v = ([], update_error)
  put_body (some h) none = ([], update_error)
  put_body (some h) (some v) =
      let body : VerifierBody = record { proof_hash = h; verifiers = v } in
      (body ∷ [], updated (is_ok (w.answers body)))

  -- `Hub.update_verifier`: what it puts, and what it returns. A proof hash of `none` is `False`.
  unfoldable pub update_verifier : Option Text → V → List VerifierBody × Updated
  update_verifier proof_hash verifiers = elim w.session_key [
    | none ↦ ([], no_session_key)
    | some encrypt ↦ put_body (encrypt_hash encrypt proof_hash) (encrypt (w.dumps verifiers))
  ]

  -- `ujson.loads(rsa_encryption.decrypt(verifiers))`; `ujson.loads(False)` raises.
  abbrev pub loaded : Decrypted → Option V
  loaded (plain text) = w.loads text
  loaded undecrypted = none
  loaded error = none

  -- From `if not verifiers` on.
  unfoldable pub check_verifiers : Option Text → V → List VerifierBody × Verdict
  unfolding update_verifier
  check_verifiers proof_hash verifiers =
      let u = update_verifier proof_hash verifiers in
      if not (w.truthy verifiers) then ([], no_verifiers) else (u.0, verdict_of u.1)

  abbrev pub after_decrypt : Option (Option Text) → Option V → List VerifierBody × Verdict
  after_decrypt none v = ([], invalid_input)
  after_decrypt (some proof_hash) none = ([], invalid_input)
  after_decrypt (some proof_hash) (some verifiers) = check_verifiers proof_hash verifiers

  -- What the two handlers have in common.
  unfoldable pub handle_verifier : VerifierRequest → List VerifierBody × Verdict
  unfolding check_verifiers
  handle_verifier r = elim w.private_key [
    | missing ↦ ([], key_not_found)
    | malformed ↦ ([], escaped)
    | decryptor decrypt ↦
        after_decrypt (hash_of (decrypt r.proof_hash)) (loaded (decrypt r.verifier))
  ]

abbrev pub decryption_failed : Text
decryption_failed = codes "Decryption failed with provided private key"

abbrev pub http_of : Verdict → HttpResponse
http_of key_not_found =
    status_response (pos status_code_private_key_not_found) (codes "Private key file not found")
http_of invalid_input = status_response (pos status_code_private_key_invalid) decryption_failed
http_of no_verifiers = status_response (pos status_code_private_key_invalid) decryption_failed
http_of successful = status_response status_code_successfully (codes "Successfully")
http_of update_failed = status_response status_code_error (codes "Update failed")
http_of escaped = uncaught

-- `UpdateVerifierResponse`, or an exception.
pub data UpdateResponse : Type 0 where
  status_message : ℤ → Text → UpdateResponse
  uncaught_error : UpdateResponse

abbrev pub message_of : Verdict → UpdateResponse
message_of key_not_found =
    status_message (pos status_code_private_key_not_found) (codes "Private key file not found")
message_of invalid_input =
    status_message (pos status_code_private_key_invalid)
      (decryption_failed ++ codes ": invalid input data")
message_of no_verifiers =
    status_message (pos status_code_private_key_invalid)
      (decryption_failed ++ codes ": no verifiers found")
message_of successful = status_message status_code_successfully (codes "Successfully.")
message_of update_failed = status_message status_code_error (codes "Update failed.")
message_of escaped = uncaught_error

module _ {V : Type 0} (w : VerifierWorld V) where
  -- `verifier`: what is put to the hub, and the answer.
  unfoldable pub verifier : VerifierRequest → List VerifierBody × HttpResponse
  unfolding handle_verifier
  verifier r = let h = handle_verifier w r in (h.0, http_of h.1)

  -- `UpdateVerifier`
  unfoldable pub update_verifier_message : VerifierRequest → List VerifierBody × UpdateResponse
  unfolding handle_verifier
  update_verifier_message r = let h = handle_verifier w r in (h.0, message_of h.1)

-- `get_public_key` of the service; `none` is a missing file.
abbrev pub get_public_key : Option Text → ℕ × Text × Option Text
get_public_key none = (2000, codes "Public key file not found", none)
get_public_key (some public_key) = (0, codes "Successfully", some public_key)

-- The handlers `get_public_key`, with `public_key or ""`, and `GetPublicKey`.
abbrev pub http_public_key : Option Text → ℕ × Text × Text
http_public_key file =
    let (code, msg, public_key) = get_public_key file in
    (code, msg, elim public_key [ none ↦ [] | some text ↦ text ])
