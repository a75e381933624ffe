-- ===== src/Hub/Result.antt =====
-- `hub_post_results` of hub/src/application/api/v1/hub/result/api.py, with `send_proof` of
-- hub/src/modules/explorer/main.py: what a node reports, decrypted, checked, and encrypted again for
-- the explorer.
pub mod Relay
mod Examples
use prover.Prelude.{
  ℕ, Bool, true, false, ◌||◌, Option, none, some, List, [], ◌∷◌, Text, codes, if◌then◌else◌,
  is_empty,
}
use prover.Prelude.Int.{ℤ}
use prover.Hub.Http.{
  Response, raised, Json, null, str, http_response, Model, respond, ok, invalid_request,
  server_error, private_key_not_exist, decryption_failed, request_error, successfully,
}
use prover.Hub.Register.{Decrypted, plain, failed, error, text_or_empty}

-- What `encrypt` returns: a text, or an exception with its message.
pub data Encrypted : Type 0 where
  cipher : Text → Encrypted
  encrypt_error : Text → Encrypted

-- What `get_explorer` returns: nothing without a key file, an explorer with the `encrypt` of its
-- key, or an exception.
pub data Explorer : Type 0 where
  no_explorer : Explorer
  explorer : (Text → Encrypted) → Explorer
  explorer_error : Text → Explorer

-- The private key of the file: missing, not a key, or its `decrypt`.
pub data PrivateKey : Type 0 where
  missing : PrivateKey
  malformed : PrivateKey
  decryptor : (Text → Decrypted) → PrivateKey

-- The body of a request, and of what `send_proof` posts.
pub record ResultBody : Type 0 where
  pub project_name : Text
  pub proof_hash : Text
  pub duration : Text
  pub verifiers : Text

-- The models of these handlers have no field `results`.
abbrev pub short : ℤ × Text → Model
short (code, msg) = record { code = code; msg = msg; fields = [] }

abbrev pub four : Option Text → Option Text → Option Text → Option Text → Option ResultBody
four (some p) (some h) (some d) (some v) =
    some (record { project_name = p; proof_hash = h; duration = d; verifiers = v })
four none h d v = none
four (some p) none d v = none
four (some p) (some h) none v = none
four (some p) (some h) (some d) none = none

-- `send_proof`: the body that it posts, or the first exception of `encrypt`. What the explorer
-- answers is only logged.
pub data Sent : Type 0 where
  posted : ResultBody → Sent
  not_sent : Text → Sent

abbrev pub body_of : Encrypted → Encrypted → Encrypted → Encrypted → Sent
body_of (cipher p) (cipher h) (cipher d) (cipher v) =
    posted (record { project_name = p; proof_hash = h; duration = d; verifiers = v })
body_of (encrypt_error e) h d v = not_sent e
body_of (cipher p) (encrypt_error e) d v = not_sent e
body_of (cipher p) (cipher h) (encrypt_error e) v = not_sent e
body_of (cipher p) (cipher h) (cipher d) (encrypt_error e) = not_sent e

unfoldable pub send_proof : (Text → Encrypted) → ResultBody → Sent
send_proof encrypt b =
    body_of (encrypt b.project_name) (encrypt b.proof_hash) (encrypt b.duration)
      (encrypt b.verifiers)

abbrev pub explorer_failed : Text → Response
explorer_failed text =
    http_response (some request_error.0) (some request_error.1) (str text) server_error []

abbrev pub after_send : Sent → List ResultBody × Response
after_send (posted b) = (b ∷ [], respond ok (short successfully))
after_send (not_sent text) = ([], explorer_failed text)

-- From the call of `get_explorer` on.
unfoldable pub relay : Explorer → ResultBody → List ResultBody × Response
unfolding send_proof
relay no_explorer b = ([], respond ok (short successfully))
relay (explorer encrypt) b = after_send (send_proof encrypt b)
relay (explorer_error text) b = ([], explorer_failed text)

-- From the test of the decrypted texts on.
unfoldable pub check_result : Explorer → Option ResultBody → List ResultBody × Response
unfolding relay
check_result e none = ([], respond invalid_request (short decryption_failed))
check_result e (some b) =
    if is_empty b.project_name
      || is_empty b.proof_hash
      || is_empty b.verifiers
      || is_empty b.duration
    then ([], respond invalid_request (short decryption_failed))
    else relay e b

-- `hub_post_results`: what is posted to the explorer, and the answer.
unfoldable pub hub_post_results : PrivateKey → Explorer → ResultBody → List ResultBody × Response
unfolding check_result
hub_post_results missing e b = ([], respond server_error (short private_key_not_exist))
hub_post_results malformed e b = ([], raised)
hub_post_results (decryptor decrypt) e b = check_result e (
    four (text_or_empty (decrypt b.project_name)) (text_or_empty (decrypt b.proof_hash))
      (text_or_empty (decrypt b.duration)) (text_or_empty (decrypt b.verifiers)))
