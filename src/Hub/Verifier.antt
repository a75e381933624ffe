-- ===== src/Hub/Verifier.antt =====
-- `hub_put_verifier` of hub/src/application/api/v1/hub/verifier/api.py, and `update_verifier` of
-- hub/src/modules/explorer/main.py. A list of verifiers is a value of a type V.
pub mod Relay
mod Examples
use prover.Prelude.{
  Bool, true, false, not, ◌||◌, Option, none, some, List, [], ◌∷◌, Text, if◌then◌else◌, is_empty,
}
use prover.Hub.Http.{
  Response, raised, Json, str, http_response, respond, ok, invalid_request, server_error,
  private_key_not_exist, decryption_failed, request_error, successfully,
}
use prover.Hub.Register.{Decrypted, plain, failed, error}
use prover.Hub.Result.{
  Encrypted, cipher, encrypt_error, Explorer, no_explorer, explorer, explorer_error, PrivateKey,
  missing, malformed, decryptor, short, explorer_failed,
}

-- `ujson.loads`, where `none` is an exception, `bool` and `ujson.dumps` of a list of verifiers.
pub record Codec (V : Type 0) : Type 0 where
  pub loads : Text → Option V
  pub truthy : V → Bool
  pub dumps : V → Text

-- The body of a request, and of what `update_verifier` puts to the explorer.
pub record VerifierBody : Type 0 where
  pub proof_hash : Text
  pub verifiers : Text

pub data Sent : Type 0 where
  put : VerifierBody → Sent
  not_sent : Text → Sent

abbrev pub body_of : Encrypted → Encrypted → Sent
body_of (cipher h) (cipher v) = put (record { proof_hash = h; verifiers = v })
body_of (encrypt_error e) v = not_sent e
body_of (cipher h) (encrypt_error e) = not_sent e

abbrev pub after_send : Sent → List VerifierBody × Response
after_send (put b) = (b ∷ [], respond ok (short successfully))
after_send (not_sent text) = ([], explorer_failed text)

-- `rsa_encryption.decrypt(body.proof_hash)`: the inner `none` is `False`.
abbrev pub hash_of : Decrypted → Option (Option Text)
hash_of (plain text) = some (some text)
hash_of failed = some none
hash_of error = none

-- `not proof_hash`
abbrev pub is_false : Option Text → Bool
is_false none = true
is_false (some text) = is_empty text

-- `False` is encrypted nowhere, since it is refused before.
abbrev pub text_of : Option Text → Text
text_of none = []
text_of (some text) = text

module _ {V : Type 0} (c : Codec V) where
  -- `Explorer.update_verifier`: what it puts, or the first exception of `encrypt`. What the explorer
  -- answers is only logged.
  unfoldable pub update_verifier : (Text → Encrypted) → Text → V → Sent
  update_verifier encrypt proof_hash verifiers =
      body_of (encrypt proof_hash) (encrypt (c.dumps verifiers))

  -- From the call of `get_explorer` on.
  unfoldable pub relay : Explorer → Text → V → List VerifierBody × Response
  unfolding update_verifier
  relay no_explorer proof_hash verifiers = ([], respond ok (short successfully))
  relay (explorer encrypt) proof_hash verifiers =
      after_send (update_verifier encrypt proof_hash verifiers)
  relay (explorer_error text) proof_hash verifiers = ([], explorer_failed text)

  -- `ujson.loads(rsa_encryption.decrypt(body.verifiers))`; `ujson.loads(False)` raises.
  abbrev pub loaded : Decrypted → Option V
  loaded (plain text) = c.loads text
  loaded failed = none
  loaded error = none

  -- After the decryption.
  unfoldable pub check_update :
      Explorer → Option (Option Text) → Option V → List VerifierBody × Response
  unfolding relay
  check_update e none v = ([], respond invalid_request (short decryption_failed))
  check_update e (some proof_hash) none = ([], respond invalid_request (short decryption_failed))
  check_update e (some proof_hash) (some verifiers) =
      if is_false proof_hash || not (c.truthy verifiers)
      then ([], respond invalid_request (short decryption_failed))
      else relay e (text_of proof_hash) verifiers

  -- `hub_put_verifier`: what is put to the explorer, and the answer.
  unfoldable pub hub_put_verifier :
      PrivateKey → Explorer → VerifierBody → List VerifierBody × Response
  unfolding check_update
  hub_put_verifier missing e b = ([], respond server_error (short private_key_not_exist))
  hub_put_verifier malformed e b = ([], raised)
  hub_put_verifier (decryptor decrypt) e b =
      check_update e (hash_of (decrypt b.proof_hash)) (loaded (decrypt b.verifiers))
