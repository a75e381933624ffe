-- ===== src/Hub/Register.antt =====
-- `hub_post_node` of hub/src/application/api/v1/hub/node/api.py: the registration of a node. What
-- the handler is told by the key cache, the decryption and the two pings is an argument.
pub mod Stages
pub mod Soundness
pub mod Examples
use prover.Prelude.{
  ℕ, Bool, true, false, not, ◌&&◌, ◌||◌, Option, none, some, List, [], ◌∷◌, ◌++◌, Text, codes,
  if◌then◌else◌, is_empty, drop, all, ltb,
}
use prover.PyText.{strip, lower, starts_with, text_eq}
use prover.Hub.Address.{Net, Allowed, validate_grpc_address, validate_http_address}
use prover.Hub.Http.{
  Response, raised, Json, null, str, address_error, http_response, respond, model, model_with, ok,
  invalid_request, unauthorized, server_error, request_error, args_invalid, authorized_error,
  private_key_not_exist, decryption_failed, register_failed, successfully,
}
use prover.Hub.NodeList.{NodeList, add}

-- What `decrypt` returns: a text, `False`, or an exception.
pub data Decrypted : Type 0 where
  plain : Text → Decrypted
  failed : Decrypted
  error : Decrypted

-- What `get_encryptor` returns: the encryptor's `decrypt`, or an exception.
pub data Key : Type 0 where
  encryptor : (Text → Decrypted) → Key
  file_not_found : Key
  key_error : Key

-- How the two pings end: an exception with its message, or whether each succeeded.
pub data Pings : Type 0 where
  ping_error : Text → Pings
  pinged : Bool → Bool → Pings

-- The request: the two headers, empty where they are missing, and the body's two fields.
pub record Request : Type 0 where
  pub authorization : Text
  pub node_token : Text
  pub grpc_info : Text
  pub http_info : Text

-- The rest of what the handler reads: its configuration, the key, the pings of the two addresses,
-- and the clock.
pub record World : Type 0 where
  pub node_register_token : Text
  pub allowed : Allowed
  pub key : Key
  pub pings : Text → Text → Pings
  pub now : ℕ

unfoldable pub extract_node_register_token : Request → Text
extract_node_register_token r =
    if starts_with (codes "bearer ") (lower r.authorization)
    then strip (drop 7 r.authorization)
    else strip r.node_token

abbrev pub is_ascii : Text → Bool
is_ascii = all (λ c. ltb c 128)

-- `hmac.compare_digest` of two texts: `none` is the `TypeError` for a text that is not ASCII.
unfoldable pub compare_digest : Text → Text → Option Bool
compare_digest a b = if is_ascii a && is_ascii b then some (text_eq a b) else none

-- `grpc_info` and `http_info` after their decryption: `none` for an exception, and a value that
-- Python takes for false as the empty text.
abbrev pub text_or_empty : Decrypted → Option Text
text_or_empty (plain s) = some s
text_or_empty failed = some []
text_or_empty error = none

unfoldable pub unreachable : Bool → Bool → Text
unreachable grpc_success http_success =
    if grpc_success
    then codes "HTTP server is unreachable."
    else if http_success
    then codes "gRPC server is unreachable."
    else codes "gRPC server is unreachable. HTTP server is unreachable."

module _ (sha256_hex : Text → Text) (net : Net) (w : World) where
  -- From the test of the two ping results on.
  unfoldable pub register : Text → Text → Pings → NodeList → NodeList × Response
  register grpc_info http_info (ping_error message) l =
      (l, respond server_error (model_with request_error (str message)))
  register grpc_info http_info (pinged grpc_success http_success) l =
      if not grpc_success || not http_success
      then (
        l,
        respond invalid_request
            (model_with register_failed (str (unreachable grpc_success http_success))),
      )
      else (add sha256_hex w.now grpc_info http_info l, respond ok (model successfully))

  -- From the validation of the addresses on.
  unfoldable pub validate_and_ping : Text → Text → NodeList → NodeList × Response
  unfolding register
  validate_and_ping grpc_info http_info l = elim (validate_grpc_address net w.allowed grpc_info) [
    | some e ↦ (l, respond invalid_request (model_with args_invalid (address_error e)))
    | none ↦ elim (validate_http_address net w.allowed http_info) [
      | some e ↦ (l, respond invalid_request (model_with args_invalid (address_error e)))
      | none ↦ register grpc_info http_info (w.pings grpc_info http_info) l
    ]
  ]

  unfoldable pub check_decrypted : Option Text → Option Text → NodeList → NodeList × Response
  unfolding validate_and_ping
  check_decrypted none h l = (l, respond invalid_request (model decryption_failed))
  check_decrypted (some g) none l = (l, respond invalid_request (model decryption_failed))
  check_decrypted (some g) (some h) l =
      if is_empty g || is_empty h
      then (l, respond invalid_request (model decryption_failed))
      else validate_and_ping g h l

  -- From the load of the key on.
  unfoldable pub with_key : Request → Key → NodeList → NodeList × Response
  unfolding check_decrypted
  with_key r (encryptor decrypt) l =
      check_decrypted (text_or_empty (decrypt r.grpc_info)) (text_or_empty (decrypt r.http_info)) l
  with_key r file_not_found l = (l, respond server_error (model private_key_not_exist))
  with_key r key_error l = (l, respond server_error (model private_key_not_exist))

  unfoldable pub check_token : Request → Text → Text → NodeList → NodeList × Response
  unfolding with_key
  check_token r actual expected l =
      if is_empty actual
      then (
        l,
        http_response (some authorized_error.0) (some authorized_error.1)
            (str (codes "invalid_node_register_token")) unauthorized [],
      )
      else (elim (compare_digest actual expected) [
        | none ↦ (l, raised)
        | some false ↦ (
          l,
          http_response (some authorized_error.0) (some authorized_error.1)
              (str (codes "invalid_node_register_token")) unauthorized [],
        )
        | some true ↦ with_key r w.key l
      ])

  unfoldable pub hub_post_node : Request → NodeList → NodeList × Response
  unfolding check_token
  hub_post_node r l =
      let expected = strip w.node_register_token in
      if is_empty expected
      then (
        l,
        http_response (some request_error.0) (some (codes "Node registration is disabled"))
            (str (codes "node_register_token_not_configured")) server_error [],
      )
      else check_token r (extract_node_register_token r) expected l
