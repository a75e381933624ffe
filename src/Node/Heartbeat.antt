-- ===== src/Node/Heartbeat.antt =====
-- `send_heartbeat` of prover/node/src/modules/hub/main.py: how a node tells the hub of itself.
pub mod Registered
mod Examples
use prover.Prelude.{
  ℕ, zero, suc, Bool, Option, none, some, List, [], ◌∷◌, Text, if◌then◌else◌, is_empty,
}

-- The configuration, the environment's `NODE_REGISTER_TOKEN`, and the `encrypt` of the session key,
-- if its file is there, where `none` is an exception.
pub record NodeWorld : Type 0 where
  pub node_register_token : Text
  pub environment_token : Text
  pub session_key : Option (Text → Option Text)
  pub grpc : Text
  pub http : Text

-- The request that is posted to the hub in each round.
pub record Heartbeat : Type 0 where
  pub node_token : Option Text
  pub grpc_info : Text
  pub http_info : Text

-- `a or b`
abbrev pub or_else : Text → Text → Text
or_else a b = if is_empty a then b else a

-- `_node_register_headers`: the value of `X-Node-Token`.
unfoldable pub node_register_headers : NodeWorld → Option Text
node_register_headers n =
    let token = or_else n.node_register_token n.environment_token in
    if is_empty token then none else some token

-- How `send_heartbeat` starts: it returns without a session key, raises, or goes into its loop.
pub data Start : Type 0 where
  no_session_key : Start
  start_error : Start
  looping : Heartbeat → Start

abbrev pub heartbeat_of : Option Text → Option Text → Option Text → Start
heartbeat_of token none h = start_error
heartbeat_of token (some g) none = start_error
heartbeat_of token (some g) (some h) =
    looping (record { node_token = token; grpc_info = g; http_info = h })

unfoldable pub start : NodeWorld → Start
unfolding node_register_headers
start n = elim n.session_key [
  | none ↦ no_session_key
  | some encrypt ↦ heartbeat_of (node_register_headers n) (encrypt n.grpc) (encrypt n.http)
]

-- The requests of the first rounds. What the hub answers is only logged, as an error of the client
-- is, so that the loop goes on for ever.
unfoldable pub send_heartbeat : ℕ → Start → List Heartbeat
send_heartbeat zero s = []
send_heartbeat (suc rounds) no_session_key = []
send_heartbeat (suc rounds) start_error = []
send_heartbeat (suc rounds) (looping b) = b ∷ send_heartbeat rounds (looping b)
