-- ===== src/Node/GrpcV1.antt =====
-- The handlers of prover/node/src/application/grpc_server/v1/main.py that claim a task and prove it.
-- They have the node's state in common with those of http_server/v1/main.py.
pub mod SameWork
mod Examples
use prover.Prelude.{
  ℕ, zero, suc, Bool, true, false, Option, none, some, List, [], ◌∷◌, ◌++◌, Text, codes,
}
use prover.Prelude.Int.{ℤ, pos, negsuc}
use prover.Node.Status.{Check, passed, failed}
use prover.Node.ProofManager.{Manager, claim_task}
use prover.Node.Circom.{
  Procedure, rpc_nosha256, rpc_nosha256_with_witness, rpc_nosha256_offchain, has_witness,
}
use prover.Node.Service.{World, Services}
use prover.Node.Service.Prove.{ProofResult, Outcome, answered, escaped, stuck, Job, prove_with}
use prover.Node.HttpV1.{HubWorld, NodeState, ResultBody, posts_of}

-- The message `ProveBaseRequest`; `auth_token` is handed on and read nowhere.
pub record BaseRequest : Type 0 where
  pub prover_id : Text
  pub circuit_template_id : Text
  pub input_data : Text
  pub is_encrypted : Bool

-- The three requests, which have the same fields; a field that was not set is 0 or empty.
pub record GrpcRequest : Type 0 where
  pub base_request : BaseRequest
  pub length : ℕ
  pub method : ℤ
  pub oauth_provider : Text
  pub proof_hash : Text

-- A message, or an exception that escapes, or no answer. `none` is a field that is not set.
pub data GrpcResponse : Type 0 where
  proof_message : ℤ → Text → Option Text → GrpcResponse
  proof_with_witness_message : ℤ → Text → Option Text → Option Text → GrpcResponse
  uncaught : GrpcResponse
  no_answer : GrpcResponse

-- `request.method or TASK_TYPE_ZKLOGIN`
abbrev pub method_of : ℤ → ℤ
method_of (pos zero) = pos 0
method_of (pos (suc n)) = pos (suc n)
method_of (negsuc n) = negsuc n

-- `request.oauth_provider or OAUTH_PROVIDER_GOOGLE`
abbrev pub provider_of : Text → Text
provider_of [] = codes "google"
provider_of (c ∷ cs) = c ∷ cs

abbrev pub job_of : GrpcRequest → Job
job_of r = record {
  method = method_of r.method;
  prover_id = r.base_request.prover_id;
  circuit_template_id = r.base_request.circuit_template_id;
  input_data = r.base_request.input_data;
  is_encrypted = r.base_request.is_encrypted;
  length = r.length;
  oauth_provider = provider_of r.oauth_provider;
}

-- The response to a claim that failed: its code, and no proof.
abbrev pub refused_message : Procedure → ℕ → Text → GrpcResponse
refused_message procedure code msg = elim (has_witness procedure) [
  | false ↦ proof_message (pos code) msg none
  | true ↦ proof_with_witness_message (pos code) msg none none
]

abbrev pub message_of : Procedure → ProofResult → GrpcResponse
message_of procedure r = elim (has_witness procedure) [
  | false ↦ proof_message r.code r.msg r.proof
  | true ↦ proof_with_witness_message r.code r.msg r.proof r.witness
]

-- From `if proof_result.project_name` on.
unfoldable pub report :
    HubWorld → Procedure → Text → Outcome → List ResultBody → List ResultBody × GrpcResponse
report hub procedure proof_hash escaped posts = (posts, uncaught)
report hub procedure proof_hash stuck posts = (posts, no_answer)
report hub procedure proof_hash (answered r) posts = elim (posts_of hub proof_hash r) [
  | none ↦ (posts, uncaught)
  | some bodies ↦ (posts ++ bodies, message_of procedure r)
]

unfoldable pub handle_claimed :
    World
    → HubWorld
    → Procedure
    → GrpcRequest
    → Manager
    → Check Text
    → NodeState
    → NodeState × GrpcResponse
unfolding report
handle_claimed w hub procedure r m (failed code msg) s =
    (record s { manager = m }, refused_message procedure code msg)
handle_claimed w hub procedure r m (passed msg) s =
    let proved = prove_with w procedure (job_of r) s.services in
    let reported = report hub procedure r.proof_hash proved.1 s.posts in
    (record { manager = m; services = proved.0; posts = reported.0 }, reported.1)

-- What the three handlers have in common.
unfoldable pub handle_message :
    World → HubWorld → Procedure → ℕ → ℕ → GrpcRequest → NodeState → NodeState × GrpcResponse
unfolding handle_claimed
handle_message w hub procedure now later r s =
    let claimed = claim_task now later r.proof_hash s.manager in
    handle_claimed w hub procedure r claimed.0 claimed.1 s

module _ (w : World) (hub : HubWorld) where
  -- `ProveNosha256`
  abbrev pub prove_nosha256 : ℕ → ℕ → GrpcRequest → NodeState → NodeState × GrpcResponse
  prove_nosha256 = handle_message w hub rpc_nosha256

  -- `ProveNosha256WithWitness`
  abbrev pub prove_nosha256_with_witness :
      ℕ → ℕ → GrpcRequest → NodeState → NodeState × GrpcResponse
  prove_nosha256_with_witness = handle_message w hub rpc_nosha256_with_witness

  -- `ProveNosha256Offchain`
  abbrev pub prove_nosha256_offchain : ℕ → ℕ → GrpcRequest → NodeState → NodeState × GrpcResponse
  prove_nosha256_offchain = handle_message w hub rpc_nosha256_offchain
