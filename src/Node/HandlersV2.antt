-- ===== src/Node/HandlersV2.antt =====
-- The handlers of the second version: `prove` of prover/node/src/application/http_server/v2/main.py
-- and `Prove` of prover/node/src/application/grpc_server/v2/main.py.
pub mod Doors
pub mod Answers
pub mod Served
mod Examples
use prover.Prelude.{ℕ, zero, suc, Bool, true, false, Option, none, some, List, [], ◌∷◌, ◌++◌, Text}
use prover.Base85.{b85encode}
use prover.Prelude.Int.{ℤ, pos}
use prover.Node.Status.{Check, passed, failed}
use prover.Node.ProofManager.{Manager, claim_task}
use prover.Node.Pool.{Pool}
use prover.Node.Service.{World}
use prover.Node.Service.Prove
use prover.Node.ServiceV2.{
  ProofResult, Outcome, answered, escaped, stuck, Job, ServicesV2, Calls, prove,
}
use prover.Node.HttpV1.{HubWorld, NodeState, ResultBody, posts_of}
use prover.Node.GrpcV1.{method_of, provider_of}

-- `ProveV2Request` and `GenerateProofRequest`, which have the same fields.
pub record RequestV2 : Type 0 where
  pub prover : Text
  pub circuit_template_id : Text
  pub payload : Text
  pub is_encrypted : Bool
  pub task_type : ℤ
  pub length : ℕ
  pub oauth_provider : Text
  pub proof_hash : Text

-- The node, with the pool of its private prover.
pub record NodeStateV2 : Type 0 where
  pub node : NodeState
  pub private_pool : Pool

-- The fields that `ProveV2Response` and `GenerateProofResponse` have in common.
pub record Proof : Type 0 where
  pub code : ℤ
  pub msg : Text
  pub proof : Option Text
  pub proof_solidity : Option Text
  pub proof_bytes : Option Text
  pub public_witness : Option Text
  pub public_witness_bytes : Option Text

-- An `HTTPException`, an answer, an exception that escapes, or no answer.
pub data ResponseV2 : Type 0 where
  http_exception : ℕ → ℤ → Text → ResponseV2
  proof_response : Proof → ResponseV2
  uncaught : ResponseV2
  no_answer : ResponseV2

abbrev pub job_of : RequestV2 → Job
job_of r = record {
  method = method_of r.task_type;
  prover_id = r.prover;
  circuit_template_id = r.circuit_template_id;
  input_data = r.payload;
  is_encrypted = r.is_encrypted;
  length = r.length;
  oauth_provider = provider_of r.oauth_provider;
}

-- What `send_result` reads of a result.
abbrev pub result_for_hub : ProofResult → prover.Node.Service.Prove.ProofResult
result_for_hub r = record {
  code = r.code;
  msg = r.msg;
  proof = r.proof;
  witness = r.public_witness;
  project_name = r.project_name;
  verifiers = some r.verifiers;
  duration = r.duration;
}

-- What the two handlers do not have in common: the answer to a claim that failed, and the text or the
-- bytes that are sent for bytes.
pub record Door : Type 0 where
  pub refusal : ℕ → Text → ResponseV2
  pub encode : List ℕ → List ℕ

abbrev pub encode_bytes : Door → Option Text → Option Text
encode_bytes door none = none
encode_bytes door (some bytes) = some (door.encode bytes)

abbrev pub response_of : Door → ProofResult → ResponseV2
response_of door r = proof_response (record {
  code = r.code;
  msg = r.msg;
  proof = r.proof;
  proof_solidity = r.proof_solidity;
  proof_bytes = encode_bytes door r.proof_bytes;
  public_witness = r.public_witness;
  public_witness_bytes = encode_bytes door r.public_witness_bytes;
})

-- From `if proof_result.project_name` on.
unfoldable pub report :
    Door → HubWorld → Text → Outcome → List ResultBody → List ResultBody × ResponseV2
report door hub proof_hash escaped posts = (posts, uncaught)
report door hub proof_hash stuck posts = (posts, no_answer)
report door hub proof_hash (answered r) posts = elim (posts_of hub proof_hash (result_for_hub r)) [
  | none ↦ (posts, uncaught)
  | some bodies ↦ (posts ++ bodies, response_of door r)
]

-- The answer to a claim that failed, over HTTP and over gRPC.
abbrev pub http_refusal : ℕ → Text → ResponseV2
http_refusal code msg = http_exception 500 (pos code) msg

abbrev pub grpc_refusal : ℕ → Text → ResponseV2
grpc_refusal code msg = proof_response (record {
  code = pos code;
  msg = msg;
  proof = none;
  proof_solidity = none;
  proof_bytes = none;
  public_witness = none;
  public_witness_bytes = none;
})

-- Over HTTP, `proof_to_base85` and `witness_to_base85`; over gRPC, the bytes as they are.
abbrev pub http_door : Door
http_door = record { refusal = http_refusal; encode = b85encode }

abbrev pub grpc_door : Door
grpc_door = record { refusal = grpc_refusal; encode = λ bytes. bytes }

module _ (w : World) (calls : Calls) (hub : HubWorld) where
  -- A handler after its claim.
  unfoldable pub handle_claimed :
      Door → RequestV2 → Manager → Check Text → NodeStateV2 → NodeStateV2 × ResponseV2
  unfolding report
  handle_claimed door r m (failed code msg) s =
      (record s { node = record s.node { manager = m } }, door.refusal code msg)
  handle_claimed door r m (passed msg) s =
      let sv : ServicesV2 = record { services = s.node.services; private_pool = s.private_pool } in
      let proved : ServicesV2 × Outcome = prove w calls (job_of r) sv in
      let reported = report door hub r.proof_hash proved.1 s.node.posts in
      (
        record {
          node = record { manager = m; services = proved.0.services; posts = reported.0 };
          private_pool = proved.0.private_pool;
        },
        reported.1,
      )

  -- What the two handlers have in common.
  unfoldable pub handle : Door → ℕ → ℕ → RequestV2 → NodeStateV2 → NodeStateV2 × ResponseV2
  unfolding handle_claimed
  handle door now later r s =
      let claimed = claim_task now later r.proof_hash s.node.manager in
      handle_claimed door r claimed.0 claimed.1 s

  -- The HTTP handler `prove`
  abbrev pub http_prove : ℕ → ℕ → RequestV2 → NodeStateV2 → NodeStateV2 × ResponseV2
  http_prove = handle http_door

  -- The gRPC handler `Prove`
  abbrev pub grpc_prove : ℕ → ℕ → RequestV2 → NodeStateV2 → NodeStateV2 × ResponseV2
  grpc_prove = handle grpc_door
