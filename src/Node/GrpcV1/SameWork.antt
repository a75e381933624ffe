-- ===== src/Node/GrpcV1/SameWork.antt =====
-- The gRPC handlers of grpc_server/v1/main.py against the HTTP handlers of http_server/v1/main.py.
use prover.Prelude.{
  ℕ, zero, suc, ◌≡◌, ◌≢◌, refl, Option, none, some, List, [], ◌∷◌, Text, codes, arith, ap, sym,
  subst, inl, inr, Option-cases,
}
use prover.Prelude.Int.{ℤ, pos, negsuc}
use prover.Base64.{b64encode}
use prover.Node.Status.{Check, passed, failed, status_code_task_invalid}
use prover.Node.ProofManager.{Manager, get, claim_status, claim_task}
use prover.Node.Circom.{
  Procedure, rpc_prove, rpc_nosha256, rpc_nosha256_with_witness, rpc_nosha256_offchain,
}
use prover.Node.Service.{World}
use prover.Node.Service.Prove.{ProofResult, Outcome, answered, escaped, stuck, prove_with}
use prover.Node.HttpV1.{
  HubWorld, NodeState, ResultBody, posts_of, Request, HttpResponse, http_exception, prove_response,
  prove_with_witness_response, encode_proof, handle, handle_claimed, report,
}
use prover.Node.GrpcV1
use prover.Node.GrpcV1.{
  GrpcRequest, GrpcResponse, proof_message, proof_with_witness_message, refused_message,
  handle_message,
}

-- The HTTP request with the fields of a gRPC request; what was not set is left out.
abbrev pub http_request : GrpcRequest → Request
http_request r = record {
  prover_id = r.base_request.prover_id;
  circuit_template_id = r.base_request.circuit_template_id;
  input_data = r.base_request.input_data;
  is_encrypted = r.base_request.is_encrypted;
  proof_hash = r.proof_hash;
  length = r.length;
  method = some r.method;
  oauth_provider = some r.oauth_provider;
}

-- What HTTP sends for a proof: the base64 text of the off-chain proof's bytes, and any other proof as
-- it is.
abbrev pub IsSent : Procedure → Option Text → Option Text → Type 0
IsSent rpc_nosha256_offchain (some bytes) proof = proof ≡ some (b64encode bytes)
IsSent rpc_nosha256_offchain none proof = proof ≡ none
IsSent rpc_prove bytes proof = proof ≡ bytes
IsSent rpc_nosha256 bytes proof = proof ≡ bytes
IsSent rpc_nosha256_with_witness bytes proof = proof ≡ bytes

pub encode_proof-IsSent :
    (procedure : Procedure) (bytes : Option Text)
    → IsSent procedure bytes (encode_proof procedure bytes)
encode_proof-IsSent rpc_nosha256_offchain (some bytes) = refl
encode_proof-IsSent rpc_nosha256_offchain none = refl
encode_proof-IsSent rpc_prove bytes = refl
encode_proof-IsSent rpc_nosha256 bytes = refl
encode_proof-IsSent rpc_nosha256_with_witness bytes = refl

-- The message that stands for an HTTP answer. For an exception with the status 400 it has the code
-- of the claim, which HTTP does not send.
abbrev pub Matches : Procedure → HttpResponse → GrpcResponse → Type 0
Matches procedure (http_exception status msg) g =
    (status ≡ 400) × ((code : ℕ) × (code ≢ 0) × (g ≡ refused_message procedure code msg))
Matches procedure (prove_response code msg proof) g = g ≡ proof_message code msg proof
Matches procedure (prove_with_witness_response code msg proof witness) g =
    (bytes : Option Text) × IsSent procedure bytes proof
    × (g ≡ proof_with_witness_message code msg bytes witness)
Matches procedure prover.Node.HttpV1.uncaught g = g ≡ GrpcV1.uncaught
Matches procedure prover.Node.HttpV1.no_answer g = g ≡ GrpcV1.no_answer
Matches procedure (prover.Node.HttpV1.status_response code msg) g = ⊥

-- The same node state, and an answer that matches.
abbrev pub IsSameWork : Procedure → NodeState × HttpResponse → NodeState × GrpcResponse → Type 0
IsSameWork procedure (s, h) (t, g) = (t ≡ s) × Matches procedure h g

method_of-same : (m : ℤ) → GrpcV1.method_of m ≡ m
method_of-same (pos zero) = refl
method_of-same (pos (suc n)) = refl
method_of-same (negsuc n) = refl

provider_of-same :
    (p : Text) → GrpcV1.provider_of p ≡ prover.Node.HttpV1.provider_or_google (some p)
provider_of-same [] = refl
provider_of-same (c ∷ cs) = refl

job_of-same : (r : GrpcRequest) → GrpcV1.job_of r ≡ prover.Node.HttpV1.job_of (http_request r)
job_of-same r = rw (method_of-same r.method, provider_of-same r.oauth_provider) refl

message_of-Matches :
    (procedure : Procedure) (r : ProofResult)
    → Matches procedure (prover.Node.HttpV1.response_of procedure r) (GrpcV1.message_of procedure r)
message_of-Matches rpc_prove r = refl
message_of-Matches rpc_nosha256 r = refl
message_of-Matches rpc_nosha256_with_witness r =
    (r.proof, encode_proof-IsSent rpc_nosha256_with_witness r.proof, refl)
message_of-Matches rpc_nosha256_offchain r =
    (r.proof, encode_proof-IsSent rpc_nosha256_offchain r.proof, refl)

abbrev IsSameReport :
    Procedure → List ResultBody × HttpResponse → List ResultBody × GrpcResponse → Type 0
IsSameReport procedure (posts, h) (posts', g) = (posts' ≡ posts) × Matches procedure h g

report-IsSameReport :
    (hub : HubWorld) (procedure : Procedure) (proof_hash : Text) (o : Outcome)
    (posts : List ResultBody)
    → IsSameReport procedure
        (report hub procedure proof_hash o posts)
        (GrpcV1.report hub procedure proof_hash o posts)
unfolding report GrpcV1.report
report-IsSameReport hub procedure proof_hash escaped posts = (refl, refl)
report-IsSameReport hub procedure proof_hash stuck posts = (refl, refl)
report-IsSameReport hub procedure proof_hash (answered r) posts =
    elim (Option-cases (posts_of hub proof_hash r)) [
      | inl e ↦ rw (e, report, GrpcV1.report) (refl, refl)
      | inr (bodies, e) ↦ rw (e, report, GrpcV1.report) (refl, message_of-Matches procedure r)
    ]

-- A claim that fails has a code.
abbrev HasCode : Check Text → Type 0
HasCode (failed code msg) = code ≢ 0
HasCode (passed msg) = Unit {0}

claim_status-HasCode :
    (later : ℕ) (key : Text) (m : Manager) (o : Option ℕ) → HasCode (claim_status later key m o).1
unfolding claim_status
claim_status-HasCode later key m none = λ e. ground arith
claim_status-HasCode later key m (some zero) = tt
claim_status-HasCode later key m (some (suc n)) =
    let q : (claim_status later key m (some (suc n))).1
        ≡ failed status_code_task_invalid (codes "Proof hash is invalid") =
      ground arith in
    subst HasCode (sym q) (λ e. ground arith)

claim_task-HasCode :
    (now later : ℕ) (key : Text) (m : Manager) → HasCode (claim_task now later key m).1
unfolding claim_task
claim_task-HasCode now later key m =
    claim_status-HasCode later key (get now key m).0 (get now key m).1

module _ (w : World) (hub : HubWorld) (procedure : Procedure) where
  handle_claimed-IsSameWork :
      (r : GrpcRequest) (m : Manager) (c : Check Text) (s : NodeState)
      → HasCode c
      → IsSameWork procedure
          (handle_claimed w hub procedure (http_request r) m c s)
          (GrpcV1.handle_claimed w hub procedure r m c s)
  unfolding handle_claimed GrpcV1.handle_claimed
  handle_claimed-IsSameWork r m (failed code msg) s h = (refl, (refl, (code, h, refl)))
  handle_claimed-IsSameWork r m (passed msg) s h =
      let p = prove_with w procedure (prover.Node.HttpV1.job_of (http_request r)) s.services in
      let x = report-IsSameReport hub procedure r.proof_hash p.1 s.posts in
      rw (job_of-same r)
        (ap (λ posts. record { manager = m; services = p.0; posts = posts }) x.0, x.1)

  -- A gRPC request and the HTTP request with its fields, handled in one state of the node, leave the
  -- same state: the same claims, channels, keys and posts to the hub. Their answers match,
  -- where HTTP sends the bytes of an off-chain proof in base64, and a claim that fails is the status
  -- 400 for the one and a code that is not 0 for the other.
  pub handle_message-IsSameWork :
      (now later : ℕ) (r : GrpcRequest) (s : NodeState)
      → IsSameWork procedure
          (handle w hub procedure now later (http_request r) s)
          (handle_message w hub procedure now later r s)
  unfolding handle handle_message
  handle_message-IsSameWork now later r s =
      handle_claimed-IsSameWork r (claim_task now later r.proof_hash s.manager).0
        (claim_task now later r.proof_hash s.manager).1 s
        (claim_task-HasCode now later r.proof_hash s.manager)
