-- ===== src/Node/HandlersV2/Answers.antt =====
-- What a request is answered with once its job was proved: http_server/v1/main.py,
-- grpc_server/v1/main.py, and main.py of both in v2.
use prover.Prelude.{ℕ, ◌≡◌, refl, Option, none, some, List, ◌++◌, Text, ap, ◌∙◌, sym, subst}
use mathlib.Core.Option.{some-injective}
use prover.Node.Status.{passed}
use prover.Node.ProofManager.{claim_task}
use prover.Node.Circom.{
  Procedure, rpc_prove, rpc_nosha256, rpc_nosha256_with_witness, rpc_nosha256_offchain,
}
use prover.Node.Service.{World, Services}
use prover.Node.Service.Prove
use prover.Node.Service.Prove.{ProofResult, prove_with}
use prover.Node.ServiceV2
use prover.Node.ServiceV2.{ServicesV2, Calls}
use prover.Node.HttpV1
use prover.Node.HttpV1.{
  HubWorld, NodeState, ResultBody, HttpResponse, http_exception, status_response, prove_response,
  prove_with_witness_response, posts_of,
}
use prover.Node.GrpcV1
use prover.Node.GrpcV1.{GrpcResponse}
use prover.Node.GrpcV1.SameWork.{
  http_request, Matches, IsSent, encode_proof-IsSent, handle_message-IsSameWork,
}
use prover.Node.HandlersV2
use prover.Node.HandlersV2.{
  RequestV2, Door, NodeStateV2, ResponseV2, proof_response, result_for_hub, http_door, grpc_door,
  handle, handle_claimed, http_prove, grpc_prove,
}
use prover.Node.HandlersV2.Doors.{Call, http_v1, grpc_v1, http_v2, grpc_v2, hash_of, serve}

-- What the node has of services.
abbrev pub services_of : NodeStateV2 → ServicesV2
services_of s = record { services = s.node.services; private_pool = s.private_pool }

-- An answer of the first version over HTTP or gRPC, or of the second.
pub data Answer : Type 0 where
  over_http : HttpResponse → Answer
  over_grpc : Procedure → GrpcResponse → Answer
  over_v2 : ResponseV2 → Answer

-- The HTTP answer has the code, the message, the proof and perhaps the witness of the result.
abbrev pub HasResult : Procedure → ProofResult → HttpResponse → Type 0
HasResult procedure r (http_exception status msg) = ⊥
HasResult procedure r (status_response code msg) = ⊥
HasResult procedure r (prove_response code msg proof) =
    (code ≡ r.code) × (msg ≡ r.msg) × IsSent procedure r.proof proof
HasResult procedure r (prove_with_witness_response code msg proof witness) =
    (code ≡ r.code) × (msg ≡ r.msg) × IsSent procedure r.proof proof × (witness ≡ r.witness)
HasResult procedure r prover.Node.HttpV1.uncaught = ⊥
HasResult procedure r prover.Node.HttpV1.no_answer = ⊥

abbrev pub HasResultV2 : ProofResult → ResponseV2 → Type 0
HasResultV2 r (HandlersV2.http_exception status code msg) = ⊥
HasResultV2 r (proof_response p) =
    (p.code ≡ r.code) × (p.msg ≡ r.msg) × (p.proof ≡ r.proof) × (p.public_witness ≡ r.witness)
HasResultV2 r HandlersV2.uncaught = ⊥
HasResultV2 r HandlersV2.no_answer = ⊥

-- The answer shows the result. A message of the first version matches an HTTP answer that does.
abbrev pub Shows : Call → ProofResult → Answer → Type 0
Shows (http_v1 procedure q) r (over_http h) = HasResult procedure r h
Shows (grpc_v1 procedure q) r (over_grpc p g) =
    (h : HttpResponse) × HasResult procedure r h × Matches procedure h g
Shows (http_v2 q) r (over_v2 a) = HasResultV2 r a
Shows (grpc_v2 q) r (over_v2 a) = HasResultV2 r a
Shows (http_v1 procedure q) r (over_grpc p g) = ⊥
Shows (http_v1 procedure q) r (over_v2 a) = ⊥
Shows (grpc_v1 procedure q) r (over_http h) = ⊥
Shows (grpc_v1 procedure q) r (over_v2 a) = ⊥
Shows (http_v2 q) r (over_http h) = ⊥
Shows (http_v2 q) r (over_grpc p g) = ⊥
Shows (grpc_v2 q) r (over_http h) = ⊥
Shows (grpc_v2 q) r (over_grpc p g) = ⊥

-- The result of a job, if it has one.
abbrev pub result : prover.Node.Service.Prove.Outcome → Option ProofResult
result (prover.Node.Service.Prove.answered r) = some r
result prover.Node.Service.Prove.escaped = none
result prover.Node.Service.Prove.stuck = none

abbrev pub result_v2 : prover.Node.ServiceV2.Outcome → Option ProofResult
result_v2 (prover.Node.ServiceV2.answered r) = some (result_for_hub r)
result_v2 prover.Node.ServiceV2.escaped = none
result_v2 prover.Node.ServiceV2.stuck = none

response_of-HasResult :
    (procedure : Procedure) (r : ProofResult)
    → HasResult procedure r (prover.Node.HttpV1.response_of procedure r)
response_of-HasResult rpc_prove r = (refl, refl, refl)
response_of-HasResult rpc_nosha256 r = (refl, refl, refl)
response_of-HasResult rpc_nosha256_with_witness r = (refl, refl, refl, refl)
response_of-HasResult rpc_nosha256_offchain r =
    (refl, refl, encode_proof-IsSent rpc_nosha256_offchain r.proof, refl)

report-HasResult :
    (hub : HubWorld) (procedure : Procedure) (proof_hash : Text)
    (o : prover.Node.Service.Prove.Outcome) (posts bodies : List ResultBody) (r : ProofResult)
    → result o ≡ some r
    → posts_of hub proof_hash r ≡ some bodies
    → let x = prover.Node.HttpV1.report hub procedure proof_hash o posts in
      (x.0 ≡ posts ++ bodies) × HasResult procedure r x.1
unfolding prover.Node.HttpV1.report
report-HasResult hub procedure proof_hash (prover.Node.Service.Prove.answered q) posts bodies r e
      p =
    let same = some-injective q r e in
    subst
      (λ z.
        let x =
          prover.Node.HttpV1.report hub procedure proof_hash (prover.Node.Service.Prove.answered z)
            posts in
        (x.0 ≡ posts ++ bodies) × HasResult procedure r x.1)
      (sym same) (rw (p, prover.Node.HttpV1.report) (refl, response_of-HasResult procedure r))
report-HasResult hub procedure proof_hash prover.Node.Service.Prove.escaped posts bodies r e p =
    absurd cc
report-HasResult hub procedure proof_hash prover.Node.Service.Prove.stuck posts bodies r e p =
    absurd cc

report-HasResultV2 :
    (door : Door) (hub : HubWorld) (proof_hash : Text) (o : prover.Node.ServiceV2.Outcome)
    (posts bodies : List ResultBody) (r : ProofResult)
    → result_v2 o ≡ some r
    → posts_of hub proof_hash r ≡ some bodies
    → let x = HandlersV2.report door hub proof_hash o posts in
      (x.0 ≡ posts ++ bodies) × HasResultV2 r x.1
unfolding HandlersV2.report
report-HasResultV2 door hub proof_hash (prover.Node.ServiceV2.answered q) posts bodies r e p =
    let same = some-injective (result_for_hub q) r e in
    rw (ap (posts_of hub proof_hash) same ∙ p, HandlersV2.report)
      (
        refl,
        (
          ap (λ (z : ProofResult). z.code) same,
          ap (λ (z : ProofResult). z.msg) same,
          ap (λ (z : ProofResult). z.proof) same,
          ap (λ (z : ProofResult). z.witness) same,
        ),
      )
report-HasResultV2 door hub proof_hash prover.Node.ServiceV2.escaped posts bodies r e p = absurd cc
report-HasResultV2 door hub proof_hash prover.Node.ServiceV2.stuck posts bodies r e p = absurd cc

module _ (w : World) (calls : Calls) (hub : HubWorld) where
  -- What a request is answered with.
  unfoldable pub answer : ℕ → ℕ → Call → NodeStateV2 → Answer
  answer now later (http_v1 procedure r) s =
      over_http (prover.Node.HttpV1.handle w hub procedure now later r s.node).1
  answer now later (grpc_v1 procedure r) s =
      over_grpc procedure (GrpcV1.handle_message w hub procedure now later r s.node).1
  answer now later (http_v2 r) s = over_v2 (http_prove w calls hub now later r s).1
  answer now later (grpc_v2 r) s = over_v2 (grpc_prove w calls hub now later r s).1

  -- The result that the service has for the job of a request.
  abbrev pub job_result : Call → ServicesV2 → Option ProofResult
  job_result (http_v1 procedure r) sv =
      result (prove_with w procedure (prover.Node.HttpV1.job_of r) sv.services).1
  job_result (grpc_v1 procedure r) sv =
      result (prove_with w procedure (prover.Node.HttpV1.job_of (http_request r)) sv.services).1
  job_result (http_v2 r) sv =
      result_v2 (prover.Node.ServiceV2.prove w calls (HandlersV2.job_of r) sv).1
  job_result (grpc_v2 r) sv =
      result_v2 (prover.Node.ServiceV2.prove w calls (HandlersV2.job_of r) sv).1

  handle-HasResult :
      (procedure : Procedure) (now later : ℕ) (q : prover.Node.HttpV1.Request) (s : NodeState)
      (msg : Text) (r : ProofResult) (bodies : List ResultBody)
      → (claim_task now later q.proof_hash s.manager).1 ≡ passed msg
      → result (prove_with w procedure (prover.Node.HttpV1.job_of q) s.services).1 ≡ some r
      → posts_of hub q.proof_hash r ≡ some bodies
      → let x = prover.Node.HttpV1.handle w hub procedure now later q s in
        (x.0.posts ≡ s.posts ++ bodies) × HasResult procedure r x.1
  unfolding prover.Node.HttpV1.handle prover.Node.HttpV1.handle_claimed
  handle-HasResult procedure now later q s msg r bodies e o p =
      rw (e, prover.Node.HttpV1.handle, prover.Node.HttpV1.handle_claimed)
        (report-HasResult hub procedure q.proof_hash
          (prove_with w procedure (prover.Node.HttpV1.job_of q) s.services).1 s.posts bodies r o p)

  handle-HasResultV2 :
      (door : Door) (now later : ℕ) (q : RequestV2) (s : NodeStateV2) (msg : Text) (r : ProofResult)
      (bodies : List ResultBody)
      → (claim_task now later q.proof_hash s.node.manager).1 ≡ passed msg
      → result_v2 (prover.Node.ServiceV2.prove w calls (HandlersV2.job_of q) (services_of s)).1
        ≡ some r
      → posts_of hub q.proof_hash r ≡ some bodies
      → let x = handle w calls hub door now later q s in
        (x.0.node.posts ≡ s.node.posts ++ bodies) × HasResultV2 r x.1
  unfolding handle handle_claimed
  handle-HasResultV2 door now later q s msg r bodies e o p =
      rw (e, handle, handle_claimed)
        (report-HasResultV2 door hub q.proof_hash
          (prover.Node.ServiceV2.prove w calls (HandlersV2.job_of q) (services_of s)).1 s.node.posts
          bodies r o p)

  pub answer-Shows :
      (now later : ℕ) (c : Call) (s : NodeStateV2) (msg : Text) (r : ProofResult)
      (bodies : List ResultBody)
      → (claim_task now later (hash_of c) s.node.manager).1 ≡ passed msg
      → job_result c (services_of s) ≡ some r
      → posts_of hub (hash_of c) r ≡ some bodies
      → ((serve w calls hub now later c s).node.posts ≡ s.node.posts ++ bodies)
        × Shows c r (answer now later c s)
  unfolding serve answer
  answer-Shows now later (http_v1 procedure q) s msg r bodies e o p =
      handle-HasResult procedure now later q s.node msg r bodies e o p
  answer-Shows now later (grpc_v1 procedure q) s msg r bodies e o p =
      let same = handle_message-IsSameWork w hub procedure now later q s.node in
      let x = handle-HasResult procedure now later (http_request q) s.node msg r bodies e o p in
      (
        ap (λ (n : NodeState). n.posts) same.0 ∙ x.0,
        (
          (prover.Node.HttpV1.handle w hub procedure now later (http_request q) s.node).1,
          x.1,
          same.1,
        ),
      )
  answer-Shows now later (http_v2 q) s msg r bodies e o p =
      handle-HasResultV2 http_door now later q s msg r bodies e o p
  answer-Shows now later (grpc_v2 q) s msg r bodies e o p =
      handle-HasResultV2 grpc_door now later q s msg r bodies e o p
