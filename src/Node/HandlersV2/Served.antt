-- ===== src/Node/HandlersV2/Served.antt =====
-- A task that the hub pushes to the node, by `push_task` of http_server/v1/main.py, and the request
-- that comes for it.
use prover.Prelude.{ℕ, ◌+◌, ◌*◌, ◌<◌, ◌≡◌, refl, Bool, true, some, Text, codes, ap, ◌∙◌, ◌++◌, List}
use prover.Node.Status.{
  Check, passed, status_code_successfully, task_status_pending, task_status_running,
}
use prover.Node.ProofManager.{Manager, claim_task, second}
use prover.Node.ProofManager.View.{live}
use prover.Node.Service.{World}
use prover.Node.Service.Prove.{prove_with, ProofResult}
use prover.Node.ServiceV2.{ServicesV2, Calls}
use prover.Node.HttpV1
use prover.Node.HttpV1.{
  HubWorld, NodeState, HttpResponse, status_response, push_task, ResultBody, posts_of,
}
use prover.Node.HttpV1.Gate.{claim_task-pending, push_task-accepts}
use prover.Node.GrpcV1.SameWork.{http_request, handle_message-IsSameWork}
use prover.Node.HandlersV2
use prover.Node.HandlersV2.{
  RequestV2, Door, NodeStateV2, ResponseV2, http_door, grpc_door, handle_claimed, handle,
}
use prover.Node.HandlersV2.Answers.{services_of, Shows, answer, job_result, answer-Shows}
use prover.Node.HandlersV2.Doors.{
  Call, http_v1, grpc_v1, http_v2, grpc_v2, hash_of, serve, serve-running,
}

module _ (w : World) (calls : Calls) (hub : HubWorld) where
  -- The services once the job of a request was proved.
  abbrev pub proved : Call → ServicesV2 → ServicesV2
  proved (http_v1 procedure r) sv = record sv {
    services = (prove_with w procedure (prover.Node.HttpV1.job_of r) sv.services).0;
  }
  proved (grpc_v1 procedure r) sv = record sv {
    services = (prove_with w procedure (prover.Node.HttpV1.job_of (http_request r)) sv.services).0;
  }
  proved (http_v2 r) sv = (prover.Node.ServiceV2.prove w calls (HandlersV2.job_of r) sv).0
  proved (grpc_v2 r) sv = (prover.Node.ServiceV2.prove w calls (HandlersV2.job_of r) sv).0

  handle-claimed_v1 :
      (procedure : prover.Node.Circom.Procedure) (now later : ℕ) (r : prover.Node.HttpV1.Request)
      (s : NodeState) (msg : Text)
      → (claim_task now later r.proof_hash s.manager).1 ≡ passed msg
      → (prover.Node.HttpV1.handle w hub procedure now later r s).0.services
        ≡ (prove_with w procedure (prover.Node.HttpV1.job_of r) s.services).0
  unfolding prover.Node.HttpV1.handle prover.Node.HttpV1.handle_claimed
  handle-claimed_v1 procedure now later r s msg e =
      rw (e, prover.Node.HttpV1.handle, prover.Node.HttpV1.handle_claimed) refl

  handle-claimed_v2 :
      (door : Door) (now later : ℕ) (r : RequestV2) (s : NodeStateV2) (msg : Text)
      → (claim_task now later r.proof_hash s.node.manager).1 ≡ passed msg
      → services_of (handle w calls hub door now later r s).0
        ≡ (prover.Node.ServiceV2.prove w calls (HandlersV2.job_of r) (services_of s)).0
  unfolding handle handle_claimed
  handle-claimed_v2 door now later r s msg e = rw (e, handle, handle_claimed) refl

  serve-claimed :
      (now later : ℕ) (c : Call) (s : NodeStateV2) (msg : Text)
      → (claim_task now later (hash_of c) s.node.manager).1 ≡ passed msg
      → services_of (serve w calls hub now later c s) ≡ proved c (services_of s)
  unfolding serve
  serve-claimed now later (http_v1 procedure r) s msg e =
      ap (λ v. record (services_of s) { services = v })
        (handle-claimed_v1 procedure now later r s.node msg e)
  serve-claimed now later (grpc_v1 procedure r) s msg e =
      ap (λ v. record (services_of s) { services = v })
        (ap (λ (n : NodeState). n.services)
            (handle_message-IsSameWork w hub procedure now later r s.node).0
          ∙ handle-claimed_v1 procedure now later (http_request r) s.node msg e)
  serve-claimed now later (http_v2 r) s msg e = handle-claimed_v2 http_door now later r s msg e
  serve-claimed now later (grpc_v2 r) s msg e = handle-claimed_v2 grpc_door now later r s msg e

  -- The first request that comes for a task within a minute of a push that was answered with success,
  -- over HTTP or gRPC and of either version, is handed to the service. If the service has a result for
  -- its job, proved or refused, and the posts for the hub can be made, then the answer shows the code,
  -- the message, the proof and, where it has one, the witness of this result, those posts are made,
  -- the services are as the job left them, and the task is running until a minute after the claim.
  pub serve-pushed :
      (verify : Text → Text → Bool) (now later now' later' : ℕ) (proof_hash signature : Text)
      (m : Manager) (c : Call) (s : NodeStateV2) (r : ProofResult) (bodies : List ResultBody)
      → verify proof_hash signature ≡ true
      → (push_task verify now later proof_hash signature m).1
        ≡ status_response status_code_successfully (codes "Successfully")
      → s.node.manager ≡ (push_task verify now later proof_hash signature m).0
      → hash_of c ≡ proof_hash
      → now' < later + 60 * second
      → job_result w calls hub c (services_of s) ≡ some r
      → posts_of hub (hash_of c) r ≡ some bodies
      → ((serve w calls hub now' later' c s).node.posts ≡ s.node.posts ++ bodies)
        × Shows c r (answer w calls hub now' later' c s)
        × (services_of (serve w calls hub now' later' c s) ≡ proved c (services_of s))
        × ((t : ℕ)
            → t < later' + 60 * second
            → live t (hash_of c) (serve w calls hub now' later' c s).node.manager.cache
              ≡ some task_status_running)
  serve-pushed verify now later now' later' proof_hash signature m c s r bodies v p q same h o b =
      let pending : live now' (hash_of c) s.node.manager.cache ≡ some task_status_pending =
        rw (q, same) ((push_task-accepts verify now later proof_hash signature m v).1 now' h p) in
      let claimed =
        ap (λ (x : Manager × Check Text). x.1)
          (claim_task-pending now' later' (hash_of c) s.node.manager pending) in
      let shown =
        answer-Shows w calls hub now' later' c s (codes "Successfully") r bodies claimed o b in
      (
        shown.0,
        shown.1,
        serve-claimed now' later' c s (codes "Successfully") claimed,
        serve-running w calls hub now' later' c s pending,
      )
