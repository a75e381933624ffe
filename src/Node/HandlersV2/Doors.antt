-- ===== src/Node/HandlersV2/Doors.antt =====
-- All ways to have a task proved: http_server/v1, grpc_server/v1, http_server/v2 and grpc_server/v2.
-- They claim it at one ProofManager.
use prover.Prelude.{ℕ, ◌+◌, ◌*◌, ◌<◌, ◌≡◌, refl, some, Text, codes, ap, ◌∙◌}
use prover.Node.Status.{
  Check, passed, failed, status_code_task_invalid, task_status_pending, task_status_running,
}
use prover.Node.ProofManager.{Manager, get, claim_task, second}
use prover.Node.ProofManager.View.{live}
use prover.Node.Circom.{Procedure}
use prover.Node.Service.{World}
use prover.Node.ServiceV2.{Calls}
use prover.Node.HttpV1
use prover.Node.HttpV1.{Request, HubWorld, NodeState}
use prover.Node.HttpV1.Gate
use prover.Node.HttpV1.Gate.{claim_task-pending, claim_task-running, set-live}
use prover.Node.GrpcV1
use prover.Node.GrpcV1.{GrpcRequest}
use prover.Node.GrpcV1.SameWork.{http_request, handle_message-IsSameWork}
use prover.Node.HandlersV2.{
  RequestV2, Door, NodeStateV2, http_door, grpc_door, handle_claimed, handle, http_prove,
  grpc_prove,
}

-- A request to one of the handlers that prove.
pub data Call : Type 0 where
  http_v1 : Procedure → Request → Call
  grpc_v1 : Procedure → GrpcRequest → Call
  http_v2 : RequestV2 → Call
  grpc_v2 : RequestV2 → Call

abbrev pub hash_of : Call → Text
hash_of (http_v1 procedure r) = r.proof_hash
hash_of (grpc_v1 procedure r) = r.proof_hash
hash_of (http_v2 r) = r.proof_hash
hash_of (grpc_v2 r) = r.proof_hash

-- What the provers, the providers and the hub saw is the same.
abbrev pub IsUntouched : NodeStateV2 → NodeStateV2 → Type 0
IsUntouched s t =
    (t.node.services ≡ s.node.services)
    × (t.node.posts ≡ s.node.posts)
    × (t.private_pool ≡ s.private_pool)

module _ (w : World) (calls : Calls) (hub : HubWorld) where
  -- The node after a request.
  unfoldable pub serve : ℕ → ℕ → Call → NodeStateV2 → NodeStateV2
  serve now later (http_v1 procedure r) s = record s {
    node = (prover.Node.HttpV1.handle w hub procedure now later r s.node).0;
  }
  serve now later (grpc_v1 procedure r) s = record s {
    node = (GrpcV1.handle_message w hub procedure now later r s.node).0;
  }
  serve now later (http_v2 r) s = (http_prove w calls hub now later r s).0
  serve now later (grpc_v2 r) s = (grpc_prove w calls hub now later r s).0

  handle_claimed-manager :
      (door : Door) (r : RequestV2) (m : Manager) (c : Check Text) (s : NodeStateV2)
      → (handle_claimed w calls hub door r m c s).0.node.manager ≡ m
  unfolding handle_claimed
  handle_claimed-manager door r m (passed msg) s = refl
  handle_claimed-manager door r m (failed code msg) s = refl

  handle-manager :
      (door : Door) (now later : ℕ) (r : RequestV2) (s : NodeStateV2)
      → (handle w calls hub door now later r s).0.node.manager
        ≡ (claim_task now later r.proof_hash s.node.manager).0
  unfolding handle
  handle-manager door now later r s =
      handle_claimed-manager door r (claim_task now later r.proof_hash s.node.manager).0
        (claim_task now later r.proof_hash s.node.manager).1 s

  -- Every handler keeps the claim that it makes.
  serve-manager :
      (now later : ℕ) (c : Call) (s : NodeStateV2)
      → (serve now later c s).node.manager ≡ (claim_task now later (hash_of c) s.node.manager).0
  unfolding serve
  serve-manager now later (http_v1 procedure r) s =
      Gate.handle-manager w hub procedure now later r s.node
  serve-manager now later (grpc_v1 procedure r) s =
      ap (λ (n : NodeState). n.manager)
        (handle_message-IsSameWork w hub procedure now later r s.node).0
      ∙ Gate.handle-manager w hub procedure now later (http_request r) s.node
  serve-manager now later (http_v2 r) s = handle-manager http_door now later r s
  serve-manager now later (grpc_v2 r) s = handle-manager grpc_door now later r s

  handle-IsUntouched :
      (door : Door) (now later : ℕ) (r : RequestV2) (s : NodeStateV2) (code : ℕ) (msg : Text)
      → (claim_task now later r.proof_hash s.node.manager).1 ≡ failed code msg
      → IsUntouched s (handle w calls hub door now later r s).0
  unfolding handle handle_claimed
  handle-IsUntouched door now later r s code msg e =
      rw (e, handle, handle_claimed) (refl, refl, refl)

  serve-IsUntouched :
      (now later : ℕ) (c : Call) (s : NodeStateV2) (code : ℕ) (msg : Text)
      → (claim_task now later (hash_of c) s.node.manager).1 ≡ failed code msg
      → IsUntouched s (serve now later c s)
  unfolding serve
  serve-IsUntouched now later (http_v1 procedure r) s code msg e =
      let i = Gate.handle-failed w hub procedure now later r s.node code msg e in
      (i.services_same, i.posts_same, refl)
  serve-IsUntouched now later (grpc_v1 procedure r) s code msg e =
      let i = Gate.handle-failed w hub procedure now later (http_request r) s.node code msg e in
      let q = (handle_message-IsSameWork w hub procedure now later r s.node).0 in
      (
        ap (λ (n : NodeState). n.services) q ∙ i.services_same,
        ap (λ (n : NodeState). n.posts) q ∙ i.posts_same,
        refl,
      )
  serve-IsUntouched now later (http_v2 r) s code msg e =
      handle-IsUntouched http_door now later r s code msg e
  serve-IsUntouched now later (grpc_v2 r) s code msg e =
      handle-IsUntouched grpc_door now later r s code msg e

  pub serve-running :
      (now later : ℕ) (c : Call) (s : NodeStateV2)
      → live now (hash_of c) s.node.manager.cache ≡ some task_status_pending
      → (t : ℕ) → t < later + 60 * second
      → live t (hash_of c) (serve now later c s).node.manager.cache ≡ some task_status_running
  serve-running now later c s e t h =
      ap (λ (m : Manager). live t (hash_of c) m.cache)
        (serve-manager now later c s
          ∙ ap (λ (x : Manager × Check Text). x.0)
              (claim_task-pending now later (hash_of c) s.node.manager e))
      ∙ set-live later t (hash_of c) task_status_running (get now (hash_of c) s.node.manager).0 h

  -- Two requests for one pending task, each over HTTP or gRPC, and of the first or the second
  -- version, the second less than a minute after the claim of the first: the second reaches none of
  -- the provers, the providers and the hub.
  pub serve_twice :
      (now later now' later' : ℕ) (c c' : Call) (s : NodeStateV2)
      → hash_of c' ≡ hash_of c
      → live now (hash_of c) s.node.manager.cache ≡ some task_status_pending
      → now' < later + 60 * second
      → IsUntouched (serve now later c s) (serve now' later' c' (serve now later c s))
  serve_twice now later now' later' c c' s same e h =
      serve-IsUntouched now' later' c' (serve now later c s) status_code_task_invalid
        (codes "Proof hash is invalid")
        (claim_task-running now' later' (hash_of c') (serve now later c s).node.manager
          (rw same (serve-running now later c s e now' h)))
