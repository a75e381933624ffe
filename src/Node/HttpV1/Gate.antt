-- ===== src/Node/HttpV1/Gate.antt =====
-- The claim as the gate in front of the prover, in http_server/v1/main.py.
use prover.Prelude.{
  ℕ, zero, suc, ◌+◌, ◌*◌, ◌<◌, ◌≡◌, ◌≢◌, ◌↔◌, ◌⊎◌, inl, inr, refl, Bool, true, false, Option, none,
  some, Text, codes, if◌then◌else◌, arith, ap, ◌∙◌,
}
use prover.Prelude.Int.{ℤ}
use prover.Node.Status.{
  Check, passed, failed, status_code_task_invalid, status_code_successfully, task_status_pending,
  task_status_running,
}
use prover.Node.ProofManager.{Manager, get, set, claim_status, claim_task, default_ttl, second}
use prover.Node.ProofManager.View.{live, get-live, live-set}
use prover.Node.Circom.{Procedure}
use prover.Node.Service.{World}
use prover.Node.HttpV1.{
  Request, HubWorld, NodeState, HttpResponse, http_exception, status_response, handle_claimed,
  handle, is_truthy, push_task,
}

claim_task-live :
    (now later : ℕ) (key : Text) (m : Manager)
    → claim_task now later key m ≡ claim_status later key (get now key m).0 (live now key m.cache)
unfolding claim_task
claim_task-live now later key m =
    ap (λ o. claim_status later key (get now key m).0 o) (get-live now key m)

-- A key that was set to a value is live with it until its time is over.
pub set-live :
    (now later : ℕ) (key : Text) (value : ℕ) (m : Manager)
    → later < now + 60 * second
    → live later key (set now key value default_ttl m).cache ≡ some value
set-live now later key value m h = live-set now later key key value default_ttl m ∙ ground arith

pub claim_task-pending :
    (now later : ℕ) (key : Text) (m : Manager)
    → live now key m.cache ≡ some task_status_pending
    → claim_task now later key m ≡ (
      set later key task_status_running default_ttl (get now key m).0,
      passed (codes "Successfully"),
    )
unfolding claim_status
claim_task-pending now later key m e = claim_task-live now later key m ∙ rw e refl

pub claim_task-running :
    (now later : ℕ) (key : Text) (m : Manager)
    → live now key m.cache ≡ some task_status_running
    → (claim_task now later key m).1
      ≡ failed status_code_task_invalid (codes "Proof hash is invalid")
unfolding claim_status
claim_task-running now later key m e =
    ap (λ (x : Manager × Check Text). x.1) (claim_task-live now later key m) ∙ rw e refl

claim_status-cases :
    (later : ℕ) (key : Text) (m : Manager) (o : Option ℕ)
    → (o ≡ some task_status_pending)
      ⊎ ((code : ℕ) × (msg : Text) × ((claim_status later key m o).1 ≡ failed code msg))
unfolding claim_status
claim_status-cases later key m none = inr (_, _, refl)
claim_status-cases later key m (some zero) = inl refl
claim_status-cases later key m (some (suc n)) =
    inr (status_code_task_invalid, codes "Proof hash is invalid", ground arith)

-- The work that a request left undone: the provers and the hub saw nothing of it.
pub record IsIdle (s : NodeState) (o : NodeState × HttpResponse) (msg : Text) : Type 0 where
  pub services_same : o.0.services ≡ s.services
  pub posts_same : o.0.posts ≡ s.posts
  pub refused : o.1 ≡ http_exception 400 msg

module _ (w : World) (hub : HubWorld) (procedure : Procedure) where
  handle_claimed-manager :
      (r : Request) (m : Manager) (c : Check Text) (s : NodeState)
      → (handle_claimed w hub procedure r m c s).0.manager ≡ m
  unfolding handle_claimed
  handle_claimed-manager r m (passed msg) s = refl
  handle_claimed-manager r m (failed code msg) s = refl

  pub handle-manager :
      (now later : ℕ) (r : Request) (s : NodeState)
      → (handle w hub procedure now later r s).0.manager
        ≡ (claim_task now later r.proof_hash s.manager).0
  unfolding handle
  handle-manager now later r s =
      handle_claimed-manager r (claim_task now later r.proof_hash s.manager).0
        (claim_task now later r.proof_hash s.manager).1 s

  pub handle-failed :
      (now later : ℕ) (r : Request) (s : NodeState) (code : ℕ) (msg : Text)
      → (claim_task now later r.proof_hash s.manager).1 ≡ failed code msg
      → IsIdle s (handle w hub procedure now later r s) msg
  unfolding handle handle_claimed
  handle-failed now later r s code msg e =
      rw (e, handle, handle_claimed)
        (record { services_same = refl; posts_same = refl; refused = refl })

  handle-running :
      (now later : ℕ) (r : Request) (s : NodeState)
      → live now r.proof_hash s.manager.cache ≡ some task_status_pending
      → (t : ℕ) → t < later + 60 * second
      → live t r.proof_hash (handle w hub procedure now later r s).0.manager.cache
        ≡ some task_status_running
  handle-running now later r s e t h =
      ap (λ (m : Manager). live t r.proof_hash m.cache)
        (handle-manager now later r s
          ∙ ap (λ (x : Manager × Check Text). x.0)
              (claim_task-pending now later r.proof_hash s.manager e))
      ∙ set-live later t r.proof_hash task_status_running (get now r.proof_hash s.manager).0 h

  -- Only a request whose proof hash is pending gets to the provers or to the hub, and then the hash
  -- is running until a minute after the claim; any other request is answered with the status 400.
  pub handle-gate :
      (now later : ℕ) (r : Request) (s : NodeState)
      → ((live now r.proof_hash s.manager.cache ≡ some task_status_pending)
          × ((t : ℕ)
              → t < later + 60 * second
              → live t r.proof_hash (handle w hub procedure now later r s).0.manager.cache
                ≡ some task_status_running))
        ⊎ ((msg : Text) × IsIdle s (handle w hub procedure now later r s) msg)
  handle-gate now later r s =
      elim (claim_status-cases later r.proof_hash (get now r.proof_hash s.manager).0
        (live now r.proof_hash s.manager.cache)) [
          | inl e ↦ inl (e, handle-running now later r s e)
          | inr (code, msg, e) ↦ inr (
            msg,
            handle-failed now later r s code msg (
                ap (λ (x : Manager × Check Text). x.1)
                  (claim_task-live now later r.proof_hash s.manager)
                ∙ e),
          )
        ]

  -- Two requests with one pending proof hash, the second less than a minute after the first: the
  -- second reaches neither the provers nor the hub.
  pub handle_twice :
      (now later now' later' : ℕ) (r r' : Request) (s : NodeState)
      → r'.proof_hash ≡ r.proof_hash
      → live now r.proof_hash s.manager.cache ≡ some task_status_pending
      → now' < later + 60 * second
      → IsIdle
          (handle w hub procedure now later r s).0
          (handle w hub procedure now' later' r' (handle w hub procedure now later r s).0)
          (codes "Proof hash is invalid")
  handle_twice now later now' later' r r' s same e h =
      handle-failed now' later' r' (handle w hub procedure now later r s).0 status_code_task_invalid
        (codes "Proof hash is invalid")
        (claim_task-running now' later' r'.proof_hash
          (handle w hub procedure now later r s).0.manager
          (rw same (handle-running now later r s e now' h)))

push_task-verified :
    (verify : Text → Text → Bool) (now later : ℕ) (proof_hash signature : Text) (m : Manager)
    → verify proof_hash signature ≡ true
    → push_task verify now later proof_hash signature m ≡ (
        if is_truthy (live now proof_hash m.cache)
        then ((get now proof_hash m).0, http_exception 400 (codes "Proof hash is exist."))
        else (
          set later proof_hash task_status_pending default_ttl (get now proof_hash m).0,
          status_response status_code_successfully (codes "Successfully"),
        ))
unfolding push_task live
push_task-verified verify now later proof_hash signature m v =
    rw (v, push_task, get-live now proof_hash m) refl

is_truthy-cases :
    (o : Option ℕ)
    → ((is_truthy o ≡ false) × ((o ≡ none) ⊎ (o ≡ some task_status_pending)))
      ⊎ ((is_truthy o ≡ true) × ¬ ((o ≡ none) ⊎ (o ≡ some task_status_pending)))
is_truthy-cases none = inl (refl, inl refl)
is_truthy-cases (some zero) = inl (refl, inr refl)
is_truthy-cases (some (suc n)) = inr (refl, λ d. elim d [ inl e ↦ cc | inr e ↦ ground arith ])

exception-ne-status :
    {status : ℕ} {msg : Text} {code : ℤ} {m : Text}
    → http_exception status msg ≢ status_response code m
exception-ne-status e = cc

-- With a valid signature `push_task` answers with success exactly if the proof hash is not live, or
-- still pending; and then the hash is pending for a minute.
pub push_task-accepts :
    (verify : Text → Text → Bool) (now later : ℕ) (proof_hash signature : Text) (m : Manager)
    → verify proof_hash signature ≡ true
    → (((push_task verify now later proof_hash signature m).1
          ≡ status_response status_code_successfully (codes "Successfully"))
        ↔ ((live now proof_hash m.cache ≡ none)
            ⊎ (live now proof_hash m.cache ≡ some task_status_pending)))
      × ((t : ℕ)
          → t < later + 60 * second
          → (push_task verify now later proof_hash signature m).1
            ≡ status_response status_code_successfully (codes "Successfully")
          → live t proof_hash (push_task verify now later proof_hash signature m).0.cache
            ≡ some task_status_pending)
push_task-accepts verify now later proof_hash signature m v =
    elim (is_truthy-cases (live now proof_hash m.cache)) [
      | inl (e, d) ↦
          rw (push_task-verified verify now later proof_hash signature m v, e)
            (
              (λ q. d, λ q. refl),
              λ t h q. set-live later t proof_hash task_status_pending (get now proof_hash m).0 h,
            )
      | inr (e, n) ↦
          rw (push_task-verified verify now later proof_hash signature m v, e)
            (
              (λ q. absurd (exception-ne-status q), λ d. absurd (n d)),
              λ t h q. absurd (exception-ne-status q),
            )
    ]
