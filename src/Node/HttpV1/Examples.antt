-- ===== src/Node/HttpV1/Examples.antt =====
-- A request for a task that is pending, and its push.
use prover.Prelude.{
  ℕ, ◌+◌, ◌*◌, ◌<◌, ◌≡◌, ◌↔◌, ◌⊎◌, refl, Bool, true, false, none, some, [], ◌∷◌, Text, codes,
}
use prover.Prelude.Int.{pos}
use prover.Node.Status.{status_code_successfully, task_status_pending, task_status_running}
use prover.Node.ProofManager.{Manager, second}
use prover.Node.ProofManager.View.{live}
use prover.Node.Rpc.{response}
use prover.Node.OAuth.{other}
use prover.Node.Circom.{rpc_prove}
use prover.Node.Service.{World}
use prover.Node.HttpV1.{Request, HubWorld, NodeState, status_response, handle, push_task}
use prover.Node.HttpV1.Gate.{IsIdle, handle-gate, push_task-accepts}

abbrev pub world : World
world = record {
  private_key = none;
  modulus = λ s. other;
  modules = λ s. some false;
  fetched = λ s. none;
  template_provider_map = [];
  projects = [];
  last_public = λ s. some s;
  calls = λ r n. response (record { code = pos 0; msg = []; proof = codes "p"; witness = [] });
  error_text = λ c. [];
  duration = 12;
}

abbrev pub hub : HubWorld
hub = record { session_key = some (λ s. some s); dumps = λ v. codes "[]" }

abbrev pub manager : Manager
manager = record {
  cache = (codes "h", (task_status_pending, some (60 * second))) ∷ [];
  dirty = true;
}

abbrev pub state : NodeState
state = record {
  manager = manager;
  services = record {
    providers = [];
    pool = record { max_connections = 1; queue = []; created = 0; closed = false; waiting = 0 };
  };
  posts = [];
}

abbrev pub request : Request
request = record {
  prover_id = codes "circom";
  circuit_template_id = codes "10006";
  input_data = codes "in";
  is_encrypted = false;
  proof_hash = codes "h";
  length = 0;
  method = none;
  oauth_provider = none;
}

handle-gate_example :
    ((live 10 (codes "h") state.manager.cache ≡ some task_status_pending)
      × ((t : ℕ)
          → t < 20 + 60 * second
          → live t (codes "h") (handle world hub rpc_prove 10 20 request state).0.manager.cache
            ≡ some task_status_running))
    ⊎ ((msg : Text) × IsIdle state (handle world hub rpc_prove 10 20 request state) msg)
handle-gate_example = handle-gate world hub rpc_prove 10 20 request state

abbrev accept_all : Text → Text → Bool
accept_all h s = true

push_task-accepts_example :
    (((push_task accept_all 10 20 (codes "h") (codes "s") manager).1
        ≡ status_response status_code_successfully (codes "Successfully"))
      ↔ ((live 10 (codes "h") manager.cache ≡ none)
          ⊎ (live 10 (codes "h") manager.cache ≡ some task_status_pending)))
    × ((t : ℕ)
        → t < 20 + 60 * second
        → (push_task accept_all 10 20 (codes "h") (codes "s") manager).1
          ≡ status_response status_code_successfully (codes "Successfully")
        → live t (codes "h") (push_task accept_all 10 20 (codes "h") (codes "s") manager).0.cache
          ≡ some task_status_pending)
push_task-accepts_example = push_task-accepts accept_all 10 20 (codes "h") (codes "s") manager refl
