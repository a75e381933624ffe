-- ===== src/Node/HandlersV2/Examples.antt =====
-- One task, first over gRPC in the second version, then over HTTP in the first; and its push.
use prover.Prelude.{
  ℕ, ◌+◌, ◌*◌, ◌<◌, ◌≡◌, refl, Bool, true, false, some, [], ◌∷◌, Text, codes, arith, text_discrete,
}
use prover.Prelude.Int.{pos, negsuc}
use prover.Dict.{lookup}
use prover.Node.Status.{task_status_running}
use prover.Node.ProofManager.{get, second}
use prover.Node.ProofManager.View.{live}
use prover.Node.Circom.{rpc_prove}
use prover.Node.HttpV1.{push_task}
use prover.Node.HttpV1.Examples.{world, hub, state, request}
use prover.Node.ServiceV2.Examples.{calls}
use prover.Node.HandlersV2.{RequestV2, NodeStateV2}
use prover.Node.HandlersV2.Doors.{Call, http_v1, http_v2, grpc_v2, serve, IsUntouched, serve_twice}
use prover.Node.HandlersV2.Served.{proved, serve-pushed}
use prover.Node.HandlersV2.Answers.{services_of, Shows, answer, job_result}
use prover.Node.Service.Prove.{ProofResult}
use prover.Node.HttpV1.{ResultBody, posts_of}
use prover.Node.ServiceV2.{prove}
use prover.Node.ServiceV2

abbrev node : NodeStateV2
node = record {
  node = state;
  private_pool = record {
    max_connections = 1;
    queue = [];
    created = 0;
    closed = false;
    waiting = 0;
  };
}

abbrev task : RequestV2
task = record {
  prover = codes "private";
  circuit_template_id = codes "10006";
  payload = codes "in";
  is_encrypted = false;
  task_type = negsuc 0;
  length = 4;
  oauth_provider = [];
  proof_hash = codes "h";
}

serve_twice_example : IsUntouched (serve world calls hub 10 20 (grpc_v2 task) node) (
    serve world calls hub 30 40
      (http_v1 rpc_prove request)
      (serve world calls hub 10 20 (grpc_v2 task) node))
unfolding live lookup text_discrete
serve_twice_example =
    serve_twice world calls hub 10 20 30 40 (grpc_v2 task) (http_v1 rpc_prove request) node refl
      refl (ground arith)

abbrev accept_all : Text → Text → Bool
accept_all h s = true

-- The node once the hub has pushed the task again.
abbrev pushed : NodeStateV2
pushed = record node {
  node = record state {
    manager = (push_task accept_all 10 20 (codes "h") (codes "s") state.manager).0;
  };
}

-- A job that the private prover has a procedure for.
abbrev login : Call
login = http_v2 (record task { circuit_template_id = codes "10010" })

abbrev proof : ProofResult
proof = record {
  code = pos 0;
  msg = [];
  proof = some (codes "p");
  witness = some (codes "w");
  project_name = some (codes "Anonymous");
  verifiers = some (codes "Unknow" ∷ []);
  duration = some 12;
}

abbrev body : ResultBody
body = record {
  project_name = codes "Anonymous";
  proof_hash = codes "h";
  duration = codes "12";
  verifiers = codes "[]";
}

login_proved : job_result world calls hub login (services_of pushed) ≡ some proof
unfolding prove lookup text_discrete prover.Node.Service.process_input
    ServiceV2.validate_task_type_and_input prover.Node.ProverV2.call_prover prover.Node.Rpc.rpc
    prover.Node.Pool.acquire prover.Node.Project.get_project
login_proved = refl

proof_posts : posts_of hub (codes "h") proof ≡ some (body ∷ [])
unfolding posts_of prover.Prelude.Decimal.decimal
proof_posts = refl

serve-pushed_example :
    ((serve world calls hub 30 40 login pushed).node.posts ≡ body ∷ [])
    × Shows login proof (answer world calls hub 30 40 login pushed)
    × (services_of (serve world calls hub 30 40 login pushed)
        ≡ proved world calls hub login (services_of pushed))
    × ((t : ℕ)
        → t < 40 + 60 * second
        → live t (codes "h") (serve world calls hub 30 40 login pushed).node.manager.cache
          ≡ some task_status_running)
unfolding push_task get lookup text_discrete
serve-pushed_example =
    serve-pushed world calls hub accept_all 10 20 30 40 (codes "h") (codes "s") state.manager login
      pushed proof (body ∷ []) refl refl refl refl (ground arith) login_proved proof_posts
