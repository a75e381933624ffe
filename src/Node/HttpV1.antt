-- ===== src/Node/HttpV1.antt =====
-- The handlers of prover/node/src/application/http_server/v1/main.py that claim a task and prove it,
-- and `push_task`; and `send_result` of prover/node/src/modules/hub/main.py.
pub mod Gate
pub mod Examples
use prover.Prelude.{
  ℕ, ◌*◌, Bool, true, false, not, Option, none, some, List, [], ◌∷◌, ◌++◌, Text, codes,
  if◌then◌else◌, is_empty,
}
use prover.Prelude.Decimal.{decimal}
use prover.Prelude.Int.{ℤ, pos}
use prover.Base64.{b64encode}
use prover.Node.Status.{Check, passed, failed, status_code_successfully, task_status_pending}
use prover.Node.ProofManager.{Manager, get, set, claim_task, second}
use prover.Node.Circom.{
  Procedure, rpc_prove, rpc_nosha256, rpc_nosha256_with_witness, rpc_nosha256_offchain, has_witness,
}
use prover.Node.Service.{World, Services}
use prover.Node.Service.Prove.{ProofResult, Outcome, answered, escaped, stuck, Job, prove_with}

-- A request; `prove` has no length.
pub record Request : Type 0 where
  pub prover_id : Text
  pub circuit_template_id : Text
  pub input_data : Text
  pub is_encrypted : Bool
  pub proof_hash : Text
  pub length : ℕ
  pub method : Option ℤ
  pub oauth_provider : Option Text

-- The body that `send_result` posts to the hub.
pub record ResultBody : Type 0 where
  pub project_name : Text
  pub proof_hash : Text
  pub duration : Text
  pub verifiers : Text

-- What `send_result` is told: the `encrypt` of the session key, where `none` is an exception, or
-- that there is no such file; and `ujson.dumps`.
pub record HubWorld : Type 0 where
  pub session_key : Option (Text → Option Text)
  pub dumps : Option (List Text) → Text

pub record NodeState : Type 0 where
  pub manager : Manager
  pub services : Services
  pub posts : List ResultBody

-- An `HTTPException`, an answer, an exception that escapes, or no answer.
pub data HttpResponse : Type 0 where
  http_exception : ℕ → Text → HttpResponse
  status_response : ℤ → Text → HttpResponse
  prove_response : ℤ → Text → Option Text → HttpResponse
  prove_with_witness_response : ℤ → Text → Option Text → Option Text → HttpResponse
  uncaught : HttpResponse
  no_answer : HttpResponse

-- `request.method or TASK_TYPE_ZKLOGIN`
abbrev pub method_of : Option ℤ → ℤ
method_of none = pos 0
method_of (some method) = method

-- `request.oauth_provider or OAUTH_PROVIDER_GOOGLE`
abbrev pub provider_or_google : Option Text → Text
provider_or_google none = codes "google"
provider_or_google (some []) = codes "google"
provider_or_google (some (c ∷ cs)) = c ∷ cs

abbrev pub job_of : Request → Job
job_of r = record {
  method = method_of r.method;
  prover_id = r.prover_id;
  circuit_template_id = r.circuit_template_id;
  input_data = r.input_data;
  is_encrypted = r.is_encrypted;
  length = r.length;
  oauth_provider = provider_or_google r.oauth_provider;
}

-- `str(duration)`
abbrev pub duration_text : Option ℕ → Text
duration_text none = codes "None"
duration_text (some n) = decimal n

abbrev pub body_of : Option Text → Option Text → Option Text → Option Text → Option ResultBody
body_of (some p) (some h) (some d) (some v) =
    some (record { project_name = p; proof_hash = h; duration = d; verifiers = v })
body_of none h d v = none
body_of (some p) none d v = none
body_of (some p) (some h) none v = none
body_of (some p) (some h) (some d) none = none

-- `send_result`: what it posts; `none` is an exception of `encrypt`. What the hub answers is only
-- logged.
unfoldable pub send_result : HubWorld → Text → Text → ProofResult → Option (List ResultBody)
send_result hub project_name proof_hash r = elim hub.session_key [
  | none ↦ some []
  | some encrypt ↦
      elim (body_of (encrypt project_name) (encrypt proof_hash) (encrypt (duration_text r.duration))
        (encrypt (hub.dumps r.verifiers))) [ none ↦ none | some body ↦ some (body ∷ []) ]
]

-- The result is sent if the project's name is not empty.
unfoldable pub posts_of : HubWorld → Text → ProofResult → Option (List ResultBody)
unfolding send_result
posts_of hub proof_hash r = elim r.project_name [
  | none ↦ some []
  | some name ↦ if is_empty name then some [] else send_result hub name proof_hash r
]

-- `proof_to_base64`: the prover gives the proof as bytes for the off-chain procedure alone.
abbrev pub encode_proof : Procedure → Option Text → Option Text
encode_proof rpc_nosha256_offchain (some bytes) = some (b64encode bytes)
encode_proof rpc_nosha256_offchain none = none
encode_proof rpc_prove proof = proof
encode_proof rpc_nosha256 proof = proof
encode_proof rpc_nosha256_with_witness proof = proof

abbrev pub response_of : Procedure → ProofResult → HttpResponse
response_of procedure r = elim (has_witness procedure) [
  | false ↦ prove_response r.code r.msg r.proof
  | true ↦ prove_with_witness_response r.code r.msg (encode_proof procedure r.proof) r.witness
]

unfoldable pub report :
    HubWorld → Procedure → Text → Outcome → List ResultBody → List ResultBody × HttpResponse
unfolding posts_of
report hub procedure proof_hash escaped posts = (posts, uncaught)
report hub procedure proof_hash stuck posts = (posts, no_answer)
report hub procedure proof_hash (answered r) posts = elim (posts_of hub proof_hash r) [
  | none ↦ (posts, uncaught)
  | some bodies ↦ (posts ++ bodies, response_of procedure r)
]

-- A handler after its claim.
unfoldable pub handle_claimed :
    World
    → HubWorld
    → Procedure
    → Request
    → Manager
    → Check Text
    → NodeState
    → NodeState × HttpResponse
unfolding report
handle_claimed w hub procedure r m (failed code msg) s =
    (record s { manager = m }, http_exception 400 msg)
handle_claimed w hub procedure r m (passed msg) s =
    let proved = prove_with w procedure (job_of r) s.services in
    let reported = report hub procedure r.proof_hash proved.1 s.posts in
    (record { manager = m; services = proved.0; posts = reported.0 }, reported.1)

-- What the four handlers have in common: the claim at two readings of the clock, the proof, and
-- the result for the hub.
unfoldable pub handle :
    World → HubWorld → Procedure → ℕ → ℕ → Request → NodeState → NodeState × HttpResponse
unfolding handle_claimed
handle w hub procedure now later r s =
    let claimed = claim_task now later r.proof_hash s.manager in
    handle_claimed w hub procedure r claimed.0 claimed.1 s

module _ (w : World) (hub : HubWorld) where
  abbrev pub prove : ℕ → ℕ → Request → NodeState → NodeState × HttpResponse
  prove = handle w hub rpc_prove

  abbrev pub prove_nosha256 : ℕ → ℕ → Request → NodeState → NodeState × HttpResponse
  prove_nosha256 = handle w hub rpc_nosha256

  abbrev pub prove_nosha256_with_witness : ℕ → ℕ → Request → NodeState → NodeState × HttpResponse
  prove_nosha256_with_witness = handle w hub rpc_nosha256_with_witness

  abbrev pub prove_nosha256_offchain : ℕ → ℕ → Request → NodeState → NodeState × HttpResponse
  prove_nosha256_offchain = handle w hub rpc_nosha256_offchain

-- `if proof_manager_cls.get(proof_hash)`: a status that is there and not 0.
abbrev pub is_truthy : Option ℕ → Bool
is_truthy none = false
is_truthy (some ℕ.zero) = false
is_truthy (some (ℕ.suc n)) = true

-- `push_task`; `verify` is the `verify` of the session key.
unfoldable pub push_task :
    (Text → Text → Bool) → ℕ → ℕ → Text → Text → Manager → Manager × HttpResponse
push_task verify now later proof_hash signature m =
    let got = get now proof_hash m in
    if not (verify proof_hash signature)
    then (m, http_exception 400 (codes "invalid signature"))
    else if is_truthy got.1
    then (got.0, http_exception 400 (codes "Proof hash is exist."))
    else (
      set later proof_hash task_status_pending (some (60 * second)) got.0,
      status_response status_code_successfully (codes "Successfully"),
    )
