-- ===== src/Node/ServiceV2.antt =====
-- `ProveServiceV2` of prover/node/src/modules/prove_service/v2/main.py. Where its code is that of the
-- first version, so is its model.
pub mod Authorised
pub mod Examples
use prover.Prelude.{
  ℕ, Bool, true, false, ◌||◌, Option, none, some, List, [], ◌∷◌, ◌++◌, Text, codes, if◌then◌else◌,
  is_empty,
}
use prover.Prelude.Int.{ℤ, pos, negsuc}
use prover.PyText.{text_eq}
use prover.Node.Status.{
  Check, passed, failed, status_code_unsupport_task_type, status_code_unsupport_prover,
  status_code_unauthorized_payload,
}
use prover.Node.Project.{Project, get_project}
use prover.Node.Pool.{Pool}
use prover.Node.Rpc.{Call}
use prover.Node.Service
use prover.Node.Service.{World, Services, check_login, chosen_provider, unsupported}
use prover.Node.ProverV2.{
  Procedure, rpc_tiga_offchain, rpc_binance_offchain, rpc_merkle_offchain, ProveRequest, Reply,
  ProverResult, Answer, result, call_escapes, blocked, prove_v2, prove_offchain,
}

pub record ProofResult : Type 0 where
  pub code : ℤ
  pub msg : Text
  pub proof : Option Text
  pub proof_solidity : Option Text
  pub proof_bytes : Option Text
  pub public_witness : Option Text
  pub public_witness_bytes : Option Text
  pub project_name : Option Text
  pub verifiers : List Text
  pub duration : Option ℕ

-- How `prove` ends: with a result, by an exception, or not at all.
pub data Outcome : Type 0 where
  answered : ProofResult → Outcome
  escaped : Outcome
  stuck : Outcome

pub record Job : Type 0 where
  pub method : ℤ
  pub prover_id : Text
  pub circuit_template_id : Text
  pub input_data : Text
  pub is_encrypted : Bool
  pub length : ℕ
  pub oauth_provider : Text

-- What the service shares between requests: the providers and the circom prover, which are those of
-- the first version, and the pool of the private prover.
pub record ServicesV2 : Type 0 where
  pub services : Services
  pub private_pool : Pool

-- How the calls of a request end, for the procedures of the second version.
abbrev pub Calls : Type 0
Calls = ProveRequest → ℕ → Call Reply

-- An early return: the other fields keep their defaults.
abbrev pub refusal : ℕ → Text → ProofResult
refusal code msg = record {
  code = pos code;
  msg = msg;
  proof = none;
  proof_solidity = none;
  proof_bytes = none;
  public_witness = none;
  public_witness_bytes = none;
  project_name = none;
  verifiers = [];
  duration = none;
}

abbrev pub without_project : ProverResult → ProofResult
without_project r = record {
  code = r.code;
  msg = r.msg;
  proof = r.proof;
  proof_solidity = r.proof_solidity;
  proof_bytes = r.proof_bytes;
  public_witness = r.public_witness;
  public_witness_bytes = r.public_witness_bytes;
  project_name = none;
  verifiers = [];
  duration = none;
}

-- `rpc_map.get(circuit_template_id)`
abbrev pub rpc_of : Text → Option Procedure
rpc_of template =
    if text_eq template (codes "10005")
    then some rpc_tiga_offchain
    else if text_eq template (codes "10006")
    then some rpc_binance_offchain
    else if text_eq template (codes "10010")
    then some rpc_merkle_offchain
    else none

module _ (w : World) where
  abbrev pub process_input : Text → Bool → Option (Check Text)
  process_input = Service.process_input w

  unfoldable pub check_tiga : Text → Text → Option (Check (Option Text))
  check_tiga template input_data =
      if text_eq template (codes "10006")
        || text_eq template (codes "10005")
        || text_eq template (codes "10010")
      then some (passed none)
      else (elim (w.modules input_data) [
        | none ↦ none
        | some true ↦ some (
            failed status_code_unauthorized_payload
              (codes "Data is invalid, please check the input data"))
        | some false ↦ some (passed none)
      ])

  -- `_validate_task_type_and_input`
  unfoldable pub validate_task_type_and_input :
      ℤ → Text → Text → Text → Services → Services × Option (Check (Option Text))
  unfolding check_tiga
  validate_task_type_and_input (pos ℕ.zero) template input_data oauth_provider sv =
      check_login w (chosen_provider w template oauth_provider) input_data sv
  validate_task_type_and_input (negsuc ℕ.zero) template input_data oauth_provider sv =
      (sv, check_tiga template input_data)
  validate_task_type_and_input (pos (ℕ.suc n)) template input_data oauth_provider sv =
      (sv, some (failed status_code_unsupport_task_type (unsupported (pos (ℕ.suc n)))))
  validate_task_type_and_input (negsuc (ℕ.suc n)) template input_data oauth_provider sv =
      (sv, some (failed status_code_unsupport_task_type (unsupported (negsuc (ℕ.suc n)))))

  -- `ujson.loads(prover_result.public_witness)[-1]`, which raises for `None`.
  abbrev pub project_id_of : Option Text → Option Text
  project_id_of none = none
  project_id_of (some text) = w.last_public text

  unfoldable pub with_project : ProverResult → Option Text → Outcome
  with_project r none = escaped
  with_project r (some project_id) =
      let project : Project = get_project project_id w.projects in
      answered (record (without_project r) {
        project_name = some project.project_name;
        verifiers = project.verifiers;
        duration = some w.duration;
      })

  -- From `if prover_result.proof` on.
  unfoldable pub finish : ProverResult → Outcome
  unfolding with_project
  finish r = elim r.proof [
    | none ↦ answered (without_project r)
    | some proof ↦
        if is_empty proof
        then answered (without_project r)
        else with_project r (project_id_of r.public_witness)
  ]

  unfoldable pub outcome_of : Answer → Outcome
  unfolding finish
  outcome_of (result r) = finish r
  outcome_of call_escapes = escaped
  outcome_of blocked = stuck

  module _ (calls : Calls) where
    abbrev pub call_circom : Job → Text → ServicesV2 → ServicesV2 × Outcome
    call_circom job input_data sv =
        let a : Pool × Answer =
          prove_v2 w.error_text calls input_data job.circuit_template_id job.length
            sv.services.pool in
        (record sv { services = record sv.services { pool = a.0 } }, outcome_of a.1)

    abbrev pub call_private : Job → Text → ServicesV2 → Option Procedure → ServicesV2 × Outcome
    call_private job input_data sv none = (
      sv,
      answered (
          refusal status_code_unsupport_task_type
            (codes "Unsupported circuit_template_id: " ++ job.circuit_template_id)),
    )
    call_private job input_data sv (some procedure) =
        let a : Pool × Answer =
          prove_offchain w.error_text calls procedure input_data job.circuit_template_id
            sv.private_pool in
        (record sv { private_pool = a.0 }, outcome_of a.1)

    -- The choice of the prover, and its call. Neither prover raises `NotImplementedError`.
    unfoldable pub call : Job → Text → ServicesV2 → ServicesV2 × Outcome
    unfolding outcome_of
    call job input_data sv =
        if text_eq job.prover_id (codes "circom")
        then call_circom job input_data sv
        else if text_eq job.prover_id (codes "private")
        then call_private job input_data sv (rpc_of job.circuit_template_id)
        else (sv, answered (refusal status_code_unsupport_prover (codes "Prover not match")))

    unfoldable pub after_validation :
        Job → Text → ServicesV2 → Option (Check (Option Text)) → ServicesV2 × Outcome
    unfolding call
    after_validation job input_data sv none = (sv, escaped)
    after_validation job input_data sv (some (failed code msg)) = (sv, answered (refusal code msg))
    after_validation job input_data sv (some (passed m)) = call job input_data sv

    unfoldable pub after_input : Job → ServicesV2 → Option (Check Text) → ServicesV2 × Outcome
    unfolding after_validation
    after_input job sv none = (sv, escaped)
    after_input job sv (some (failed code msg)) = (sv, answered (refusal code msg))
    after_input job sv (some (passed input_data)) =
        let v =
          validate_task_type_and_input job.method job.circuit_template_id input_data
            job.oauth_provider sv.services in
        after_validation job input_data (record sv { services = v.0 }) v.1

    unfoldable pub prove : Job → ServicesV2 → ServicesV2 × Outcome
    unfolding after_input
    prove job sv = after_input job sv (process_input job.input_data job.is_encrypted)
