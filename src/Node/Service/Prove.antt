-- ===== src/Node/Service/Prove.antt =====
-- `prove` and its variants in prover/node/src/modules/prove_service/v1/main.py.
use prover.Prelude.{ℕ, Bool, Option, none, some, List, [], Text, codes, if◌then◌else◌, is_empty}
use prover.Prelude.Int.{ℤ, pos}
use prover.PyText.{text_eq}
use prover.Node.Status.{Check, passed, failed, status_code_unsupport_prover}
use prover.Node.Project.{Project, get_project}
use prover.Node.Pool.{Pool}
use prover.Node.Circom.{
  Procedure, rpc_prove, rpc_nosha256, rpc_nosha256_with_witness, rpc_nosha256_offchain,
  ProveRequest, CircomResult, Answer, result, call_escapes, blocked, call_prover,
}
use prover.Node.Service.{World, Services, process_input, validate_task_type_and_input}

pub record ProofResult : Type 0 where
  pub code : ℤ
  pub msg : Text
  pub proof : Option Text
  pub witness : Option Text
  pub project_name : Option Text
  pub verifiers : Option (List Text)
  pub duration : Option ℕ

-- How a method of the service ends: with a result, by an exception, or not at all.
pub data Outcome : Type 0 where
  answered : ProofResult → Outcome
  escaped : Outcome
  stuck : Outcome

-- The arguments of a method; `prove` has no length.
pub record Job : Type 0 where
  pub method : ℤ
  pub prover_id : Text
  pub circuit_template_id : Text
  pub input_data : Text
  pub is_encrypted : Bool
  pub length : ℕ
  pub oauth_provider : Text

-- An early return: the other fields keep their defaults.
abbrev pub refusal : ℕ → Text → ProofResult
refusal code msg = record {
  code = pos code;
  msg = msg;
  proof = none;
  witness = none;
  project_name = none;
  verifiers = some [];
  duration = none;
}

abbrev pub length_of : Procedure → ℕ → Option ℕ
length_of rpc_prove length = none
length_of rpc_nosha256 length = some length
length_of rpc_nosha256_with_witness length = some length
length_of rpc_nosha256_offchain length = some length

abbrev pub without_project : CircomResult → ProofResult
without_project r = record {
  code = r.code;
  msg = r.msg;
  proof = r.proof;
  witness = r.witness;
  project_name = none;
  verifiers = none;
  duration = none;
}

module _ (w : World) where
  -- The result with the project that its public values name.
  unfoldable pub with_project : CircomResult → Option Text → Outcome
  with_project r none = escaped
  with_project r (some project_id) =
      let project : Project = get_project project_id w.projects in
      answered (record {
        code = r.code;
        msg = r.msg;
        proof = r.proof;
        witness = r.witness;
        project_name = some project.project_name;
        verifiers = some project.verifiers;
        duration = some w.duration;
      })

  -- `ujson.loads(text)[-1]`, which raises for `None`.
  abbrev pub project_id_of : Option Text → Option Text
  project_id_of none = none
  project_id_of (some text) = w.last_public text

  -- The public values are in the witness, where the procedure returns one, or else in the proof.
  abbrev pub public_values : Procedure → CircomResult → Option Text
  public_values rpc_prove r = r.proof
  public_values rpc_nosha256 r = r.proof
  public_values rpc_nosha256_with_witness r = r.witness
  public_values rpc_nosha256_offchain r = r.witness

  -- The end of a method, from `if prover_result.proof` on.
  unfoldable pub finish : Procedure → CircomResult → Outcome
  unfolding with_project
  finish procedure r = elim r.proof [
    | none ↦ answered (without_project r)
    | some proof ↦
        if is_empty proof
        then answered (without_project r)
        else with_project r (project_id_of (public_values procedure r))
  ]

  unfoldable pub outcome_of : Procedure → Answer → Outcome
  unfolding finish
  outcome_of procedure (result r) = finish procedure r
  outcome_of procedure call_escapes = escaped
  outcome_of procedure blocked = stuck

  -- The choice of the prover, and its call. `CircomProver` raises no `NotImplementedError`.
  unfoldable pub call : Procedure → Job → Text → Services → Services × Outcome
  unfolding outcome_of
  call procedure job input_data sv =
      let request : ProveRequest = record {
        procedure = procedure;
        input = input_data;
        temp = job.circuit_template_id;
        length = length_of procedure job.length;
      } in
      let answer : Pool × Answer = call_prover w.error_text w.calls request sv.pool in
      if text_eq job.prover_id (codes "circom")
      then (record sv { pool = answer.0 }, outcome_of procedure answer.1)
      else (sv, answered (refusal status_code_unsupport_prover (codes "Prover not match")))

  unfoldable pub after_validation :
      Procedure → Job → Text → Services → Option (Check (Option Text)) → Services × Outcome
  unfolding call
  after_validation procedure job input_data sv none = (sv, escaped)
  after_validation procedure job input_data sv (some (failed code msg)) =
      (sv, answered (refusal code msg))
  after_validation procedure job input_data sv (some (passed m)) = call procedure job input_data sv

  unfoldable pub after_input : Procedure → Job → Services → Option (Check Text) → Services × Outcome
  unfolding after_validation
  after_input procedure job sv none = (sv, escaped)
  after_input procedure job sv (some (failed code msg)) = (sv, answered (refusal code msg))
  after_input procedure job sv (some (passed input_data)) =
      let v =
        validate_task_type_and_input w job.method job.circuit_template_id input_data
          job.oauth_provider sv in
      after_validation procedure job input_data v.0 v.1

  -- What the four methods have in common.
  unfoldable pub prove_with : Procedure → Job → Services → Services × Outcome
  unfolding after_input
  prove_with procedure job sv =
      after_input procedure job sv (process_input w job.input_data job.is_encrypted)

  abbrev pub prove : Job → Services → Services × Outcome
  prove = prove_with rpc_prove

  abbrev pub prove_nosha256 : Job → Services → Services × Outcome
  prove_nosha256 = prove_with rpc_nosha256

  abbrev pub prove_nosha256_with_witness : Job → Services → Services × Outcome
  prove_nosha256_with_witness = prove_with rpc_nosha256_with_witness

  abbrev pub prove_nosha256_offchain : Job → Services → Services × Outcome
  prove_nosha256_offchain = prove_with rpc_nosha256_offchain
