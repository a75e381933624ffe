-- ===== src/Node/ProverV2.antt =====
-- The calls of the second version of the service: `prove_v2` of
-- prover/node/src/modules/prover/circom/main.py, and `PrivateProver` of
-- prover/node/src/modules/prover/gnark/main.py, whose pool and `_rpc` are those of `CircomProver` but
-- for names.
use prover.Prelude.{ℕ, Bool, List, Option, none, some, Text}
use prover.Prelude.Int.{ℤ, pos}
use prover.Node.Status.{status_code_prover_not_response}
use prover.Node.Pool.{Pool, Acquired, new_channel, init}
use prover.Node.Rpc.{
  StatusCode, Call, Rpc, returned, raised, exception, waiting, out_of_fuel, Outcome, rpc,
}
use prover.Node.Circom.{base_backoff_ms, max_retries}

-- The pool of `PrivateProver`, and its `_rpc`.
abbrev pub new_pair : Pool → ℕ × Pool
new_pair = new_channel

abbrev pub init_pool : ℕ → ℕ → Pool
init_pool = init

abbrev pub acquire : Pool → Acquired × Pool
acquire = prover.Node.Pool.acquire

abbrev pub release : ℕ → Pool → Pool × Bool
release = prover.Node.Pool.release

abbrev pub close : Pool → Pool × List ℕ
close = prover.Node.Pool.close

abbrev pub private_rpc : {A : Type 0} → ℕ → ℕ → (ℕ → Call A) → Pool → Outcome A
private_rpc = rpc

-- The remote procedures: one of the circom prover, and three of the private prover.
pub data Procedure : Type 0 where
  rpc_prove_v2 rpc_tiga_offchain rpc_binance_offchain rpc_merkle_offchain : Procedure

-- A request; the private prover's have no length.
pub record ProveRequest : Type 0 where
  pub procedure : Procedure
  pub input : Text
  pub temp : Text
  pub length : Option ℕ

-- The fields of a response that are also those of a result.
pub record Reply : Type 0 where
  pub code : ℤ
  pub msg : Text
  pub proof : Text
  pub proof_solidity : Text
  pub proof_bytes : Text
  pub public_witness : Text
  pub public_witness_bytes : Text

-- `CircomResultV2` and `PrivateResult`, which have the same fields.
pub record ProverResult : Type 0 where
  pub code : ℤ
  pub msg : Text
  pub proof : Option Text
  pub proof_solidity : Option Text
  pub proof_bytes : Option Text
  pub public_witness : Option Text
  pub public_witness_bytes : Option Text

-- How a call ends: with a result, by an exception other than an `AioRpcError`, or not at all.
pub data Answer : Type 0 where
  result : ProverResult → Answer
  call_escapes : Answer
  blocked : Answer

abbrev pub result_of_reply : Reply → ProverResult
result_of_reply r = record {
  code = r.code;
  msg = r.msg;
  proof = some r.proof;
  proof_solidity = some r.proof_solidity;
  proof_bytes = some r.proof_bytes;
  public_witness = some r.public_witness;
  public_witness_bytes = some r.public_witness_bytes;
}

-- The `except` clause; the error's name and details are an argument.
abbrev pub not_responding : Text → ProverResult
not_responding error_text = record {
  code = pos status_code_prover_not_response;
  msg = error_text;
  proof = none;
  proof_solidity = none;
  proof_bytes = none;
  public_witness = none;
  public_witness_bytes = none;
}

unfoldable pub answer : (StatusCode → Text) → Rpc Reply → Answer
answer error_text (returned r) = result (result_of_reply r)
answer error_text (raised code) = result (not_responding (error_text code))
answer error_text exception = call_escapes
answer error_text waiting = blocked
answer error_text out_of_fuel = blocked

-- A call with the pool of its prover, by the procedure of the request.
unfoldable pub call_prover :
    (StatusCode → Text) → (ProveRequest → ℕ → Call Reply) → ProveRequest → Pool → Pool × Answer
unfolding answer
call_prover error_text calls request p =
    let o : Outcome Reply = rpc base_backoff_ms max_retries (calls request) p in
    (o.pool, answer error_text o.result)

module _ (error_text : StatusCode → Text) (calls : ProveRequest → ℕ → Call Reply) where
  -- `CircomProver.prove_v2`
  abbrev pub prove_v2 : Text → Text → ℕ → Pool → Pool × Answer
  prove_v2 input_data temp length =
      call_prover error_text calls
        (record { procedure = rpc_prove_v2; input = input_data; temp = temp; length = some length })

  -- A method of `PrivateProver`, by its procedure.
  abbrev pub prove_offchain : Procedure → Text → Text → Pool → Pool × Answer
  prove_offchain procedure input_data temp =
      call_prover error_text calls
        (record { procedure = procedure; input = input_data; temp = temp; length = none })

-- The response of `GetRunningProveTasks`.
pub record RunningReply : Type 0 where
  pub code : ℤ
  pub msg : Text
  pub count : ℕ

-- `get_running_prove_tasks`: the code, the message and the count, or how the call ends otherwise.
pub data RunningTasks : Type 0 where
  counted : ℤ → Text → Option ℕ → RunningTasks
  tasks_escape : RunningTasks
  tasks_blocked : RunningTasks

abbrev pub running_answer : (StatusCode → Text) → Rpc RunningReply → RunningTasks
running_answer error_text (returned r) = counted r.code r.msg (some r.count)
running_answer error_text (raised code) =
    counted (pos status_code_prover_not_response) (error_text code) none
running_answer error_text exception = tasks_escape
running_answer error_text waiting = tasks_blocked
running_answer error_text out_of_fuel = tasks_blocked

abbrev pub get_running_prove_tasks :
    (StatusCode → Text) → (ℕ → Call RunningReply) → Pool → Pool × RunningTasks
get_running_prove_tasks error_text calls p =
    let o : Outcome RunningReply = rpc base_backoff_ms max_retries calls p in
    (o.pool, running_answer error_text o.result)
