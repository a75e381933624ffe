-- ===== src/Node/Circom.antt =====
-- The calls that `CircomProver` of prover/node/src/modules/prover/circom/main.py makes for the first
-- version of the service, each through `_rpc`. A proof is a text, or the bytes of one.
use prover.Prelude.{ℕ, Bool, true, false, Option, none, some, Text}
use prover.Prelude.Int.{ℤ, pos}
use prover.Node.Status.{status_code_prover_not_response}
use prover.Node.Pool.{Pool}
use prover.Node.Rpc.{
  StatusCode, Call, Rpc, returned, raised, exception, waiting, out_of_fuel, Outcome, rpc,
}

-- The remote procedures that are called.
pub data Procedure : Type 0 where
  rpc_prove rpc_nosha256 rpc_nosha256_with_witness rpc_nosha256_offchain : Procedure

pub record ProveRequest : Type 0 where
  pub procedure : Procedure
  pub input : Text
  pub temp : Text
  pub length : Option ℕ

-- A response; a field that a procedure's response has not is empty.
pub record Reply : Type 0 where
  pub code : ℤ
  pub msg : Text
  pub proof : Text
  pub witness : Text

-- `CircomResultV1`
pub record CircomResult : Type 0 where
  pub code : ℤ
  pub msg : Text
  pub proof : Option Text
  pub witness : Option Text

-- How a call ends: with a result, by an exception other than an `AioRpcError`, or not at all.
pub data Answer : Type 0 where
  result : CircomResult → Answer
  call_escapes : Answer
  blocked : Answer

abbrev pub has_witness : Procedure → Bool
has_witness rpc_prove = false
has_witness rpc_nosha256 = false
has_witness rpc_nosha256_with_witness = true
has_witness rpc_nosha256_offchain = true

abbrev pub result_of_reply : Procedure → Reply → CircomResult
result_of_reply procedure r = record {
  code = r.code;
  msg = r.msg;
  proof = some r.proof;
  witness = elim (has_witness procedure) [ true ↦ some r.witness | false ↦ none ];
}

-- The `except` clause; the error's name and details are an argument.
abbrev pub not_responding : Text → CircomResult
not_responding error_text = record {
  code = pos status_code_prover_not_response;
  msg = error_text;
  proof = none;
  witness = none;
}

unfoldable pub answer : (StatusCode → Text) → Procedure → Rpc Reply → Answer
answer error_text procedure (returned r) = result (result_of_reply procedure r)
answer error_text procedure (raised code) = result (not_responding (error_text code))
answer error_text procedure exception = call_escapes
answer error_text procedure waiting = blocked
answer error_text procedure out_of_fuel = blocked

-- The defaults of `_init`.
abbrev pub base_backoff_ms : ℕ
base_backoff_ms = 150

abbrev pub max_retries : ℕ
max_retries = 2

-- `prove` to `prove_nosha256_offchain`, by the procedure of the request.
unfoldable pub call_prover :
    (StatusCode → Text) → (ProveRequest → ℕ → Call Reply) → ProveRequest → Pool → Pool × Answer
unfolding answer
call_prover error_text calls request p =
    let o : Outcome Reply = rpc base_backoff_ms max_retries (calls request) p in
    (o.pool, answer error_text request.procedure o.result)
