-- ===== src/Node/Rpc.antt =====
-- `CircomProver._rpc` of prover/node/src/modules/prover/circom/main.py, and `PrivateProver._rpc`,
-- which is the same: one call with a channel of the pool, repeated after transient errors.
pub mod Retry
mod Examples
use prover.Prelude.{
  ℕ, zero, suc, ◌+◌, ◌-◌, ◌*◌, ◌^◌, Bool, true, false, ◌&&◌, Option, none, some, List, [], ◌∷◌, leb,
  if◌then◌else◌, min,
}
use prover.Node.Pool.{Pool, Acquired, channel, pool_is_closed, waits, acquire, release}

-- `grpc.StatusCode`
pub data StatusCode : Type 0 where
  unavailable deadline_exceeded internal cancelled unknown invalid_argument not_found : StatusCode
  already_exists permission_denied resource_exhausted failed_precondition aborted : StatusCode
  out_of_range unimplemented data_loss unauthenticated : StatusCode

-- How one awaited call ends: a response, an `AioRpcError` with its code, or any other exception, a
-- cancellation among them.
pub data Call {ℓ} (A : Type ℓ) : Type ℓ where
  response : A → Call A
  rpc_error : StatusCode → Call A
  other_error : Call A

-- How `_rpc` ends: with a response, an `AioRpcError`, or another exception, which is that of the call
-- or the `RuntimeError` of a closed pool; or not at all while it waits for a channel.
pub data Rpc {ℓ} (A : Type ℓ) : Type ℓ where
  returned : A → Rpc A
  raised : StatusCode → Rpc A
  exception : Rpc A
  waiting : Rpc A
  out_of_fuel : Rpc A

abbrev pub is_transient : StatusCode → Bool
is_transient unavailable = true
is_transient deadline_exceeded = true
is_transient internal = true
is_transient _ = false

-- The pool, the answer, and the pauses between the attempts, in milliseconds.
pub record Outcome {ℓ} (A : Type ℓ) : Type ℓ where
  pub pool : Pool
  pub result : Rpc A
  pub pauses : List ℕ

-- `min((base_backoff_ms / 1000) * 2 ** (attempt - 1), 2.0)`, in milliseconds.
abbrev pub backoff : ℕ → ℕ → ℕ
backoff base attempt = min (base * 2 ^ (attempt - 1)) 2000

module _ {ℓ} {A : Type ℓ} where
  -- After a call: the answer, or a pause and the rest of the loop.
  unfoldable pub after_call : ℕ → ℕ → ℕ → Call A → Pool → Outcome A → Outcome A
  after_call base retries attempt (response r) p rest = record {
    pool = p;
    result = returned r;
    pauses = [];
  }
  after_call base retries attempt (rpc_error code) p rest =
      if leb attempt retries && is_transient code
      then record rest { pauses = backoff base attempt ∷ rest.pauses }
      else record { pool = p; result = raised code; pauses = [] }
  after_call base retries attempt other_error p rest = record {
    pool = p;
    result = exception;
    pauses = [];
  }

  -- The rounds of the loop; `calls k` is how the k-th call ends. Each goes on only while
  -- `attempt <= retries`, and the fuel is the number of rounds that are left.
  unfoldable pub attempts : ℕ → ℕ → (ℕ → Call A) → ℕ → ℕ → Pool → Outcome A
  unfolding after_call
  attempts base retries calls zero attempt p = record {
    pool = p;
    result = out_of_fuel;
    pauses = [];
  }
  attempts base retries calls (suc fuel) attempt p =
      let (got, p') = acquire p in
      elim got [
        | pool_is_closed ↦ record { pool = p'; result = exception; pauses = [] }
        | waits ↦ record { pool = p'; result = waiting; pauses = [] }
        | channel c ↦
            let p'' = (release c p').0 in
            after_call base retries attempt (calls attempt) p''
              (attempts base retries calls fuel (suc attempt) p'')
      ]

  -- `_rpc`: the first attempt has the number one, and there are at most `retries + 1`.
  unfoldable pub rpc : ℕ → ℕ → (ℕ → Call A) → Pool → Outcome A
  unfolding attempts
  rpc base retries calls p = attempts base retries calls (suc retries) 1 p
