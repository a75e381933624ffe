-- ===== src/Node/Rpc/Examples.antt =====
-- A prover that is unavailable once and then answers.
use prover.Prelude.{ℕ, zero, suc, ◌≤◌, refl, inr, false, [], length, All, arith}
use prover.Node.Pool.{Pool}
use prover.Node.Rpc.{Call, response, rpc_error, unavailable, rpc}
use prover.Node.Rpc.Retry.{IsReady, IsEnd, IsSuccess, rpc-bounds, rpc-IsSuccess}

abbrev pool : Pool
pool = record { max_connections = 2; queue = []; created = 1; closed = false; waiting = 0 }

abbrev flaky : ℕ → Call ℕ
flaky zero = rpc_error unavailable
flaky (suc zero) = rpc_error unavailable
flaky (suc (suc n)) = response 7

pool-IsReady : IsReady pool
pool-IsReady = record { is_open = refl; has_room = inr (omega arith) }

rpc-bounds_example :
    IsEnd 200 2 flaky (rpc 200 2 flaky pool).result
    × (length (rpc 200 2 flaky pool).pauses ≤ 2)
    × All (λ t. t ≤ 2000) (rpc 200 2 flaky pool).pauses
rpc-bounds_example = rpc-bounds 200 2 flaky pool pool-IsReady

rpc-IsSuccess_example : IsSuccess 200 2 flaky 1 7 pool (rpc 200 2 flaky pool)
rpc-IsSuccess_example =
    rpc-IsSuccess 200 2 flaky 1 pool 7 pool-IsReady (omega arith) ((unavailable, refl, refl), refl)
