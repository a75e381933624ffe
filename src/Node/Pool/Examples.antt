-- ===== src/Node/Pool/Examples.antt =====
-- The connection pool on small inputs.
use prover.Prelude.{◌≡◌, refl, true, false, [], ◌∷◌}
use prover.Node.Pool.{Pool, waits, acquire, resume, close, init}
use prover.Node.Pool.Exclusive.{
  System, Reach, here, next, acquires, blocks, start, IsExclusive, Reach-IsExclusive,
}
use prover.Node.Pool.Closing.{close_strands}

-- One connection at most: the first task gets it, the second waits.
abbrev one : System
one = start 1 0

abbrev busy_pool : Pool
busy_pool = record { max_connections = 1; queue = []; created = 1; closed = false; waiting = 0 }

abbrev waiting_pool : Pool
waiting_pool = record busy_pool { waiting = 1 }

abbrev waiting_system : System
waiting_system = record { pool = waiting_pool; held = 0 ∷ []; shut = [] }

second_waits : Reach one waiting_system
unfolding init acquire
second_waits =
    next (next here (acquires one 0 busy_pool refl))
      (blocks (record { pool = busy_pool; held = 0 ∷ []; shut = [] }) waiting_pool refl)

Reach-IsExclusive_example : IsExclusive waiting_system
Reach-IsExclusive_example = Reach-IsExclusive 1 0 second_waits

close_strands_example :
    (waiting_system.pool.waiting ≡ waiting_system.pool.waiting)
    × ((resume (record waiting_pool { closed = true })).0 ≡ waits)
unfolding close
close_strands_example =
    close_strands waiting_system
      (record { pool = record waiting_pool { closed = true }; held = 0 ∷ []; shut = [] })
      (record waiting_pool { closed = true }) [] refl here
