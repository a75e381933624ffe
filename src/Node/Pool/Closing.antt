-- ===== src/Node/Pool/Closing.antt =====
-- `close` of the connection pool, and the tasks that wait for a channel.
use prover.Prelude.{ℕ, ◌≡◌, true, List, [], ◌++◌, arith}
use prover.Node.Pool.{Pool, waits, acquire, resume, release, close}
use prover.Node.Pool.Exclusive.{
  System, Step, acquires, blocks, resumes, releases, shuts, closes, Reach, here, next,
}

-- What a closed pool is and stays: its queue is empty.
pub record IsShut (waiters : ℕ) (s : System) : Type 0 where
  pub is_closed : s.pool.closed ≡ true
  pub is_drained : s.pool.queue ≡ []
  pub waiters_left : s.pool.waiting ≡ waiters

Step-IsShut : {s t : System} {waiters : ℕ} → Step s t → IsShut waiters s → IsShut waiters t
unfolding acquire resume release close
Step-IsShut (acquires s c p e) x = ground arith
Step-IsShut (blocks s p e) x = ground arith
Step-IsShut (resumes s c p h e) x = ground arith
Step-IsShut (releases s c p h e) x = ground arith
Step-IsShut (shuts s c p h e) x = ground arith
Step-IsShut (closes s p cs e) x = ground arith

Reach-IsShut : {s t : System} {waiters : ℕ} → Reach s t → IsShut waiters s → IsShut waiters t
Reach-IsShut here x = x
Reach-IsShut (next r st) x = Step-IsShut st (Reach-IsShut r x)

close-IsShut :
    (s : System) (p : Pool) (cs : List ℕ)
    → close s.pool ≡ (p, cs)
    → IsShut s.pool.waiting (record s { pool = p; shut = cs ++ s.shut })
unfolding close
close-IsShut s p cs e = ground arith

drained :
    {waiters : ℕ} (t : System)
    → IsShut waiters t
    → (t.pool.waiting ≡ waiters) × ((resume t.pool).0 ≡ waits)
unfolding resume
drained t x = ground arith

-- A task that waits for a channel when the pool is closed waits for ever: from then on the number
-- of waiting tasks does not change, and none of them finds a channel.
pub close_strands :
    (s t : System) (p : Pool) (cs : List ℕ)
    → close s.pool ≡ (p, cs)
    → Reach (record s { pool = p; shut = cs ++ s.shut }) t
    → (t.pool.waiting ≡ s.pool.waiting) × ((resume t.pool).0 ≡ waits)
close_strands s t p cs e r = drained t (Reach-IsShut r (close-IsShut s p cs e))
