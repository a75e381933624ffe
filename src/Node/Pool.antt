-- ===== src/Node/Pool.antt =====
-- `ConnectionPool` of prover/node/src/modules/prover/circom/main.py; those of
-- prover/node/src/modules/prover/gnark/main.py and …/private/main.py are the same but for names.
-- A channel is the number of its creation.
pub mod Exclusive
pub mod Closing
mod Examples
use prover.Prelude.{
  ℕ, suc, ◌+◌, ◌-◌, Bool, true, false, Option, none, some, List, [], ◌∷◌, ◌++◌, ltb, if◌then◌else◌,
  min,
}

-- The pool, with the number of tasks that wait in `await self._pool.get()`.
pub record Pool : Type 0 where
  pub max_connections : ℕ
  pub queue : List ℕ
  pub created : ℕ
  pub closed : Bool
  pub waiting : ℕ

-- `_new_channel_and_stub`: the channel's number, and the pool that has counted it.
unfoldable pub new_channel : Pool → ℕ × Pool
new_channel p = (p.created, record p { created = suc p.created })

-- `for _ in range(n): self._pool.put_nowait(self._new_channel_and_stub())`
unfoldable pub warm_up : ℕ → Pool → Pool
unfolding new_channel
warm_up ℕ.zero p = p
warm_up (ℕ.suc n) p =
    let (c, p') = new_channel p in warm_up n (record p' { queue = p'.queue ++ c ∷ [] })

-- `__init__`; the sizes are not negative.
unfoldable pub init : ℕ → ℕ → Pool
unfolding warm_up
init max_connections initial_size = warm_up (min initial_size max_connections) (record {
  max_connections = max_connections;
  queue = [];
  created = 0;
  closed = false;
  waiting = 0;
})

-- How `acquire` goes on: it returns a channel, raises `RuntimeError`, or waits for a release.
pub data Acquired : Type 0 where
  channel : ℕ → Acquired
  pool_is_closed : Acquired
  waits : Acquired

-- `acquire` once the pool is known to be open.
unfoldable pub take_or_create : List ℕ → Pool → Acquired × Pool
unfolding new_channel
take_or_create [] p =
    if ltb p.created p.max_connections
    then (let (c, p') = new_channel p in (channel c, p'))
    else (waits, record p { waiting = suc p.waiting })
take_or_create (c ∷ rest) p = (channel c, record p { queue = rest })

unfoldable pub acquire : Pool → Acquired × Pool
unfolding take_or_create
acquire p = if p.closed then (pool_is_closed, p) else take_or_create p.queue p

-- A task that waits in `get` runs again: it takes a channel if one is there, and waits on if not.
unfoldable pub resume : Pool → Acquired × Pool
resume p = elim p.queue [
  | [] ↦ (waits, p)
  | c ∷ rest ↦ (channel c, record p { queue = rest; waiting = p.waiting - 1 })
]

-- `release`: the pool, and whether the channel was closed instead of put back.
unfoldable pub release : ℕ → Pool → Pool × Bool
release c p = if p.closed then (p, true) else (record p { queue = p.queue ++ c ∷ [] }, false)

-- `close`: the pool, and the channels that it closes.
unfoldable pub close : Pool → Pool × List ℕ
close p = (record p { closed = true; queue = [] }, p.queue)
