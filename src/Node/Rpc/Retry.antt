-- ===== src/Node/Rpc/Retry.antt =====
-- What the retries of `_rpc` come to.
use prover.Prelude.{
  ℕ, zero, suc, ◌+◌, ◌≤◌, ◌<◌, ◌≡◌, ◌⊎◌, refl, true, false, ◌&&◌, List, [], ◌∷◌, ◌++◌, leb, arith,
  length, length-append, All, Bool-cases, inl, inr, is_empty, ap,
}
use prover.Node.Pool.{Pool, Acquired, channel, pool_is_closed, waits, acquire, release}
use prover.Node.Rpc.{
  StatusCode, Call, response, rpc_error, other_error, Rpc, returned, raised, exception,
  is_transient, Outcome, after_call, attempts, rpc,
}

-- A pool that hands out a channel at once.
pub record IsReady (p : Pool) : Type 0 where
  pub is_open : p.closed ≡ false
  pub has_room : (is_empty p.queue ≡ false) ⊎ (p.created < p.max_connections)

-- As many channels are out of the pool after as before.
abbrev pub IsBalanced : Pool → Pool → Type 0
IsBalanced p q = length q.queue + p.created ≡ length p.queue + q.created

le→leb : (a b : ℕ) → a ≤ b → leb a b ≡ true
le→leb a b h = ground arith

-- The channel that a ready pool gives.
pub next_channel : List ℕ → ℕ → ℕ
next_channel [] created = created
next_channel (c ∷ rest) created = c

is_empty-append : (xs : List ℕ) (c : ℕ) → is_empty (xs ++ c ∷ []) ≡ false
is_empty-append [] c = refl
is_empty-append (x ∷ xs) c = refl

-- A ready pool gives a channel, and is ready again once it is put back.
pub acquire-IsReady :
    (p : Pool)
    → IsReady p
    → ((acquire p).0 ≡ channel (next_channel p.queue p.created))
      × IsReady (release (next_channel p.queue p.created) (acquire p).1).0
      × IsBalanced p (release (next_channel p.queue p.created) (acquire p).1).0
unfolding acquire release next_channel
acquire-IsReady p h = (
  ground arith,
  record {
    is_open = ground arith;
    has_room =
        inl (ground (arith, is_empty-append (acquire p).1.queue (next_channel p.queue p.created)));
  },
  ground (arith, length-append (acquire p).1.queue (next_channel p.queue p.created ∷ [])),
)

pub Acquired-cases :
    (a : Acquired) → (a ≡ pool_is_closed) ⊎ (a ≡ waits) ⊎ ((c : ℕ) × (a ≡ channel c))
Acquired-cases pool_is_closed = inl refl
Acquired-cases waits = inr (inl refl)
Acquired-cases (channel c) = inr (inr (c, refl))

module _ {ℓ} {A : Type ℓ} (base retries : ℕ) (calls : ℕ → Call A) where
  -- The response or the exception of one of the calls.
  pub data IsEnd : Rpc A → Type ℓ where
    responds : (attempt : ℕ) (r : A) → calls attempt ≡ response r → IsEnd (returned r)
    fails : (attempt : ℕ) (code : StatusCode) → calls attempt ≡ rpc_error code → IsEnd (raised code)
    escapes : (attempt : ℕ) → calls attempt ≡ other_error → IsEnd exception

  abbrev IsBounded : ℕ → Outcome A → Type ℓ
  IsBounded fuel o = IsEnd o.result × (length o.pauses < fuel) × All (λ t. t ≤ 2000) o.pauses

  attempts-channel :
      (fuel attempt c : ℕ) (p : Pool)
      → (acquire p).0 ≡ channel c
      → attempts base retries calls (suc fuel) attempt p
        ≡ after_call base retries attempt
            (calls attempt)
            (release c (acquire p).1).0
            (attempts base retries calls fuel (suc attempt) (release c (acquire p).1).0)
  unfolding attempts
  attempts-channel fuel attempt c p e = rw (e, attempts)

  after_call-bounds :
      (attempt fuel : ℕ) (call : Call A) (p : Pool) (rest : Outcome A)
      → calls attempt ≡ call
      → (attempt ≤ retries → IsBounded fuel rest)
      → IsBounded (suc fuel) (after_call base retries attempt call p rest)
  unfolding after_call
  after_call-bounds attempt fuel (response r) p rest q h = (responds attempt r q, omega arith, tt)
  after_call-bounds attempt fuel other_error p rest q h = (escapes attempt q, omega arith, tt)
  after_call-bounds attempt fuel (rpc_error code) p rest q h =
      elim (Bool-cases (leb attempt retries && is_transient code)) [
        | inr e ↦ rw e (fails attempt code q, omega arith, tt)
        | inl e ↦ let (b, l, a) = h (ground arith) in rw e (b, omega arith, (omega arith, a))
      ]

  -- The pauses number at most the retries that are left, and none is longer than two seconds; the
  -- fuel does not run out.
  attempts-bounds :
      (fuel attempt : ℕ) (p : Pool)
      → IsReady p
      → attempt + fuel ≡ 2 + retries
      → 0 < fuel
      → IsBounded fuel (attempts base retries calls fuel attempt p)
  attempts-bounds zero attempt p r h k = absurd (omega arith)
  attempts-bounds (suc fuel) attempt p r h k =
      let (e, ready, balanced) = acquire-IsReady p r in
      let c = next_channel p.queue p.created in
      rw (attempts-channel fuel attempt c p e) (
        after_call-bounds attempt fuel (calls attempt) (release c (acquire p).1).0
          (attempts base retries calls fuel (suc attempt) (release c (acquire p).1).0) refl
          (λ le.
            attempts-bounds fuel (suc attempt) (release c (acquire p).1).0 ready (omega arith)
              (omega arith)))

  -- On a pool with a channel to give, `_rpc` ends, whatever the calls come to: with the response or
  -- the exception of one of its calls. It pauses at most as often as it may retry, and never longer
  -- than two seconds at a time.
  pub rpc-bounds :
      (p : Pool)
      → IsReady p
      → IsEnd (rpc base retries calls p).result
        × (length (rpc base retries calls p).pauses ≤ retries)
        × All (λ t. t ≤ 2000) (rpc base retries calls p).pauses
  unfolding rpc
  rpc-bounds p r =
      let (a, b, c) = attempts-bounds (suc retries) 1 p r (omega arith) (omega arith) in
      (a, omega arith, c)

  -- From this attempt on, so many calls fail with transient errors, and the next one responds.
  abbrev pub Succeeds : ℕ → ℕ → A → Type ℓ
  Succeeds zero attempt r = calls attempt ≡ response r
  Succeeds (suc n) attempt r =
      ((code : StatusCode) × (calls attempt ≡ rpc_error code) × (is_transient code ≡ true))
      × Succeeds n (suc attempt) r

  -- The answer with as many pauses as there were errors, and no channel lost.
  pub record IsSuccess (n : ℕ) (r : A) (p : Pool) (o : Outcome A) : Type ℓ where
    pub answer : o.result ≡ returned r
    pub paused : length o.pauses ≡ n
    pub ready : IsReady o.pool
    pub balanced : IsBalanced p o.pool

  attempts-IsSuccess :
      (n fuel attempt : ℕ) (p : Pool) (r : A)
      → IsReady p
      → n < fuel
      → attempt + fuel ≡ 2 + retries
      → Succeeds n attempt r
      → IsSuccess n r p (attempts base retries calls fuel attempt p)
  unfolding after_call
  attempts-IsSuccess n zero attempt p r h k q s = absurd (omega arith)
  attempts-IsSuccess zero (suc fuel) attempt p r h k q s =
      let (e, ready, balanced) = acquire-IsReady p h in
      rw (attempts-channel fuel attempt (next_channel p.queue p.created) p e, s)
        (record { answer = refl; paused = refl; ready = ready; balanced = balanced })
  attempts-IsSuccess (suc n) (suc fuel) attempt p r h k q ((code, failed, transient), s) =
      let (e, ready, balanced) = acquire-IsReady p h in
      let rest =
        attempts-IsSuccess n fuel (suc attempt)
          (release (next_channel p.queue p.created) (acquire p).1).0 r ready (omega arith)
          (omega arith) s in
      rw
        (
          attempts-channel fuel attempt (next_channel p.queue p.created) p e,
          failed,
          transient,
          le→leb attempt retries (omega arith),
        )
        (record {
          answer = rest.answer;
          paused = ap suc rest.paused;
          ready = rest.ready;
          balanced = omega (arith, rest.balanced);
        })

  -- On a pool with a channel to give, transient errors up to the number of retries do no harm: the
  -- first response after them is the answer, with a pause for each error, and the pool is ready
  -- again with as many channels out as before.
  pub rpc-IsSuccess :
      (n : ℕ) (p : Pool) (r : A)
      → IsReady p
      → n ≤ retries
      → Succeeds n 1 r
      → IsSuccess n r p (rpc base retries calls p)
  unfolding rpc
  rpc-IsSuccess n p r h k s =
      attempts-IsSuccess n (suc retries) 1 p r h (omega arith) (omega arith) s
