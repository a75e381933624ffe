-- ===== src/Node/Pool/Exclusive.antt =====
-- No channel of the pool serves two tasks: any interleaving of `acquire`, `release` and `close`.
use prover.Prelude.{
  ℕ, suc, ◌+◌, ◌≤◌, ◌<◌, ◌≡◌, true, false, List, [], ◌∷◌, ◌++◌, ltb, ◌==◌, if◌then◌else◌, arith,
  min,
}
use prover.Node.Pool.{Pool, channel, waits, warm_up, init, acquire, resume, release, close}

-- How often a channel occurs among others.
abbrev pub copies : List ℕ → ℕ → ℕ
copies [] c = 0
copies (d ∷ ds) c = copies ds c + (if c == d then 1 else 0)

abbrev pub remove : ℕ → List ℕ → List ℕ
remove a [] = []
remove a (x ∷ xs) = if a == x then xs else x ∷ remove a xs

copies-append : (c : ℕ) (ds es : List ℕ) → copies (ds ++ es) c ≡ copies es c + copies ds c
copies-append c [] es = omega arith
copies-append c (d ∷ ds) es = ground (arith, copies-append c ds es)

-- The pool, the channels that tasks hold, and those that were closed.
pub record System : Type 0 where
  pub pool : Pool
  pub held : List ℕ
  pub shut : List ℕ

-- What the tasks can do. A task releases a channel that it holds, as `_acquire_stub` does.
pub data Step : System → System → Type 0 where
  acquires :
      (s : System) (c : ℕ) (p : Pool)
      → acquire s.pool ≡ (channel c, p)
      → Step s (record s { pool = p; held = c ∷ s.held })
  blocks : (s : System) (p : Pool) → acquire s.pool ≡ (waits, p) → Step s (record s { pool = p })
  resumes :
      (s : System) (c : ℕ) (p : Pool)
      → 0 < s.pool.waiting
      → resume s.pool ≡ (channel c, p)
      → Step s (record s { pool = p; held = c ∷ s.held })
  releases :
      (s : System) (c : ℕ) (p : Pool)
      → 0 < copies s.held c
      → release c s.pool ≡ (p, false)
      → Step s (record s { pool = p; held = remove c s.held })
  shuts :
      (s : System) (c : ℕ) (p : Pool)
      → 0 < copies s.held c
      → release c s.pool ≡ (p, true)
      → Step s (record { pool = p; held = remove c s.held; shut = c ∷ s.shut })
  closes :
      (s : System) (p : Pool) (cs : List ℕ)
      → close s.pool ≡ (p, cs)
      → Step s (record s { pool = p; shut = cs ++ s.shut })

pub data Reach (s : System) : System → Type 0 where
  here : Reach s s
  next : {t u : System} → Reach s t → Step t u → Reach s u

-- A channel that was created is in one place, and there once: in the queue, held, or closed; the
-- pool has created no more than it may.
pub record IsExclusive (s : System) : Type 0 where
  pub placed :
      (c : ℕ)
      → copies s.pool.queue c + copies s.held c + copies s.shut c
        ≡ (if ltb c s.pool.created then 1 else 0)
  pub bounded : s.pool.created ≤ s.pool.max_connections

copies-remove :
    (a c : ℕ) (xs : List ℕ)
    → 0 < copies xs c
    → copies (remove c xs) a + (if a == c then 1 else 0) ≡ copies xs a
copies-remove a c [] h = absurd (omega arith)
copies-remove a c (x ∷ xs) h = ground (arith, copies-remove a c xs)

acquire-IsExclusive :
    (s : System) (c : ℕ) (p : Pool)
    → acquire s.pool ≡ (channel c, p)
    → IsExclusive s
    → IsExclusive (record s { pool = p; held = c ∷ s.held })
unfolding acquire
acquire-IsExclusive s c p e x = record {
  placed = λ a. ground (arith, x.placed a);
  bounded = ground arith;
}

blocks-IsExclusive :
    (s : System) (p : Pool)
    → acquire s.pool ≡ (waits, p)
    → IsExclusive s
    → IsExclusive (record s { pool = p })
unfolding acquire
blocks-IsExclusive s p e x = record {
  placed = λ a. ground (arith, x.placed a);
  bounded = ground arith;
}

resume-IsExclusive :
    (s : System) (c : ℕ) (p : Pool)
    → resume s.pool ≡ (channel c, p)
    → IsExclusive s
    → IsExclusive (record s { pool = p; held = c ∷ s.held })
unfolding resume
resume-IsExclusive s c p e x = record {
  placed = λ a. ground (arith, x.placed a);
  bounded = ground arith;
}

releases-IsExclusive :
    (s : System) (c : ℕ) (p : Pool)
    → 0 < copies s.held c
    → release c s.pool ≡ (p, false)
    → IsExclusive s
    → IsExclusive (record s { pool = p; held = remove c s.held })
unfolding release
releases-IsExclusive s c p h e x = record {
  placed = λ a.
      ground (arith, x.placed a, copies-remove a c s.held h, copies-append a s.pool.queue (c ∷ []));
  bounded = ground arith;
}

shuts-IsExclusive :
    (s : System) (c : ℕ) (p : Pool)
    → 0 < copies s.held c
    → release c s.pool ≡ (p, true)
    → IsExclusive s
    → IsExclusive (record { pool = p; held = remove c s.held; shut = c ∷ s.shut })
unfolding release
shuts-IsExclusive s c p h e x = record {
  placed = λ a. ground (arith, x.placed a, copies-remove a c s.held h);
  bounded = ground arith;
}

closes-IsExclusive :
    (s : System) (p : Pool) (cs : List ℕ)
    → close s.pool ≡ (p, cs)
    → IsExclusive s
    → IsExclusive (record s { pool = p; shut = cs ++ s.shut })
unfolding close
closes-IsExclusive s p cs e x = record {
  placed = λ a. ground (arith, x.placed a, copies-append a cs s.shut);
  bounded = ground arith;
}

Step-IsExclusive : {s t : System} → Step s t → IsExclusive s → IsExclusive t
Step-IsExclusive (acquires s c p e) x = acquire-IsExclusive s c p e x
Step-IsExclusive (blocks s p e) x = blocks-IsExclusive s p e x
Step-IsExclusive (resumes s c p h e) x = resume-IsExclusive s c p e x
Step-IsExclusive (releases s c p h e) x = releases-IsExclusive s c p h e x
Step-IsExclusive (shuts s c p h e) x = shuts-IsExclusive s c p h e x
Step-IsExclusive (closes s p cs e) x = closes-IsExclusive s p cs e x

Reach-keeps : {s t : System} → Reach s t → IsExclusive s → IsExclusive t
Reach-keeps here x = x
Reach-keeps (next r st) x = Step-IsExclusive st (Reach-keeps r x)

abbrev pub start : ℕ → ℕ → System
start max_connections initial_size = record {
  pool = init max_connections initial_size;
  held = [];
  shut = [];
}

warm_up-IsExclusive :
    (n : ℕ) (p : Pool)
    → p.created + n ≤ p.max_connections
    → IsExclusive (record { pool = p; held = []; shut = [] })
    → IsExclusive (record { pool = warm_up n p; held = []; shut = [] })
unfolding warm_up
warm_up-IsExclusive ℕ.zero p h x = x
warm_up-IsExclusive (ℕ.suc n) p h x =
    warm_up-IsExclusive n (record p { created = suc p.created; queue = p.queue ++ p.created ∷ [] })
      (omega arith)
      (record {
        placed = λ a. ground (arith, x.placed a, copies-append a p.queue (p.created ∷ []));
        bounded = omega arith;
      })

start-IsExclusive :
    (max_connections initial_size : ℕ) → IsExclusive (start max_connections initial_size)
unfolding init
start-IsExclusive max_connections initial_size =
    warm_up-IsExclusive (min initial_size max_connections) _ (omega arith)
      (record { placed = λ a. ground arith; bounded = omega arith })

-- However the tasks interleave, every channel that the pool has created is in its queue, or held by
-- one task, or closed, and it is in only one of these and once; and no more than `max_connections`
-- have been created.
pub Reach-IsExclusive :
    (max_connections initial_size : ℕ) {t : System}
    → Reach (start max_connections initial_size) t
    → IsExclusive t
Reach-IsExclusive m n r = Reach-keeps r (start-IsExclusive m n)
