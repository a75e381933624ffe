-- ===== src/Node/ProofManager/Claims.antt =====
-- `claim_task` of proof_manager/main.py as the gate that gives each task to one request.
use prover.Prelude.{
  ℕ, suc, ◌+◌, ◌-◌, ◌≤◌, ◌≡◌, ◌≢◌, refl, Option, none, some, List, [], ◌∷◌, ite, arith, Text,
  text_discrete, if◌then◌else◌, ◌==◌, ◌∙◌, subst, Bool-cases, inl, inr, sym,
}
use native.Mathlib.Nat.{le_refl}
use prover.Dict.{Dict}
use prover.Node.Status.{passed, task_status_pending, task_status_running}
use prover.Node.ProofManager.{
  Entry, Manager, get, set, save_cache, clean_expired, claim_status, claim_task, default_ttl,
}
use prover.Node.ProofManager.View.{
  live, IsValid, get-live, live-get, live-set, live-save_cache, live-clean_expired,
}
use prover.Node.ProofManager.Trace.{
  Event, getting, setting, saving, cleaning, claiming, Reply, claim, State, starts, ends, IsOrdered,
  step, run, step-IsValid,
}

-- Whether a call is a claim of the key that was granted.
abbrev pub grant : Text → Event → Reply → ℕ
grant key (claiming _ _ k) (claim (passed _)) = ite (text_discrete k key) 1 0
grant key _ _ = 0

-- How often the key was granted in a run.
unfoldable pub granted : Text → List Event → List Reply → ℕ
granted key [] rs = 0
granted key (e ∷ es) [] = 0
granted key (e ∷ es) (r ∷ rs) = grant key e r + granted key es rs

-- Whether a call stores the key as pending.
abbrev pub push : Text → Event → ℕ
push key (setting _ k v _) = ite (text_discrete k key) (if v == task_status_pending then 1 else 0) 0
push key _ = 0

unfoldable pub pushes : Text → List Event → ℕ
pushes key [] = 0
pushes key (e ∷ es) = push key e + pushes key es

-- The key is not pending, now or later.
pub IsQuiet : ℕ → Text → Dict Entry → Type 0
IsQuiet now key cache = (t : ℕ) → now ≤ t → live t key cache ≢ some task_status_pending

-- How many more grants the state allows without another push: a number that may be zero only if
-- the key is not pending.
abbrev Allows : ℕ → ℕ → Text → Dict Entry → Type 0
Allows b now key cache = b ≡ 0 → IsQuiet now key cache

IsQuiet-same :
    (now later : ℕ) (key : Text) (c d : Dict Entry)
    → now ≤ later
    → ((t : ℕ) → later ≤ t → live t key d ≡ live t key c)
    → IsQuiet now key c
    → IsQuiet later key d
unfolding IsQuiet
IsQuiet-same now later key c d h same q t p = λ e. q t (omega arith) (sym (same t p) ∙ e)

-- After a write of another key or of another status, the key is as quiet as before.
IsQuiet-set :
    (now : ℕ) (k key : Text) (v : ℕ) (ttl : Option ℕ) (m : Manager)
    → (k ≡ key → v ≢ task_status_pending)
    → (k ≢ key → IsQuiet now key m.cache)
    → IsQuiet now key (set now k v ttl m).cache
unfolding IsQuiet
IsQuiet-set now k key v ttl m h q t p = λ e. elim (text_discrete key k) [
  | yes same ↦ ground (arith, live-set now t k key v ttl m, h (sym same))
  | no other ↦ ground (arith, live-set now t k key v ttl m, q (λ x. other (sym x)) t p)
]

not_pending :
    (now : ℕ) (key : Text) (cache : Dict Entry)
    → IsQuiet now key cache
    → live now key cache ≢ some task_status_pending
unfolding IsQuiet
not_pending now key cache q = q now (omega arith)

claim_status-Allows :
    (now later : ℕ) (k key : Text) (m : Manager) (o : Option ℕ) (b : ℕ)
    → (k ≡ key → o ≡ some task_status_pending → b ≢ 0)
    → Allows b later key m.cache
    → (b' : ℕ) × (grant key (claiming now later k) (claim (claim_status later k m o).1) + b' ≤ b)
      × Allows b' later key (claim_status later k m o).0.cache
unfolding claim_status
claim_status-Allows now later k key m none b h a = (b, omega arith, a)
claim_status-Allows now later k key m (some status) b h a =
    elim (Bool-cases (status == task_status_pending)) [
      | inl e ↦ elim (text_discrete k key) [
        | yes same ↦ (
          b - 1,
          rw e (ground (arith, h same)),
          rw e (λ _.
              IsQuiet-set later k key task_status_running default_ttl m (λ _. omega arith)
                (λ x. absurd (x same))),
        )
        | no other ↦ (
          b,
          rw e (ground arith),
          rw e (λ z.
              IsQuiet-set later k key task_status_running default_ttl m (λ x. absurd (other x))
                (λ _. a z)),
        )
      ]
      | inr e ↦ (b, rw e (omega arith), rw e a)
    ]

step-Allows :
    (e : Event) {now : ℕ} (s : State) (key : Text) (b : ℕ)
    → IsValid s.manager
    → now ≤ starts e
    → starts e ≤ ends e
    → Allows b now key s.manager.cache
    → (b' : ℕ) × (grant key e (step e s).1 + b' ≤ b + push key e)
      × Allows b' (ends e) key (step e s).0.manager.cache
unfolding step claim_task
step-Allows (getting now k) {now = before} s key b u p q a = (
  b,
  omega arith,
  λ z.
      IsQuiet-same before now key s.manager.cache (get now k s.manager).0.cache p
        (λ t h. live-get now t k key s.manager u h) (a z),
)
step-Allows (setting now k v ttl) {now = before} s key b u p q a = elim (text_discrete k key) [
  | yes same ↦ elim (Bool-cases (v == task_status_pending)) [
    | inl e ↦ (suc b, ground arith, λ z. absurd (omega arith))
    | inr e ↦ (
      b,
      ground arith,
      λ z. IsQuiet-set now k key v ttl s.manager (λ _. ground arith) (λ x. absurd (x same)),
    )
  ]
  | no other ↦ (
    b,
    ground arith,
    λ z.
        IsQuiet-set now k key v ttl s.manager (λ x. absurd (other x))
          (λ _. IsQuiet-same before now key s.manager.cache s.manager.cache p (λ t h. refl) (a z)),
  )
]
step-Allows (saving now out) {now = before} s key b u p q a = (
  b,
  omega arith,
  λ z.
      IsQuiet-same before now key s.manager.cache (save_cache now out s.manager s.file).0.cache p
        (λ t h. live-save_cache now t out key s.manager s.file u h) (a z),
)
step-Allows (cleaning now later out) {now = before} s key b u p q a = (
  b,
  omega arith,
  λ z.
      IsQuiet-same before later key s.manager.cache
        (clean_expired now later out s.manager s.file).0.cache (omega arith)
        (λ t h. live-clean_expired now later t out key s.manager s.file u q h) (a z),
)
step-Allows (claiming now later k) {now = before} s key b u p q a =
    let (b', n, a') =
      claim_status-Allows now later k key (get now k s.manager).0 (get now k s.manager).1 b
        (λ same asked z.
          not_pending now key s.manager.cache
            (IsQuiet-same before now key s.manager.cache s.manager.cache p (λ t h. refl) (a z))
            (subst (λ x. live now x s.manager.cache ≡ some task_status_pending) same
              (sym (get-live now k s.manager) ∙ asked)))
        (λ z.
          IsQuiet-same before later key s.manager.cache (get now k s.manager).0.cache (omega arith)
            (λ t h. live-get now t k key s.manager u (omega arith)) (a z)) in
    (b', omega arith, a')

granted-le :
    (es : List Event) (now : ℕ) (s : State) (key : Text) (b : ℕ)
    → IsValid s.manager
    → IsOrdered now es
    → Allows b now key s.manager.cache
    → granted key es (run es s).1 ≤ b + pushes key es
unfolding run granted pushes
granted-le [] now s key b u h a = omega arith
granted-le (e ∷ es) now s key b u (p, q, r) a =
    let (b', n, a') = step-Allows e s key b u p q a in
    let rest = granted-le es (ends e) (step e s).0 key b' (step-IsValid e s u) r a' in omega arith

-- In any run from a valid cache, with a clock that does not run backwards, a key is granted at most
-- once more than it was pushed as pending in that run.
pub granted-le-pushes :
    (es : List Event) (now : ℕ) (s : State) (key : Text)
    → IsValid s.manager
    → IsOrdered now es
    → granted key es (run es s).1 ≤ 1 + pushes key es
granted-le-pushes es now s key u h = granted-le es now s key 1 u h (λ z. absurd (omega arith))

-- Once a claim of a key has been granted by a valid cache, no call grants it again before it is
-- pushed again, whatever other calls, cleanings and saves come between, with a clock that does not
-- run backwards.
pub granted_once :
    (es : List Event) (now later : ℕ) (s : State) (key : Text)
    → IsValid s.manager
    → now ≤ later
    → IsOrdered later es
    → grant key (claiming now later key) (step (claiming now later key) s).1 ≡ 1
    → pushes key es ≡ 0
    → granted key es (run es (step (claiming now later key) s).0).1 ≡ 0
granted_once es now later s key u p h g none_pushed =
    let (b', n, a') =
      step-Allows (claiming now later key) s key 1 u (le_refl now) p (λ z. absurd (omega arith)) in
    let rest =
      granted-le es later (step (claiming now later key) s).0 key b'
        (step-IsValid (claiming now later key) s u) h a' in
    omega arith
