-- ===== src/Node/ProofManager/Trace.antt =====
-- Sequences of calls of one ProofManager, against an ideal memory of everything ever stored.
use prover.Prelude.{
  ℕ, ◌≤◌, ◌≡◌, refl, Option, none, some, List, [], ◌∷◌, ite, arith, Text, codes, text_discrete,
  if◌then◌else◌, ◌==◌, ◌∙◌, ap, ap₂, subst, Bool-cases, inl, inr,
}
use prover.Node.Status.{
  Check, passed, failed, status_code_task_invalid, status_code_task_not_found, task_status_pending,
  task_status_running,
}
use prover.Node.ProofManager.{
  Manager, CacheFile, SaveOutcome, is_live, expiry_of, get, set, save_cache, clean_expired,
  claim_status, claim_task, default_ttl,
}
use prover.Node.ProofManager.View.{
  live, IsValid, get-live, live-get, get-IsValid, live-set, set-IsValid, save_cache-IsValid,
  live-save_cache, clean_expired-IsValid, live-clean_expired,
}

-- A call, with the times at which it reads the clock.
pub data Event : Type 0 where
  getting : ℕ → Text → Event
  setting : ℕ → Text → ℕ → Option ℕ → Event
  saving : ℕ → SaveOutcome → Event
  cleaning : ℕ → ℕ → SaveOutcome → Event
  claiming : ℕ → ℕ → Text → Event

pub data Reply : Type 0 where
  value : Option ℕ → Reply
  claim : Check Text → Reply
  done : Reply

pub record State : Type 0 where
  pub manager : Manager
  pub file : CacheFile

-- The times of an event, first and last.
abbrev pub starts : Event → ℕ
starts (getting now _) = now
starts (setting now _ _ _) = now
starts (saving now _) = now
starts (cleaning now _ _) = now
starts (claiming now _ _) = now

abbrev pub ends : Event → ℕ
ends (getting now _) = now
ends (setting now _ _ _) = now
ends (saving now _) = now
ends (cleaning _ later _) = later
ends (claiming _ later _) = later

-- The clock does not run backwards.
abbrev pub IsOrdered : ℕ → List Event → Type 0
IsOrdered now [] = Unit
IsOrdered now (e ∷ es) = (now ≤ starts e) × (starts e ≤ ends e) × IsOrdered (ends e) es

unfoldable pub step : Event → State → State × Reply
step (getting now key) s = let (m, v) = get now key s.manager in (record s { manager = m }, value v)
step (setting now key v ttl) s = (record s { manager = set now key v ttl s.manager }, done)
step (saving now out) s =
    let (m, f) = save_cache now out s.manager s.file in (record { manager = m; file = f }, done)
step (cleaning now later out) s =
    let (m, f) = clean_expired now later out s.manager s.file in
    (record { manager = m; file = f }, done)
step (claiming now later key) s =
    let (m, c) = claim_task now later key s.manager in (record s { manager = m }, claim c)

unfoldable pub run : List Event → State → State × List Reply
unfolding step
run [] s = (s, [])
run (e ∷ es) s = let (s', r) = step e s in let (s'', rs) = run es s' in (s'', r ∷ rs)

-- The ideal memory: every write ever made, the latest first.
pub record Write : Type 0 where
  pub time : ℕ
  pub key : Text
  pub value : ℕ
  pub ttl : Option ℕ

-- The latest write of a key, while its time to live lasts.
unfoldable pub recall : ℕ → Text → List Write → Option ℕ
recall now key [] = none
recall now key (w ∷ ws) =
    ite (text_discrete key w.key)
      (if is_live now (expiry_of w.time w.ttl) then some w.value else none) (recall now key ws)

unfoldable pub ideal_claim : ℕ → Text → Option ℕ → List Write → List Write × Check Text
ideal_claim later key none ws =
    (ws, failed status_code_task_not_found (codes "Proof hash does not exist"))
ideal_claim later key (some status) ws =
    if status == task_status_pending
    then (
      record { time = later; key = key; value = task_status_running; ttl = default_ttl } ∷ ws,
      passed (codes "Successfully"),
    )
    else (ws, failed status_code_task_invalid (codes "Proof hash is invalid"))

unfoldable pub ideal_step : Event → List Write → List Write × Reply
ideal_step (getting now key) ws = (ws, value (recall now key ws))
ideal_step (setting now key v ttl) ws =
    (record { time = now; key = key; value = v; ttl = ttl } ∷ ws, done)
ideal_step (saving now out) ws = (ws, done)
ideal_step (cleaning now later out) ws = (ws, done)
ideal_step (claiming now later key) ws =
    let (ws', c) = ideal_claim later key (recall now key ws) ws in (ws', claim c)

unfoldable pub ideal_run : List Event → List Write → List Write × List Reply
unfolding ideal_step
ideal_run [] ws = (ws, [])
ideal_run (e ∷ es) ws =
    let (ws', r) = ideal_step e ws in let (ws'', rs) = ideal_run es ws' in (ws'', r ∷ rs)

-- From `now` on, the cache answers as the ideal memory does.
pub record Tracks (now : ℕ) (m : Manager) (ws : List Write) : Type 0 where
  pub valid : IsValid m
  pub agrees : (t : ℕ) (j : Text) → now ≤ t → live t j m.cache ≡ recall t j ws

Tracks-later :
    {now later : ℕ} {m : Manager} {ws : List Write}
    → Tracks now m ws
    → now ≤ later
    → Tracks later m ws
Tracks-later k h = record { valid = k.valid; agrees = λ t j p. k.agrees t j (omega arith) }

Tracks-get :
    (now : ℕ) (key : Text) (m : Manager) (ws : List Write)
    → Tracks now m ws
    → Tracks now (get now key m).0 ws
Tracks-get now key m ws k = record {
  valid = get-IsValid now key m k.valid;
  agrees = λ t j p. live-get now t key j m k.valid p ∙ k.agrees t j p;
}

Tracks-set :
    (now : ℕ) (key : Text) (v : ℕ) (ttl : Option ℕ) (m : Manager) (ws : List Write)
    → Tracks now m ws
    → Tracks now (set now key v ttl m) (record { time = now; key = key; value = v; ttl = ttl } ∷ ws)
unfolding recall
Tracks-set now key v ttl m ws k = record {
  valid = set-IsValid now key v ttl m k.valid;
  agrees = λ t j p.
      live-set now t key j v ttl m
      ∙ ap
          (λ (o : Option ℕ).
            ite (text_discrete j key) (if is_live t (expiry_of now ttl) then some v else none) o)
          (k.agrees t j p);
}

Tracks-claim_status :
    (later : ℕ) (key : Text) (m : Manager) (o : Option ℕ) (ws : List Write)
    → Tracks later m ws
    → Tracks later (claim_status later key m o).0 (ideal_claim later key o ws).0
      × ((claim_status later key m o).1 ≡ (ideal_claim later key o ws).1)
unfolding claim_status ideal_claim
Tracks-claim_status later key m none ws k = (k, refl)
Tracks-claim_status later key m (some status) ws k =
    elim (Bool-cases (status == task_status_pending)) [
      | inl e ↦ rw e (Tracks-set later key task_status_running default_ttl m ws k, refl)
      | inr e ↦ rw e (k, refl)
    ]

Tracks-step :
    (e : Event) {now : ℕ} (s : State) (ws : List Write)
    → Tracks now s.manager ws
    → now ≤ starts e
    → starts e ≤ ends e
    → Tracks (ends e) (step e s).0.manager (ideal_step e ws).0
      × ((step e s).1 ≡ (ideal_step e ws).1)
unfolding step ideal_step claim_task
Tracks-step (getting now key) s ws k p q =
    let k' = Tracks-later {later = now} k p in
    (
      Tracks-get now key s.manager ws k',
      ap value (get-live now key s.manager ∙ k'.agrees now key q),
    )
Tracks-step (setting now key v ttl) s ws k p q =
    (Tracks-set now key v ttl s.manager ws (Tracks-later {later = now} k p), refl)
Tracks-step (saving now out) s ws k p q =
    let k' = Tracks-later {later = now} k p in
    (
      record {
        valid = save_cache-IsValid now out s.manager s.file k'.valid;
        agrees = λ t j h. live-save_cache now t out j s.manager s.file k'.valid h ∙ k'.agrees t j h;
      },
      refl,
    )
Tracks-step (cleaning now later out) s ws k p q =
    let k' = Tracks-later {later = now} k p in
    (
      record {
        valid = clean_expired-IsValid now later out s.manager s.file k'.valid;
        agrees = λ t j h.
            live-clean_expired now later t out j s.manager s.file k'.valid q h
            ∙ k'.agrees t j (omega arith);
      },
      refl,
    )
Tracks-step (claiming now later key) s ws k p q =
    let k' = Tracks-later {later = now} k p in
    let o = (get now key s.manager).1 in
    let m = (get now key s.manager).0 in
    let same : o ≡ recall now key ws =
      get-live now key s.manager ∙ k'.agrees now key (omega arith) in
    let (kc, rc) =
      Tracks-claim_status later key m o ws
        (Tracks-later {later = later} (Tracks-get now key s.manager ws k') q) in
    (
      subst (λ x. Tracks later (claim_status later key m o).0 (ideal_claim later key x ws).0) same
          kc,
      ap claim (rc ∙ ap (λ x. (ideal_claim later key x ws).1) same),
    )

pub claim_status-IsValid :
    (later : ℕ) (key : Text) (m : Manager) (o : Option ℕ)
    → IsValid m
    → IsValid (claim_status later key m o).0
unfolding claim_status
claim_status-IsValid later key m none u = u
claim_status-IsValid later key m (some status) u =
    elim (Bool-cases (status == task_status_pending)) [
      | inl e ↦ rw e (set-IsValid later key task_status_running default_ttl m u)
      | inr e ↦ rw e u
    ]

pub step-IsValid : (e : Event) (s : State) → IsValid s.manager → IsValid (step e s).0.manager
unfolding step claim_task
step-IsValid (getting now key) s u = get-IsValid now key s.manager u
step-IsValid (setting now key v ttl) s u = set-IsValid now key v ttl s.manager u
step-IsValid (saving now out) s u = save_cache-IsValid now out s.manager s.file u
step-IsValid (cleaning now later out) s u = clean_expired-IsValid now later out s.manager s.file u
step-IsValid (claiming now later key) s u =
    claim_status-IsValid later key (get now key s.manager).0 (get now key s.manager).1
      (get-IsValid now key s.manager u)

-- From a cache that agrees with a list of writes, whatever calls are made, with a clock that does
-- not run backwards, each of them is answered as the ideal memory of the writes answers it: lazy
-- deletion, cleaning and saving are never seen.
pub run-eq-ideal_run :
    (es : List Event) (now : ℕ) (s : State) (ws : List Write)
    → Tracks now s.manager ws
    → IsOrdered now es
    → (run es s).1 ≡ (ideal_run es ws).1
unfolding run ideal_run
run-eq-ideal_run [] now s ws k h = refl
run-eq-ideal_run (e ∷ es) now s ws k (p, q, r) =
    let (k', same) = Tracks-step e s ws k p q in
    ap₂ ◌∷◌ same (run-eq-ideal_run es (ends e) (step e s).0 (ideal_step e ws).0 k' r)
