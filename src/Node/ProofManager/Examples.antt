-- ===== src/Node/ProofManager/Examples.antt =====
-- Runs of the cache of proof_manager/main.py on small inputs.
use prover.Prelude.{
  ℕ, ◌*◌, ◌+◌, ◌≤◌, ◌≡◌, refl, true, false, none, some, List, [], ◌∷◌, arith, Text, codes,
  text_discrete,
}
use prover.Dict.{lookup, insert}
use prover.Node.Status.{passed, failed, status_code_task_invalid, status_code_task_not_found}
use prover.Node.ProofManager.{
  Manager, SaveOutcome, absent, written, open_failed, second, init, claim_task, save_cache,
  default_ttl,
}
use prover.Node.ProofManager.View.{live}
use prover.Node.ProofManager.Trace.{
  Event, Reply, getting, setting, saving, cleaning, claiming, State, run, ideal_run, step, Tracks,
  run-eq-ideal_run, recall,
}
use prover.Node.ProofManager.Persistence.{Restores, restart-after_save}
use prover.Node.ProofManager.Claims.{granted, pushes, granted-le-pushes, granted_once}
use prover.Node.ProofManager.Flush.{save_begin, raced, set_lost}

abbrev hash : Text
hash = codes "0xab"

abbrev empty : Manager
empty = record { cache = []; dirty = false }

abbrev fresh : State
fresh = record { manager = empty; file = absent }

-- A pushed task: pending until the time 160.
abbrev pushed : State
pushed = record {
  manager = record { cache = (hash, (0, some (60 * second))) ∷ []; dirty = true };
  file = absent;
}

-- Two claims and a read, with a save that fails and a cleaning in between.
abbrev calls : List Event
calls =
    saving 20 open_failed
    ∷ claiming 30 31 hash
    ∷ cleaning 32 33 written
    ∷ getting 34 hash
    ∷ claiming (90 * second) (90 * second) hash
    ∷ []

granted_once_example : granted hash calls (run calls (step (claiming 10 11 hash) pushed).0).1 ≡ 0
unfolding step claim_task lookup text_discrete pushes
granted_once_example =
    granted_once calls 10 11 pushed hash (refl, tt) (omega arith) (omega arith) refl refl

granted-le-pushes_example :
    granted hash
      (setting 5 hash 0 default_ttl ∷ calls)
      (run (setting 5 hash 0 default_ttl ∷ calls) fresh).1
    ≤ 1 + pushes hash (setting 5 hash 0 default_ttl ∷ calls)
granted-le-pushes_example =
    granted-le-pushes (setting 5 hash 0 default_ttl ∷ calls) 0 fresh hash tt (omega arith)

fresh-Tracks : Tracks 0 empty []
unfolding live lookup recall
fresh-Tracks = record { valid = tt; agrees = λ t j h. refl }

run-eq-ideal_run_example :
    (run (setting 5 hash 0 default_ttl ∷ calls) fresh).1
    ≡ (ideal_run (setting 5 hash 0 default_ttl ∷ calls) []).1
run-eq-ideal_run_example =
    run-eq-ideal_run (setting 5 hash 0 default_ttl ∷ calls) 0 fresh [] fresh-Tracks (omega arith)

restart-after_save_example :
    let s = (run (setting 5 hash 0 default_ttl ∷ calls) fresh).0 in
    Restores (100 * second) (save_cache (100 * second) written s.manager s.file).1 s.manager.cache
unfolding init
restart-after_save_example =
    restart-after_save (setting 5 hash 0 default_ttl ∷ calls) 0 absent (100 * second) tt refl
      (omega arith) (omega arith) (omega arith)

set_lost_example :
    let m : Manager = record { cache = (hash, (0, some 900)) ∷ []; dirty = true } in
    (live 12 (codes "0xcd") (raced 10 12 (codes "0xcd") 0 60 m).cache ≡ some 0)
    × ((t : ℕ) (out : SaveOutcome)
        → save_cache t out (raced 10 12 (codes "0xcd") 0 60 m) (save_begin 10 m).1
          ≡ (raced 10 12 (codes "0xcd") 0 60 m, (save_begin 10 m).1))
    × ((start : ℕ)
        → 12 ≤ start
        → (m' : Manager) × (init start (save_begin 10 m).1 ≡ some m')
          × ((t : ℕ) → start ≤ t → live t (codes "0xcd") m'.cache ≡ none))
unfolding live lookup text_discrete
set_lost_example =
    set_lost 10 12 (codes "0xcd") 0 60 (record { cache = (hash, (0, some 900)) ∷ []; dirty = true })
      (refl, tt) (omega arith) (omega arith) refl

-- A claim is granted while the task is pending, refused while it runs, and unknown afterwards.
claim_statuses :
    (run
      (claiming 10 11 hash ∷ claiming 20 21 hash ∷ claiming (90 * second) (90 * second) hash ∷ [])
      pushed).1
    ≡ Reply.claim (passed (codes "Successfully"))
      ∷ Reply.claim (failed status_code_task_invalid (codes "Proof hash is invalid"))
      ∷ Reply.claim (failed status_code_task_not_found (codes "Proof hash does not exist"))
      ∷ []
unfolding run claim_task lookup insert text_discrete
claim_statuses = refl
