-- ===== src/Hub/Scheduler/Steps.antt =====
-- The steps of the event loop for hub/src/scheduler/main.py, and what each of them keeps.
use prover.Prelude.{
  ℕ, ◌≡◌, refl, Bool, true, false, Option, none, some, is_some, List, [], ◌∷◌, ◌++◌, Text,
  text_discrete, ite, arith, if◌then◌else◌, inl, inr, subst, append-nil, Bool-cases, Option-cases,
  codes,
}
use mathlib.Core.Option.{some-injective}
use prover.PyText.{text_eq}
use prover.Dict.{Dict, lookup, insert, keys, lookup-insert, keys_found}
use prover.Hub.Scheduler.{
  TaskStatus, pending, running, done, TaskInfo, Launch, JobTask, not_started, sleeping, ended,
  Scheduler, collides, add_task, run_task, run_task_by_queue, handle_tasks, next_round,
  start_task_handler, handler_wakes, add_job, config_of, job_round, shutdown,
}
use prover.Hub.Scheduler.Once.{
  launches, IsSettled, Settled, IsOrderly, launches-append, IsAlive, Advances, Advances-refl,
  Advances-trans, some_of, handle_tasks-Passed,
}

add_task-grow :
    {F : Type 0}
    → (task : Text) (func : F) (tasks : Dict F) → is_some (lookup task tasks) ≡ false
    → (name : Text) (f : F) → lookup name tasks ≡ some f
    → lookup name (insert task func tasks) ≡ some f
add_task-grow task func tasks h name f e = rw (lookup-insert) (ground arith)

module _ {F A : Type 0} where
  -- An identifier that `uuid1` has not made before.
  abbrev pub IsFresh : Text → Scheduler F A → Type 0
  IsFresh task_id s = (lookup task_id s.tasks_store ≡ none) × (launches task_id s.loop ≡ [])

  -- One step of the event loop; the flag says that it is a pass of the handler.
  pub data Step : Bool → Scheduler F A → Scheduler F A → Type 0 where
    registers :
        (task : Text) (func : F) (s t : Scheduler F A)
        → add_task task func s ≡ some t
        → Step false s t
    runs :
        (task_id task : Text) (extra : Dict A) (s : Scheduler F A)
        → IsFresh task_id s
        → Step false s (run_task task_id task extra s)
    queues :
        (task_id task : Text) (extra : Dict A) (s : Scheduler F A)
        → IsFresh task_id s
        → Step false s (run_task_by_queue task_id task extra s).0
    starts : (s : Scheduler F A) → s.handler ≡ not_started → Step false s (start_task_handler s)
    wakes : (s : Scheduler F A) → s.handler ≡ sleeping → Step true s (handler_wakes s)
    adds :
        (job_name : Text) (interval : ℕ) (func : F) (s t : Scheduler F A)
        → add_job job_name interval func s ≡ some t
        → Step false s t
    works :
        (task_id : Text) (j : JobTask F) (s : Scheduler F A)
        → IsFresh task_id s
        → Step false s (job_round task_id j s).0
    shuts : (s : Scheduler F A) → Step false s (shutdown s)

  IsSettled-grow :
      (id : Text) (tasks others : Dict F) (info : TaskInfo A) (t : TaskStatus)
      (ls : List (Launch F A))
      → ((func : F)
          → lookup info.task_name tasks ≡ some func
          → lookup info.task_name others ≡ some func)
      → IsSettled id tasks info t ls
      → IsSettled id others info t ls
  IsSettled-grow id tasks others info pending ls g h =
      let f = some_of (lookup info.task_name tasks) h.1 in (h.0, rw (g f.0 f.1) refl)
  IsSettled-grow id tasks others info running ls g h = h
  IsSettled-grow id tasks others info done ls g h = (h.0, g h.0 h.1, h.2)

  Settled-grow :
      (id : Text) (tasks others : Dict F) (o : Option (TaskInfo A)) (ls : List (Launch F A))
      → ((name : Text) (func : F) → lookup name tasks ≡ some func → lookup name others ≡ some func)
      → Settled id tasks o ls
      → Settled id others o ls
  Settled-grow id tasks others none ls g h = tt
  Settled-grow id tasks others (some info) ls g h =
      IsSettled-grow id tasks others info info.status ls (g info.task_name) h

  -- A step that gives the loop nothing and leaves the store and the tasks alone.
  quiet :
      (s t : Scheduler F A)
      → t.tasks ≡ s.tasks
      → t.tasks_store ≡ s.tasks_store
      → t.loop ≡ s.loop
      → (IsAlive s → IsAlive t)
      → IsOrderly s
      → Advances s t
  quiet s t e f g a h = record {
    orderly = rw (e, f, g) h;
    kept = λ j info q. rw f (inl q);
    alive = λ c x. a x;
  }

  added-Advances :
      (task : Text) (func : F) (s : Scheduler F A)
      → is_some (lookup task s.tasks) ≡ false
      → IsOrderly s
      → Advances s (record s { tasks = insert task func s.tasks })
  added-Advances task func s e h = record {
    orderly = λ j.
        Settled-grow j s.tasks (insert task func s.tasks) (lookup j s.tasks_store)
          (launches j s.loop) (add_task-grow task func s.tasks e) (h j);
    kept = λ j info q. inl q;
    alive = λ c a. a;
  }

  fresh-Settled :
      (l : Launch F A) (s : Scheduler F A)
      → IsFresh l.task_id s
      → IsOrderly s
      → (j : Text) (d : Dec (j ≡ l.task_id))
      → Settled j s.tasks (lookup j s.tasks_store) (launches j s.loop ++ ite d (l ∷ []) [])
  fresh-Settled l s f h j (yes q) = rw (q, f.0) tt
  fresh-Settled l s f h j (no q) = rw (append-nil) (h j)

  launched-Advances :
      (l : Launch F A) (s : Scheduler F A)
      → IsFresh l.task_id s
      → IsOrderly s
      → Advances s (record s { loop = s.loop ++ (l ∷ []) })
  launched-Advances l s f h = record {
    orderly = λ j. rw (launches-append) (fresh-Settled l s f h j (text_discrete j l.task_id));
    kept = λ j info q. inl q;
    alive = λ c a. a;
  }

  queued-Settled :
      (id : Text) (info : TaskInfo A) (s : Scheduler F A)
      → info.status ≡ pending
      → is_some (lookup info.task_name s.tasks) ≡ true
      → IsFresh id s
      → IsOrderly s
      → (j : Text) (d : Dec (j ≡ id))
      → Settled j s.tasks (ite d (some info) (lookup j s.tasks_store)) (launches j s.loop)
  queued-Settled id info s p r f h j (yes q) = rw (q, p, f.1) (refl, r)
  queued-Settled id info s p r f h j (no q) = h j

  queued-Advances :
      (id : Text) (info : TaskInfo A) (s : Scheduler F A)
      → info.status ≡ pending
      → is_some (lookup info.task_name s.tasks) ≡ true
      → IsFresh id s
      → IsOrderly s
      → Advances s (record s { tasks_store = insert id info s.tasks_store })
  queued-Advances id info s p r f h = record {
    orderly = λ j. rw (lookup-insert) (queued-Settled id info s p r f h j (text_discrete j id));
    kept = λ j i q. rw (lookup-insert) (ground (arith, f.0));
    alive = λ c a. a;
  }

  launched_or_not :
      (l : Launch F A) (s : Scheduler F A) (b : Bool)
      → IsFresh l.task_id s
      → IsOrderly s
      → Advances s (if b then s else record s { loop = s.loop ++ (l ∷ []) })
  launched_or_not l s true f h = Advances-refl s h
  launched_or_not l s false f h = launched-Advances l s f h

  registers-Advances :
      (task : Text) (func : F) (s t : Scheduler F A)
      → add_task task func s ≡ some t
      → IsOrderly s
      → Advances s t
  unfolding add_task
  registers-Advances task func s t e h = elim (Bool-cases (is_some (lookup task s.tasks))) [
    | inl b ↦ absurd (ground arith)
    | inr b ↦
        subst (Advances s)
          (some-injective (record s { tasks = insert task func s.tasks }) t (ground arith))
          (added-Advances task func s b h)
  ]

  runs-Advances :
      (id task : Text) (extra : Dict A) (s : Scheduler F A)
      → IsFresh id s
      → IsOrderly s
      → Advances s (run_task id task extra s)
  unfolding run_task
  runs-Advances id task extra s f h = elim (Option-cases (lookup task s.tasks)) [
    | inl e ↦ rw (e, run_task) (Advances-refl s h)
    | inr (func, e) ↦
        rw (e, run_task)
          (launched_or_not (record { func = func; name = task; task_id = id; args = some extra }) s
            (collides extra) f h)
  ]

  queues-Advances :
      (id task : Text) (extra : Dict A) (s : Scheduler F A)
      → IsFresh id s
      → IsOrderly s
      → Advances s (run_task_by_queue id task extra s).0
  unfolding run_task_by_queue
  queues-Advances id task extra s f h = elim (Bool-cases (is_some (lookup task s.tasks))) [
    | inl b ↦
        rw (b, run_task_by_queue)
          (queued-Advances id (record { task_name = task; task_args = extra; status = pending }) s
            refl b f h)
    | inr b ↦ rw (b, run_task_by_queue) (Advances-refl s h)
  ]

  ended_if :
      (s : Scheduler F A) (b : Bool)
      → s.shutdown_flag ≡ b
      → IsOrderly s
      → Advances s (if b then record s { handler = ended } else s)
  ended_if s true e h = quiet s (record s { handler = ended }) refl refl refl (λ a q. e) h
  ended_if s false e h = Advances-refl s h

  pub next_round-Advances : (s : Scheduler F A) → IsOrderly s → Advances s (next_round s)
  next_round-Advances s h = ended_if s s.shutdown_flag refl h

  wakes-Advances : (s : Scheduler F A) → IsOrderly s → Advances s (handler_wakes s)
  unfolding handler_wakes
  wakes-Advances s h =
      let p = handle_tasks-Passed (keys s.tasks_store) s (keys_found s.tasks_store) h in
      Advances-trans p.advances
        (next_round-Advances (handle_tasks (keys s.tasks_store) s) p.advances.orderly)

  adds-Advances :
      (job_name : Text) (interval : ℕ) (func : F) (s t : Scheduler F A)
      → add_job job_name interval func s ≡ some t
      → IsOrderly s
      → Advances s t
  unfolding add_job
  adds-Advances job_name interval func s t e h =
      quiet s t (ground arith) (ground arith) (ground arith) (λ a. ground (arith, a)) h

  launched_unless :
      (s : Scheduler F A) (l : Launch F A) (n : ℕ) (b c : Bool)
      → IsFresh l.task_id s
      → IsOrderly s
      → Advances s (
          let r : Scheduler F A × Option ℕ =
            if b
            then (s, none)
            else if c
            then (s, some n)
            else (record s { loop = s.loop ++ (l ∷ []) }, some n) in
          r.0)
  launched_unless s l n true c f h = Advances-refl s h
  launched_unless s l n false true f h = Advances-refl s h
  launched_unless s l n false false f h = launched-Advances l s f h

  works-Advances :
      (id : Text) (j : JobTask F) (s : Scheduler F A)
      → IsFresh id s
      → IsOrderly s
      → Advances s (job_round id j s).0
  unfolding job_round
  works-Advances id j s f h =
      let c = config_of j (lookup j.job_name s.job_configs) in
      launched_unless s (record { func = j.func; name = j.job_name; task_id = id; args = none }) c.1
        s.shutdown_flag (text_eq c.0 (codes "pending")) f h

  starts-Advances : (s : Scheduler F A) → IsOrderly s → Advances s (start_task_handler s)
  starts-Advances s h =
      Advances-trans (quiet s (record s { handler = sleeping }) refl refl refl (λ a e. absurd cc) h)
        (next_round-Advances (record s { handler = sleeping }) h)

  pub Step-Advances : {b : Bool} {s t : Scheduler F A} → Step b s t → IsOrderly s → Advances s t
  Step-Advances (registers task func s t e) h = registers-Advances task func s t e h
  Step-Advances (runs id task extra s f) h = runs-Advances id task extra s f h
  Step-Advances (queues id task extra s f) h = queues-Advances id task extra s f h
  Step-Advances (starts s e) h = starts-Advances s h
  Step-Advances (wakes s e) h = wakes-Advances s h
  Step-Advances (adds job_name interval func s t e) h = adds-Advances job_name interval func s t e h
  Step-Advances (works id j s f) h = works-Advances id j s f h
  Step-Advances (shuts s) h = quiet s (shutdown s) refl refl refl (λ a e. refl) h
