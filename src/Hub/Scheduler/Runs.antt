-- ===== src/Hub/Scheduler/Runs.antt =====
-- What the runs of the event loop come to, for hub/src/scheduler/main.py.
use prover.Prelude.{
  ◌≡◌, ◌≢◌, refl, Bool, true, false, ◌||◌, some, [], ◌∷◌, Text, arith, ◌⊎◌, inl, inr, Bool-cases,
}
use prover.Dict.{lookup, keys, keys_found, keys_at}
use prover.Hub.Scheduler.{
  pending, running, done, TaskInfo, Handler, not_started, sleeping, ended, Scheduler, new,
  handle_tasks, handler_wakes,
}
use prover.Hub.Scheduler.Once.{
  launches, IsOrderly, IsDone, entry-IsSettled, Advances, Advances-refl, Advances-trans,
  Advances-IsDone, IsCallable, Advances-IsCallable, handle_tasks-Passed,
}
use prover.Hub.Scheduler.Steps.{
  Step, registers, runs, queues, starts, wakes, adds, works, shuts, Step-Advances,
  next_round-Advances,
}

awake :
    (x : Handler) (b : Bool)
    → b ≡ false
    → (x ≡ ended → b ≡ true)
    → (x ≡ not_started) ⊎ (x ≡ sleeping)
awake not_started b e h = inl refl
awake sleeping b e h = inr refl
awake ended b e h = absurd (ground (arith, h refl))

new-IsOrderly : (F A : Type 0) → IsOrderly {F = F} {A = A} new
unfolding lookup
new-IsOrderly F A j = tt

module _ {F A : Type 0} where
  -- A run, and whether the handler made a pass in it.
  pub data Run (s : Scheduler F A) : Bool → Scheduler F A → Type 0 where
    here : Run s false s
    next : {a b : Bool} {t u : Scheduler F A} → Run s a t → Step b t u → Run s (a || b) u

  Run-Advances :
      {s : Scheduler F A} {b : Bool} {t : Scheduler F A} → Run s b t → IsOrderly s → Advances s t
  Run-Advances {s = s} here h = Advances-refl s h
  Run-Advances (next r x) h =
      let a = Run-Advances r h in Advances-trans a (Step-Advances x a.orderly)

  -- In whatever order the loop runs the operations of a new scheduler: a task of the queue was
  -- never started while it is pending; was started once, with the function that is registered
  -- under its name and the arguments it was queued with, when it is done; and is running between
  -- two steps only if one of its arguments is named `func`, `task_name` or `task_id`, in which case
  -- it was never started either.
  pub Run-IsOrderly : {b : Bool} {s : Scheduler F A} → Run new b s → IsOrderly s
  Run-IsOrderly r = (Run-Advances r (new-IsOrderly F A)).orderly

  -- A task of the queue that was started: once, with the function that is registered under its
  -- name and its arguments.
  abbrev pub IsStarted : Text → TaskInfo A → Scheduler F A → Type 0
  IsStarted task_id info s =
      (lookup task_id s.tasks_store ≡ some (record info { status = done }))
      × ((func : F) × (lookup info.task_name s.tasks ≡ some func)
          × (launches task_id s.loop
              ≡ record {
                func = func;
                name = info.task_name;
                task_id = task_id;
                args = some info.task_args;
              }
                ∷ []))

  Advances-IsStarted :
      {s t : Scheduler F A} (id : Text) (info : TaskInfo A)
      → Advances s t
      → lookup id s.tasks_store ≡ some info
      → info.status ≡ pending
      → IsDone id t
      → IsStarted id info t
  Advances-IsStarted {s} {t} id info a e p (i, q, d) = elim (a.kept id info e) [
    | inl r ↦ absurd (ground arith)
    | inr (inl r) ↦ (r, entry-IsSettled id (record info { status = done }) t r a.orderly)
    | inr (inr r) ↦ absurd (ground (arith, r.0))
  ]

  -- The end of the handler's sleep starts a task that is pending then.
  wakes-IsDone :
      (s : Scheduler F A) (id : Text) (info : TaskInfo A)
      → IsOrderly s
      → IsCallable (handler_wakes s)
      → lookup id s.tasks_store ≡ some info
      → IsDone id (handler_wakes s)
  unfolding handler_wakes
  wakes-IsDone s id info h c e =
      let p = handle_tasks-Passed (keys s.tasks_store) s (keys_found s.tasks_store) h in
      let after = next_round-Advances (handle_tasks (keys s.tasks_store) s) p.advances.orderly in
      Advances-IsDone id after (
        keys_at (λ j. IsDone j (handle_tasks (keys s.tasks_store) s)) s.tasks_store id
          (p.finished (Advances-IsCallable after c)) (rw e refl))

  Step-IsDone :
      {b : Bool} {s t : Scheduler F A} (id : Text) (info : TaskInfo A)
      → Step b s t
      → b ≡ true
      → IsOrderly s
      → IsCallable t
      → lookup id s.tasks_store ≡ some info
      → IsDone id t
  Step-IsDone id info (registers task func s t e) q h l k = absurd cc
  Step-IsDone id info (runs i task extra s f) q h l k = absurd cc
  Step-IsDone id info (queues i task extra s f) q h l k = absurd cc
  Step-IsDone id info (starts s e) q h l k = absurd cc
  Step-IsDone id info (wakes s e) q h l k = wakes-IsDone s id info h l k
  Step-IsDone id info (adds job_name interval func s t e) q h l k = absurd cc
  Step-IsDone id info (works i j s f) q h l k = absurd cc
  Step-IsDone id info (shuts s) q h l k = absurd cc

  Run-IsDone :
      {s : Scheduler F A} {b : Bool} {t : Scheduler F A} (id : Text) (info : TaskInfo A)
      → Run s b t
      → b ≡ true
      → IsOrderly s
      → IsCallable t
      → lookup id s.tasks_store ≡ some info
      → IsDone id t
  Run-IsDone id info here q h l k = absurd cc
  Run-IsDone id info (next {a} {b} r x) q h l k =
      let p = Run-Advances r h in
      elim (Bool-cases a) [
        | inl e ↦
            let y = Step-Advances x p.orderly in
            Advances-IsDone id y (Run-IsDone id info r e h (Advances-IsCallable y l) k)
        | inr e ↦ elim (p.kept id info k) [
          | inl m ↦ Step-IsDone id info x (ground arith) p.orderly l m
          | inr (inl m) ↦
              Step-IsDone id (record info { status = done }) x (ground arith) p.orderly l m
          | inr (inr m) ↦
              Step-IsDone id (record info { status = running }) x (ground arith) p.orderly l m.0
        ]
      ]

  -- The handler of a scheduler that is not shut down goes on, once it was started: the
  -- tasks of the queue, if they can be called, do not end it.
  Run-wakes :
      {b : Bool} {s : Scheduler F A}
      → Run new b s
      → IsCallable s
      → s.shutdown_flag ≡ false
      → s.handler ≢ not_started
      → Step true s (handler_wakes s)
  Run-wakes {s = s} r c e n =
      elim (awake s.handler s.shutdown_flag e
        ((Run-Advances r (new-IsOrderly F A)).alive c (λ p. absurd cc))) [
          | inl q ↦ absurd (n q)
          | inr q ↦ wakes s q
        ]

  -- A task that is pending in the queue of a scheduler, where no task of the queue has an argument
  -- named `func`, `task_name` or `task_id`, is started by the handler's next pass: unless the
  -- scheduler was shut down or its handler was never started, this pass is a step that the loop can
  -- take; and any further run with a pass in it, whatever else the loop runs before and after, ends
  -- with the task done, and started once, with its function and its arguments, if no task that is
  -- in the queue by then has such an argument.
  pub Run-IsStarted :
      {b : Bool} {s : Scheduler F A} (id : Text) (info : TaskInfo A)
      → Run new b s
      → lookup id s.tasks_store ≡ some info
      → info.status ≡ pending
      → IsCallable s
      → (s.shutdown_flag ≡ false → s.handler ≢ not_started → Step true s (handler_wakes s))
        × ((t : Scheduler F A) → Run s true t → IsCallable t → IsStarted id info t)
  Run-IsStarted id info r e p c =
      let h = Run-IsOrderly r in
      (
        Run-wakes r c,
        λ t q d.
            Advances-IsStarted id info (Run-Advances q h) e p (Run-IsDone id info q refl h d e),
      )
