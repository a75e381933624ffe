-- ===== src/Hub/Scheduler/Once.antt =====
-- What becomes of the tasks of the queue of hub/src/scheduler/main.py, in any order of its steps.
use prover.Prelude.{
  ◌≡◌, refl, Bool, true, false, Option, none, some, is_some, List, [], ◌∷◌, ◌++◌, Text,
  text_discrete, ite, arith, ◌⊎◌, inl, inr, All, All-mono, subst, append-nil, Bool-cases,
}
use prover.Dict.{Dict, lookup, lookup-insert}
use prover.Hub.Scheduler.{
  TaskStatus, pending, running, done, TaskInfo, Launch, ended, Scheduler, collides, execute,
  handle_info, handle_task, handle_tasks,
}

pub some_of : {B : Type 0} (o : Option B) → is_some o ≡ true → (b : B) × (o ≡ some b)
some_of none e = absurd cc
some_of (some b) e = (b, refl)

module _ {A : Type 0} where
  -- The entry with a status that it may get.
  abbrev pub IsKept : TaskInfo A → Option (TaskInfo A) → Type 0
  IsKept info o =
      (o ≡ some info)
      ⊎ (o ≡ some (record info { status = done }))
      ⊎ ((o ≡ some (record info { status = running })) × (info.status ≡ pending))

  IsKept-collides :
      (info : TaskInfo A) (o : Option (TaskInfo A))
      → IsKept info o
      → ((i : TaskInfo A) → o ≡ some i → collides i.task_args ≡ false)
      → collides info.task_args ≡ false
  IsKept-collides info o (inl q) c = c info q
  IsKept-collides info o (inr (inl q)) c = c (record info { status = done }) q
  IsKept-collides info o (inr (inr q)) c = c (record info { status = running }) q.0

  IsKept-trans :
      (info : TaskInfo A) (o p : Option (TaskInfo A))
      → IsKept info o
      → ((i : TaskInfo A) → o ≡ some i → IsKept i p)
      → IsKept info p
  IsKept-trans info o p (inl q) k = k info q
  IsKept-trans info o p (inr (inl q)) k = ground (arith, k (record info { status = done }) q)
  IsKept-trans info o p (inr (inr q)) k =
      ground (arith, q.1, k (record info { status = running }) q.0)

  IsKept-found : (info : TaskInfo A) (o : Option (TaskInfo A)) → IsKept info o → is_some o ≡ true
  IsKept-found info o (inl q) = rw q refl
  IsKept-found info o (inr (inl q)) = rw q refl
  IsKept-found info o (inr (inr q)) = rw (q.0) refl

module _ {F A : Type 0} where
  -- What the event loop was given under an identifier.
  abbrev pub launches : Text → List (Launch F A) → List (Launch F A)
  launches task_id [] = []
  launches task_id (l ∷ ls) =
      ite (text_discrete task_id l.task_id) (l ∷ launches task_id ls) (launches task_id ls)

  -- A pending task is of a registered function and was never started; one that is done was started
  -- once, with the function of its name and its arguments; and one that is running has arguments
  -- that `_safe_execute` cannot be called with, and was never started.
  abbrev pub IsSettled : Text → Dict F → TaskInfo A → TaskStatus → List (Launch F A) → Type 0
  IsSettled task_id tasks info pending ls =
      (ls ≡ []) × (is_some (lookup info.task_name tasks) ≡ true)
  IsSettled task_id tasks info running ls = (ls ≡ []) × (collides info.task_args ≡ true)
  IsSettled task_id tasks info done ls =
      (func : F) × (lookup info.task_name tasks ≡ some func)
      × (ls
          ≡ record {
            func = func;
            name = info.task_name;
            task_id = task_id;
            args = some info.task_args;
          }
            ∷ [])

  abbrev pub Settled : Text → Dict F → Option (TaskInfo A) → List (Launch F A) → Type 0
  Settled task_id tasks none ls = Unit
  Settled task_id tasks (some info) ls = IsSettled task_id tasks info info.status ls

  abbrev pub IsOrderly : Scheduler F A → Type 0
  IsOrderly s =
      (task_id : Text)
      → Settled task_id s.tasks (lookup task_id s.tasks_store) (launches task_id s.loop)

  -- The task is in the store, and done.
  abbrev pub IsDone : Text → Scheduler F A → Type 0
  IsDone task_id s =
      (info : TaskInfo A) × (lookup task_id s.tasks_store ≡ some info) × (info.status ≡ done)

  pub launches-append :
      (j : Text) (ls : List (Launch F A)) (l : Launch F A)
      → launches j (ls ++ (l ∷ [])) ≡ launches j ls ++ ite (text_discrete j l.task_id) (l ∷ []) []
  launches-append j [] l = refl
  launches-append j (k ∷ ls) l = ground (arith, launches-append j ls l)

  pub entry-IsSettled :
      (id : Text) (info : TaskInfo A) (s : Scheduler F A)
      → lookup id s.tasks_store ≡ some info
      → IsOrderly s
      → IsSettled id s.tasks info info.status (launches id s.loop)
  entry-IsSettled id info s e h = subst (λ o. Settled id s.tasks o (launches id s.loop)) e (h id)

  pub entry_pending :
      (id : Text) (info : TaskInfo A) (s : Scheduler F A)
      → lookup id s.tasks_store ≡ some info
      → info.status ≡ pending
      → IsOrderly s
      → (launches id s.loop ≡ []) × (is_some (lookup info.task_name s.tasks) ≡ true)
  entry_pending id info s e p h =
      subst (λ t. IsSettled id s.tasks info t (launches id s.loop)) p
        (entry-IsSettled id info s e h)

  -- One pending task, started.
  started-Settled :
      (id : Text) (info : TaskInfo A) (func : F) (s : Scheduler F A)
      → lookup id s.tasks_store ≡ some info
      → info.status ≡ pending
      → lookup info.task_name s.tasks ≡ some func
      → IsOrderly s
      → (j : Text) (d : Dec (j ≡ id))
      → Settled j s.tasks
          (ite d
            (some (record info { status = done }))
            (ite d (some (record info { status = running })) (lookup j s.tasks_store)))
          (launches j s.loop
            ++ ite d
                (record {
                  func = func;
                  name = info.task_name;
                  task_id = id;
                  args = some info.task_args;
                }
                  ∷ [])
                [])
  started-Settled id info func s e p f h j (yes q) =
      rw (q, (entry_pending id info s e p h).0) (func, f, refl)
  started-Settled id info func s e p f h j (no q) = rw (append-nil) (h j)

  -- One pending task that could not be started.
  stranded-Settled :
      (id : Text) (info : TaskInfo A) (s : Scheduler F A)
      → lookup id s.tasks_store ≡ some info
      → info.status ≡ pending
      → collides info.task_args ≡ true
      → IsOrderly s
      → (j : Text) (d : Dec (j ≡ id))
      → Settled j s.tasks
          (ite d (some (record info { status = running })) (lookup j s.tasks_store))
          (launches j s.loop)
  stranded-Settled id info s e p c h j (yes q) = rw (q, (entry_pending id info s e p h).0) (refl, c)
  stranded-Settled id info s e p c h j (no q) = h j

  -- The tasks of the queue can be called with their arguments.
  abbrev pub IsCallable : Scheduler F A → Type 0
  IsCallable s =
      (j : Text) (info : TaskInfo A)
      → lookup j s.tasks_store ≡ some info
      → collides info.task_args ≡ false

  -- The handler ends only when the scheduler shuts down.
  abbrev pub IsAlive : Scheduler F A → Type 0
  IsAlive s = s.handler ≡ ended → s.shutdown_flag ≡ true

  -- What a step keeps: the order, the entries but for their status, and the handler, unless a task
  -- could not be called.
  pub record Advances (s t : Scheduler F A) : Type 0 where
    pub orderly : IsOrderly t
    pub alive : IsCallable t → IsAlive s → IsAlive t
    pub kept :
        (j : Text) (info : TaskInfo A)
        → lookup j s.tasks_store ≡ some info
        → IsKept info (lookup j t.tasks_store)

  pub Advances-IsCallable : {s t : Scheduler F A} → Advances s t → IsCallable t → IsCallable s
  Advances-IsCallable {t = t} a c j info e =
      IsKept-collides info (lookup j t.tasks_store) (a.kept j info e) (c j)

  execute-IsOrderly :
      (id : Text) (info : TaskInfo A) (func : F) (s : Scheduler F A)
      → lookup id s.tasks_store ≡ some info
      → info.status ≡ pending
      → lookup info.task_name s.tasks ≡ some func
      → IsOrderly s
      → IsOrderly (execute id info s).0
  unfolding execute
  execute-IsOrderly id info func s e p f h j = elim (Bool-cases (collides info.task_args)) [
    | inl c ↦
        rw (f, c, execute, lookup-insert)
          (stranded-Settled id info s e p c h j (text_discrete j id))
    | inr c ↦
        rw (f, c, execute, lookup-insert, lookup-insert, launches-append)
          (started-Settled id info func s e p f h j (text_discrete j id))
  ]

  execute-IsKept :
      (id : Text) (info : TaskInfo A) (func : F) (s : Scheduler F A)
      → lookup id s.tasks_store ≡ some info
      → info.status ≡ pending
      → lookup info.task_name s.tasks ≡ some func
      → (j : Text) (i : TaskInfo A) → lookup j s.tasks_store ≡ some i
      → IsKept i (lookup j (execute id info s).0.tasks_store)
  unfolding execute
  execute-IsKept id info func s e p f j i q = elim (Bool-cases (collides info.task_args)) [
    | inl c ↦ rw (f, c, execute, lookup-insert) (ground (arith, e, q, p))
    | inr c ↦ rw (f, c, execute, lookup-insert, lookup-insert) (ground (arith, e, q, p))
  ]

  execute-IsAlive :
      (id : Text) (info : TaskInfo A) (func : F) (s : Scheduler F A)
      → lookup info.task_name s.tasks ≡ some func
      → IsAlive s
      → IsAlive (execute id info s).0
  unfolding execute
  execute-IsAlive id info func s f a = elim (Bool-cases (collides info.task_args)) [
    | inl c ↦ rw (f, c, execute) a
    | inr c ↦ rw (f, c, execute) a
  ]

  execute-Advances :
      (id : Text) (info : TaskInfo A) (func : F) (s : Scheduler F A)
      → lookup id s.tasks_store ≡ some info
      → info.status ≡ pending
      → lookup info.task_name s.tasks ≡ some func
      → IsOrderly s
      → Advances s (execute id info s).0
  execute-Advances id info func s e p f h = record {
    orderly = execute-IsOrderly id info func s e p f h;
    alive = λ c a. execute-IsAlive id info func s f a;
    kept = execute-IsKept id info func s e p f;
  }

  -- An item of a pass: if the tasks can be called, no exception, and its task is done.
  record Handled (id : Text) (s : Scheduler F A) (r : Scheduler F A × Bool) : Type 0 where
    advances : Advances s r.0
    finished : IsCallable r.0 → (r.1 ≡ true) × IsDone id r.0

  pub Advances-refl : (s : Scheduler F A) → IsOrderly s → Advances s s
  Advances-refl s h = record { orderly = h; alive = λ c a. a; kept = λ j i q. inl q }

  execute_finished :
      (id : Text) (info : TaskInfo A) (func : F) (s : Scheduler F A)
      → lookup id s.tasks_store ≡ some info
      → lookup info.task_name s.tasks ≡ some func
      → collides info.task_args ≡ false
      → ((execute id info s).1 ≡ true) × IsDone id (execute id info s).0
  unfolding execute
  execute_finished id info func s e f c = (
    rw (f, c, execute) refl,
    (record info { status = done }, rw (f, c, execute, lookup-insert) (ground arith), refl),
  )

  execute-Handled :
      (id : Text) (info : TaskInfo A) (func : F) (s : Scheduler F A)
      → lookup id s.tasks_store ≡ some info
      → info.status ≡ pending
      → lookup info.task_name s.tasks ≡ some func
      → IsOrderly s
      → Handled id s (execute id info s)
  execute-Handled id info func s e p f h =
      let a = execute-Advances id info func s e p f h in
      record {
        advances = a;
        finished = λ c. execute_finished id info func s e f (Advances-IsCallable a c id info e);
      }

  handle_info-Handled :
      (id : Text) (info : TaskInfo A) (t : TaskStatus) (s : Scheduler F A)
      → lookup id s.tasks_store ≡ some info
      → info.status ≡ t
      → IsOrderly s
      → Handled id s (handle_info id info t s)
  unfolding handle_info
  handle_info-Handled id info pending s e p h =
      let f = some_of (lookup info.task_name s.tasks) (entry_pending id info s e p h).1 in
      execute-Handled id info f.0 s e p f.1 h
  handle_info-Handled id info running s e p h = record {
    advances = Advances-refl s h;
    finished = λ c.
        let stuck =
          subst (λ t. IsSettled id s.tasks info t (launches id s.loop)) p
            (entry-IsSettled id info s e h) in
        absurd (ground (arith, stuck.1, c id info e));
  }
  handle_info-Handled id info done s e p h = record {
    advances = Advances-refl s h;
    finished = λ c. (refl, (info, e, p));
  }

  handle_task-Handled :
      (id : Text) (s : Scheduler F A)
      → is_some (lookup id s.tasks_store) ≡ true
      → IsOrderly s
      → Handled id s (handle_task id s)
  unfolding handle_task
  handle_task-Handled id s k h =
      let i = some_of (lookup id s.tasks_store) k in
      rw (i.1, handle_task) (handle_info-Handled id i.0 i.0.status s i.1 refl h)

  pub Advances-IsDone : {s t : Scheduler F A} (id : Text) → Advances s t → IsDone id s → IsDone id t
  Advances-IsDone {s} {t} id a (info, e, p) = elim (a.kept id info e) [
    | inl q ↦ (info, q, p)
    | inr (inl q) ↦ (record info { status = done }, q, refl)
    | inr (inr q) ↦ absurd (ground (arith, p, q.1))
  ]

  pub Advances-trans : {s t u : Scheduler F A} → Advances s t → Advances t u → Advances s u
  Advances-trans {t = t} {u = u} a b = record {
    orderly = b.orderly;
    alive = λ c h. b.alive c (a.alive (Advances-IsCallable b c) h);
    kept = λ j info q.
        IsKept-trans info (lookup j t.tasks_store) (lookup j u.tasks_store) (a.kept j info q)
          (b.kept j);
  }

  Advances-found :
      {s t : Scheduler F A} (id : Text)
      → Advances s t
      → is_some (lookup id s.tasks_store) ≡ true
      → is_some (lookup id t.tasks_store) ≡ true
  Advances-found {s} {t} id a k =
      let i = some_of (lookup id s.tasks_store) k in
      IsKept-found i.0 (lookup id t.tasks_store) (a.kept id i.0 i.1)

  abbrev pub IsFound : Scheduler F A → Text → Type 0
  IsFound s id = is_some (lookup id s.tasks_store) ≡ true

  -- A pass: if the tasks can be called, they are done then.
  pub record Passed (ids : List Text) (s t : Scheduler F A) : Type 0 where
    pub advances : Advances s t
    pub finished : IsCallable t → All (λ id. IsDone id t) ids

  -- The end of a pass by an exception.
  ended-Passed :
      (id : Text) (ids : List Text) (s : Scheduler F A) (r : Scheduler F A × Bool)
      → Handled id s r
      → r.1 ≡ false
      → Passed (id ∷ ids) s (record r.0 { handler = ended })
  ended-Passed id ids s r h e = record {
    advances = record {
      orderly = h.advances.orderly;
      alive = λ c a. absurd (ground (arith, e, (h.finished c).0));
      kept = h.advances.kept;
    };
    finished = λ c. absurd (ground (arith, e, (h.finished c).0));
  }

  pub handle_tasks-Passed :
      (ids : List Text) (s : Scheduler F A)
      → All (IsFound s) ids
      → IsOrderly s
      → Passed ids s (handle_tasks ids s)
  unfolding handle_tasks
  handle_tasks-Passed [] s k h = record { advances = Advances-refl s h; finished = λ c. tt }
  handle_tasks-Passed (id ∷ ids) s k h =
      let r = handle_task-Handled id s k.0 h in
      let rest =
        handle_tasks-Passed ids (handle_task id s).0
          (All-mono (λ j q. Advances-found j r.advances q) ids k.1) r.advances.orderly in
      elim (Bool-cases (handle_task id s).1) [
        | inl e ↦
            rw (e, handle_tasks)
              (record {
                advances = Advances-trans r.advances rest.advances;
                finished = λ c. (
                  Advances-IsDone id rest.advances
                      (r.finished (Advances-IsCallable rest.advances c)).1,
                  rest.finished c,
                );
              })
        | inr e ↦ rw (e, handle_tasks) (ended-Passed id ids s (handle_task id s) r e)
      ]
