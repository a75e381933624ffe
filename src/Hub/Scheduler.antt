-- ===== src/Hub/Scheduler.antt =====
-- `Scheduler` of hub/src/scheduler/main.py: its tasks, its queue of tasks, and its jobs. A
-- coroutine function is of a type F, the keyword arguments of a call are a dict of values of a type A,
-- and the identifiers that `uuid.uuid1` makes are arguments. Between two of its sleeps a coroutine of the
-- scheduler waits for nothing, so that each operation below is one step of the event loop.
pub mod Once
pub mod Steps
pub mod Runs
mod Examples
use prover.Prelude.{
  ℕ, Bool, true, false, Option, none, some, is_some, List, [], ◌∷◌, ◌++◌, Text, codes,
  if◌then◌else◌, any, map, ◌||◌,
}
use prover.PyText.{text_eq}
use prover.Dict.{Dict, lookup, insert, keys}

pub data TaskStatus : Type 0 where
  pending running done : TaskStatus

-- An entry of `tasks_store`.
pub record TaskInfo (A : Type 0) : Type 0 where
  pub task_name : Text
  pub task_args : Dict A
  pub status : TaskStatus

-- A coroutine that the event loop was given by `create_task`. A job has no arguments.
pub record Launch (F A : Type 0) : Type 0 where
  pub func : F
  pub name : Text
  pub task_id : Text
  pub args : Option (Dict A)

-- An entry of `job_configs`; a key may be missing.
pub record JobConfig : Type 0 where
  pub interval : Option ℕ
  pub status : Option Text

-- A keyword argument that is also a parameter of `_safe_execute`, whose call is then a `TypeError`.
unfoldable pub collides : {A : Type 0} → Dict A → Bool
collides args =
    is_some (lookup (codes "func") args)
    || is_some (lookup (codes "task_name") args)
    || is_some (lookup (codes "task_id") args)

-- A job's coroutine, in `jobs`, and whether it was cancelled.
pub record JobTask (F : Type 0) : Type 0 where
  pub job_name : Text
  pub func : F
  pub default_interval : ℕ
  pub cancelled : Bool

-- The coroutine of `start_task_handler`: it ends by an exception, or is cancelled.
pub data Handler : Type 0 where
  not_started sleeping ended : Handler

pub record Scheduler (F A : Type 0) : Type 0 where
  pub tasks : Dict F
  pub tasks_store : Dict (TaskInfo A)
  pub job_name_set : List Text
  pub job_configs : Dict JobConfig
  pub jobs : List (JobTask F)
  pub handler : Handler
  pub shutdown_flag : Bool
  -- What the event loop was given, in order.
  pub loop : List (Launch F A)
  pub loop_stopped : Bool

module _ {F : Type 0} where
  -- `self.job_configs.get(...)`, and the status and the interval read from it.
  abbrev pub config_of : JobTask F → Option JobConfig → Text × ℕ
  config_of j none = (codes "running", j.default_interval)
  config_of j (some c) = (
    elim c.status [ none ↦ codes "pending" | some status ↦ status ],
    elim c.interval [ none ↦ j.default_interval | some interval ↦ interval ],
  )

  abbrev pub cancel : JobTask F → JobTask F
  cancel j = record j { cancelled = true }

module _ {F A : Type 0} where
  -- `Scheduler.__init__`
  abbrev pub new : Scheduler F A
  new = record {
    tasks = [];
    tasks_store = [];
    job_name_set = [];
    job_configs = [];
    jobs = [];
    handler = not_started;
    shutdown_flag = false;
    loop = [];
    loop_stopped = false;
  }

  -- `_safe_execute`: the event loop gets the wrapper, which lets no exception through.
  abbrev pub safe_execute : F → Text → Text → Option (Dict A) → Scheduler F A → Scheduler F A
  safe_execute func task_name task_id args s = record s {
    loop =
        s.loop ++ (record { func = func; name = task_name; task_id = task_id; args = args } ∷ []);
  }

  -- `@scheduler.add_task(task)`; `none` is the exception.
  unfoldable pub add_task : Text → F → Scheduler F A → Option (Scheduler F A)
  add_task task func s =
      if is_some (lookup task s.tasks)
      then none
      else some (record s { tasks = insert task func s.tasks })

  -- `run_task`: the semaphore is held for no longer than it takes to create the wrapper. A `TypeError`
  -- for its arguments goes to the caller.
  unfoldable pub run_task : Text → Text → Dict A → Scheduler F A → Scheduler F A
  unfolding collides
  run_task task_id task extra s = elim (lookup task s.tasks) [
    | none ↦ s
    | some func ↦ if collides extra then s else safe_execute func task task_id (some extra) s
  ]

  -- `run_task_by_queue`, and what it returns.
  unfoldable pub run_task_by_queue : Text → Text → Dict A → Scheduler F A → Scheduler F A × Text
  run_task_by_queue task_id task extra s =
      if is_some (lookup task s.tasks)
      then (
        record s {
          tasks_store =
              insert task_id (record { task_name = task; task_args = extra; status = pending })
                s.tasks_store;
        },
        task_id,
      )
      else (s, [])

  -- `self.tasks_store[task_id]["status"] = status`, for an entry that is there.
  abbrev pub set_status : Text → TaskInfo A → TaskStatus → Scheduler F A → Scheduler F A
  set_status task_id info status s = record s {
    tasks_store = insert task_id (record info { status = status }) s.tasks_store;
  }

  -- A pending task in the loop of `start_task_handler`, and whether it raises neither a `KeyError`
  -- nor, for its arguments, a `TypeError`.
  unfoldable pub execute : Text → TaskInfo A → Scheduler F A → Scheduler F A × Bool
  unfolding collides
  execute task_id info s =
      let begun = set_status task_id info running s in
      elim (lookup info.task_name s.tasks) [
        | none ↦ (begun, false)
        | some func ↦ if collides info.task_args then (begun, false) else (
          set_status task_id info done
              (safe_execute func info.task_name task_id (some info.task_args) begun),
          true,
        )
      ]

  unfoldable pub handle_info : Text → TaskInfo A → TaskStatus → Scheduler F A → Scheduler F A × Bool
  unfolding execute
  handle_info task_id info pending s = execute task_id info s
  handle_info task_id info running s = (s, true)
  handle_info task_id info done s = (s, true)

  -- An item of the snapshot. Its entry is shared with the store, where none is ever deleted.
  unfoldable pub handle_task : Text → Scheduler F A → Scheduler F A × Bool
  unfolding handle_info
  handle_task task_id s = elim (lookup task_id s.tasks_store) [
    | none ↦ (s, true)
    | some info ↦ handle_info task_id info info.status s
  ]

  unfoldable pub handle_tasks : List Text → Scheduler F A → Scheduler F A
  unfolding handle_task
  handle_tasks [] s = s
  handle_tasks (task_id ∷ ids) s =
      let r = handle_task task_id s in
      elim r.1 [ true ↦ handle_tasks ids r.0 | false ↦ record r.0 { handler = ended } ]

  -- `while not self.shutdown_flag`, at the start of a round.
  abbrev pub next_round : Scheduler F A → Scheduler F A
  next_round s = if s.shutdown_flag then record s { handler = ended } else s

  abbrev pub start_task_handler : Scheduler F A → Scheduler F A
  start_task_handler s = next_round (record s { handler = sleeping })

  -- The end of the handler's sleep: a pass over a snapshot of the store.
  unfoldable pub handler_wakes : Scheduler F A → Scheduler F A
  unfolding handle_tasks
  handler_wakes s = next_round (handle_tasks (keys s.tasks_store) s)

  -- `@scheduler.add_job(job_name, default_interval)`; `none` is the exception.
  unfoldable pub add_job : Text → ℕ → F → Scheduler F A → Option (Scheduler F A)
  add_job job_name default_interval func s =
      if any (text_eq job_name) s.job_name_set
      then none
      else some (record s {
        job_name_set = job_name ∷ s.job_name_set;
        jobs =
            s.jobs
            ++ (record {
              job_name = job_name;
              func = func;
              default_interval = default_interval;
              cancelled = false;
            }
                ∷ []);
      })

  -- A round of a job's wrapper, and how long it sleeps then; `none` is its end.
  unfoldable pub job_round : Text → JobTask F → Scheduler F A → Scheduler F A × Option ℕ
  job_round task_id j s =
      let c = config_of j (lookup j.job_name s.job_configs) in
      if s.shutdown_flag
      then (s, none)
      else if text_eq c.0 (codes "pending")
      then (s, some c.1)
      else (safe_execute j.func j.job_name task_id none s, some c.1)

  -- `shutdown`: the jobs are cancelled, the handler among them, and then all that the loop runs.
  abbrev pub shutdown : Scheduler F A → Scheduler F A
  shutdown s = record s {
    shutdown_flag = true;
    jobs = map cancel s.jobs;
    handler = ended;
    loop_stopped = true;
  }
