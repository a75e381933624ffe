-- ===== src/Hub/Scheduler/Examples.antt =====
-- A task that is queued twice while the handler sleeps.
use prover.Prelude.{
  ◌≡◌, ◌≢◌, refl, true, false, [], ◌∷◌, Text, codes, text_discrete, All, some, subst, arith,
}
use mathlib.Core.Option.{some-injective}
use prover.Dict.{Dict, lookup, insert}
use prover.Hub.Scheduler.{
  pending, TaskInfo, Scheduler, new, add_task, run_task_by_queue, handler_wakes, not_started,
  sleeping, ended, collides,
}
use prover.Hub.Scheduler.Once.{IsOrderly, IsCallable}
use prover.Hub.Scheduler.Steps.{Step, registers, starts, queues}
use prover.Hub.Scheduler.Runs.{Run, here, next, IsStarted, Run-IsOrderly, Run-IsStarted}

-- The coroutine functions by their names, and an argument that is a text.
abbrev args : Dict Text
args = (codes "n", codes "x") ∷ []

abbrev registered : Scheduler Text Text
registered = record new { tasks = (codes "demo", codes "f") ∷ [] }

abbrev started : Scheduler Text Text
started = record registered { handler = sleeping }

abbrev queued : Scheduler Text Text
queued = (run_task_by_queue (codes "1") (codes "demo") args started).0

abbrev again : Scheduler Text Text
again = (run_task_by_queue (codes "2") (codes "demo") args queued).0

Run-again : Run new false again
unfolding add_task run_task_by_queue lookup insert text_discrete collides
Run-again =
    next
      (next
        (next (next here (registers (codes "demo") (codes "f") new registered refl))
          (starts registered refl))
        (queues (codes "1") (codes "demo") args started (refl, refl)))
      (queues (codes "2") (codes "demo") args queued (refl, refl))

abbrev first : TaskInfo Text
first = record { task_name = codes "demo"; task_args = args; status = pending }

found-callable :
    (j : Text) (info : TaskInfo Text) (store : Dict (TaskInfo Text))
    → All (λ (e : Text × TaskInfo Text). collides e.1.task_args ≡ false) store
    → lookup j store ≡ some info
    → collides info.task_args ≡ false
unfolding lookup
found-callable j info [] h e = absurd cc
found-callable j info ((k, i) ∷ store) h e = elim (text_discrete j k) [
  | yes p ↦
      subst (λ (x : TaskInfo Text). collides x.task_args ≡ false)
        (some-injective i info (ground arith)) h.0
  | no p ↦ found-callable j info store h.1 (ground arith)
]

again-IsCallable : IsCallable again
unfolding run_task_by_queue lookup insert text_discrete collides
again-IsCallable j info e = found-callable j info again.tasks_store (refl, (refl, tt)) e

Run-IsStarted_example :
    (again.shutdown_flag ≡ false
      → again.handler ≢ not_started
      → Step true again (handler_wakes again))
    × ((t : Scheduler Text Text) → Run again true t → IsCallable t → IsStarted (codes "1") first t)
unfolding run_task_by_queue lookup insert text_discrete
Run-IsStarted_example = Run-IsStarted (codes "1") first Run-again refl refl again-IsCallable

Run-IsOrderly_example : IsOrderly again
Run-IsOrderly_example = Run-IsOrderly Run-again

-- An argument named `task_id` ends the handler, and leaves its task running without a start.
abbrev misnamed : Scheduler Text Text
misnamed =
    (run_task_by_queue (codes "3") (codes "demo") ((codes "task_id", codes "7") ∷ []) started).0

stranded : ((handler_wakes misnamed).handler ≡ ended) × ((handler_wakes misnamed).loop ≡ [])
unfolding handler_wakes run_task_by_queue lookup insert text_discrete collides
stranded = (refl, refl)
