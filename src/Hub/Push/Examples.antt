-- ===== src/Hub/Push/Examples.antt =====
-- A node that times out once.
use prover.Prelude.{◌≡◌, ◌↔◌, ◌⊎◌, refl, Text, true, none, codes}
use prover.Hub.Push.{Reply, status, timeout_error, other_error, push_task_details}
use prover.Hub.Push.Retry.{TimesOut, success_of, push_task_details-success}

second_push :
    success_of (push_task_details (timeout_error (codes "t") (codes "")) (status 200)) ≡ true
unfolding push_task_details
second_push = refl

abbrev late : Reply
late = timeout_error (codes "t") (codes "")

push_task_details-success_example :
    ((success_of (push_task_details late (status 200)) ≡ true)
      ↔ ((late ≡ status 200) ⊎ (TimesOut late × (status 200 ≡ status 200))))
    × ((push_task_details late (status 200) ≡ none)
        ↔ (TimesOut late × ((kind : Text) × (text : Text) × (status 200 ≡ other_error kind text))))
push_task_details-success_example = push_task_details-success late (status 200)
