-- ===== src/Hub/Push/Retry.antt =====
-- When a push of http_server/main.py succeeds.
use prover.Prelude.{
  ◌≡◌, ◌≢◌, ◌↔◌, ◌⊎◌, inl, inr, refl, Bool, true, false, Option, none, some, Text, arith, ap,
}
use prover.Hub.Push.{
  Reply, status, timeout_error, other_error, PushDetails, push_again, push_task_details,
}

-- The request ends in a timeout.
abbrev pub TimesOut : Reply → Type 0
TimesOut r = (kind : Text) × (text : Text) × (r ≡ timeout_error kind text)

abbrev pub success_of : Option PushDetails → Bool
success_of none = false
success_of (some d) = d.success

push_again-success : (again : Reply) → (success_of (push_again again) ≡ true) ↔ (again ≡ status 200)
unfolding push_again
push_again-success (status s) = (λ h. ap status (ground arith), λ h. ground arith)
push_again-success (timeout_error kind text) = (λ h. ground arith, λ h. cc)
push_again-success (other_error kind text) = (λ h. ground arith, λ h. cc)

some-ne-none : {d : PushDetails} → some d ≢ none
some-ne-none e = cc

push_again-none :
    (again : Reply)
    → (push_again again ≡ none) ↔ ((kind : Text) × (text : Text) × (again ≡ other_error kind text))
unfolding push_again
push_again-none (status s) = (λ h. absurd (some-ne-none h), λ (kind, text, e). cc)
push_again-none (timeout_error kind text) = (λ h. absurd (some-ne-none h), λ (k, t, e). cc)
push_again-none (other_error kind text) = (λ h. (kind, text, refl), λ h. refl)

-- A push counts as a success exactly if the node answers the status 200 at once, or answers it when
-- it is asked again after a timeout; and no exception escapes unless the repetition after a timeout
-- fails with an error other than a timeout.
pub push_task_details-success :
    (first again : Reply)
    → ((success_of (push_task_details first again) ≡ true)
        ↔ ((first ≡ status 200) ⊎ (TimesOut first × (again ≡ status 200))))
      × ((push_task_details first again ≡ none)
          ↔ (TimesOut first × ((kind : Text) × (text : Text) × (again ≡ other_error kind text))))
unfolding push_task_details
push_task_details-success (status s) again = (
  (
    λ h. inl (ap status (ground arith)),
    λ d. elim d [ inl e ↦ ground arith | inr ((k, t, e), f) ↦ cc ],
  ),
  (λ h. absurd (some-ne-none h), λ ((k, t, e), f). cc),
)
push_task_details-success (timeout_error kind text) again =
    let (a, b) = push_again-success again in
    let (c, d) = push_again-none again in
    (
      (λ h. inr ((kind, text, refl), a h), λ x. elim x [ inl e ↦ cc | inr (t, f) ↦ b f ]),
      (λ h. ((kind, text, refl), c h), λ (t, f). d f),
    )
push_task_details-success (other_error kind text) again = (
  (λ h. ground arith, λ d. elim d [ inl e ↦ cc | inr ((k, t, e), f) ↦ cc ]),
  (λ h. absurd (some-ne-none h), λ ((k, t, e), f). cc),
)
