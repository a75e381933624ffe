-- ===== src/Node/ServiceV2/Authorised.antt =====
-- What a job has to show before prove_service/v2/main.py calls one of its two provers.
use prover.Prelude.{
  zero, suc, ◌≡◌, ◌⊎◌, inl, inr, refl, Bool, true, false, ◌&&◌, Option, none, some, Text, codes,
  arith, ap, sym, ◌∙◌, subst, Bool-cases, Option-cases, is_some, if◌then◌else◌,
}
use prover.Prelude.Int.{ℤ, pos, negsuc}
use prover.PyText.{text_eq}
use prover.Node.Status.{Check, passed, failed}
use prover.Node.Service.{World, Services, chosen_provider}
use prover.Node.Service.Authorised.{check_login-pool, is_passed, IsUnread, Checked-cases}
use prover.Node.ServiceV2.{
  Outcome, answered, escaped, stuck, Job, ServicesV2, Calls, rpc_of, process_input,
  validate_task_type_and_input, call, after_validation, after_input, prove,
}

-- An answer without a proof, or an exception.
abbrev pub HasNoProof : Outcome → Type 0
HasNoProof (answered r) = (r.proof ≡ none) × (r.project_name ≡ none)
HasNoProof escaped = Unit {0}
HasNoProof stuck = ⊥

-- Neither prover is called, and there is no proof.
abbrev pub IsRefused : ServicesV2 → ServicesV2 × Outcome → Type 0
IsRefused sv (sv', o) =
    (sv'.services.pool ≡ sv.services.pool) × (sv'.private_pool ≡ sv.private_pool) × HasNoProof o

validate-pool :
    (w : World) (method : ℤ) (template input_data name : Text) (sv : Services)
    → (validate_task_type_and_input w method template input_data name sv).0.pool ≡ sv.pool
unfolding validate_task_type_and_input
validate-pool w (pos zero) template input_data name sv =
    check_login-pool w (chosen_provider w template name) input_data sv
validate-pool w (pos (suc n)) template input_data name sv = refl
validate-pool w (negsuc zero) template input_data name sv = refl
validate-pool w (negsuc (suc n)) template input_data name sv = refl

-- The prover that a job names: circom, or private with a template that it has a procedure for.
abbrev pub is_provable : Job → Bool
is_provable job =
    if text_eq job.prover_id (codes "circom")
    then true
    else text_eq job.prover_id (codes "private") && is_some (rpc_of job.circuit_template_id)

module _ (w : World) (calls : Calls) (job : Job) where
  -- The job's input is in clear text, its task type and payload are valid, and it names a prover.
  pub record IsAuthorised (sv : ServicesV2) (input_data : Text) : Type 0 where
    pub input : process_input w job.input_data job.is_encrypted ≡ some (passed input_data)
    pub payload :
        is_passed
          (validate_task_type_and_input w job.method job.circuit_template_id input_data
            job.oauth_provider sv.services).1
        ≡ true
    pub prover : is_provable job ≡ true

  -- The state after the validation, and what it says.
  abbrev pub validated : ServicesV2 → Text → ServicesV2 × Option (Check (Option Text))
  validated sv input_data =
      let v =
        validate_task_type_and_input w job.method job.circuit_template_id input_data
          job.oauth_provider sv.services in
      (record sv { services = v.0 }, v.1)

  call-IsRefused :
      (sv sv' : ServicesV2) (input_data : Text)
      → sv'.services.pool ≡ sv.services.pool
      → sv'.private_pool ≡ sv.private_pool
      → is_provable job ≡ false
      → IsRefused sv (call w calls job input_data sv')
  unfolding call
  call-IsRefused sv sv' input_data p q h =
      elim (Bool-cases (text_eq job.prover_id (codes "circom"))) [
        | inl c ↦ absurd (ground arith)
        | inr c ↦ elim (Bool-cases (text_eq job.prover_id (codes "private"))) [
          | inr d ↦ rw (c, d, call) (p, q, (refl, refl))
          | inl d ↦ elim (Option-cases (rpc_of job.circuit_template_id)) [
            | inl e ↦ rw (c, d, e, call) (p, q, (refl, refl))
            | inr (procedure, e) ↦ absurd (ground (arith, ap is_some e))
          ]
        ]
      ]

  after_validation-IsRefused :
      (sv sv' : ServicesV2) (input_data : Text) (o : Option (Check (Option Text)))
      → sv'.services.pool ≡ sv.services.pool
      → sv'.private_pool ≡ sv.private_pool
      → (is_passed o && is_provable job) ≡ false
      → IsRefused sv (after_validation w calls job input_data sv' o)
  unfolding after_validation
  after_validation-IsRefused sv sv' input_data none p q h = (p, q, tt)
  after_validation-IsRefused sv sv' input_data (some (failed code msg)) p q h = (p, q, (refl, refl))
  after_validation-IsRefused sv sv' input_data (some (passed m)) p q h =
      call-IsRefused sv sv' input_data p q h

  after_validation-passed :
      (sv : ServicesV2) (input_data : Text) (o : Option (Check (Option Text)))
      → is_passed o ≡ true
      → after_validation w calls job input_data sv o ≡ call w calls job input_data sv
  unfolding after_validation
  after_validation-passed sv input_data none e = ground arith
  after_validation-passed sv input_data (some (failed code msg)) e = ground arith
  after_validation-passed sv input_data (some (passed m)) e = refl

  prove-read :
      (sv : ServicesV2) (input_data : Text)
      → process_input w job.input_data job.is_encrypted ≡ some (passed input_data)
      → prove w calls job sv
        ≡ after_validation w calls job input_data
            (validated sv input_data).0
            (validated sv input_data).1
  unfolding after_input prove
  prove-read sv input_data e = rw (e, prove) refl

  prove-unread :
      (sv : ServicesV2) (o : Option (Check Text))
      → process_input w job.input_data job.is_encrypted ≡ o
      → IsUnread o
      → IsRefused sv (prove w calls job sv)
  unfolding prove after_input
  prove-unread sv none e h = rw (e, prove) (refl, refl, tt)
  prove-unread sv (some (failed code msg)) e h = rw (e, prove) (refl, refl, (refl, refl))
  prove-unread sv (some (passed input_data)) e h = absurd h

  prove-validated :
      (sv : ServicesV2) (input_data : Text)
      → process_input w job.input_data job.is_encrypted ≡ some (passed input_data)
      → (IsAuthorised sv input_data
          × (prove w calls job sv ≡ call w calls job input_data (validated sv input_data).0))
        ⊎ IsRefused sv (prove w calls job sv)
  prove-validated sv input_data e =
      elim (Bool-cases (is_passed (validated sv input_data).1 && is_provable job)) [
        | inl h ↦ inl (
          record { input = e; payload = ground arith; prover = ground arith },
          prove-read sv input_data e
              ∙ after_validation-passed (validated sv input_data).0 input_data
                  (validated sv input_data).1 (ground arith),
        )
        | inr h ↦ inr (
            subst (IsRefused sv) (sym (prove-read sv input_data e)) (
              after_validation-IsRefused sv (validated sv input_data).0 input_data
                (validated sv input_data).1
                (validate-pool w job.method job.circuit_template_id input_data job.oauth_provider
                  sv.services)
                refl h))
      ]

  -- One of the two provers is called for an authorised job alone. Any other job ends without a proof
  -- and leaves the pools of both provers as they were.
  pub prove-cases :
      (sv : ServicesV2)
      → ((input_data : Text) × IsAuthorised sv input_data
          × (prove w calls job sv ≡ call w calls job input_data (validated sv input_data).0))
        ⊎ IsRefused sv (prove w calls job sv)
  prove-cases sv = elim (Checked-cases (process_input w job.input_data job.is_encrypted)) [
    | inl e ↦ inr (prove-unread sv none e tt)
    | inr (inl (code, msg, e)) ↦ inr (prove-unread sv (some (failed code msg)) e tt)
    | inr (inr (input_data, e)) ↦ elim (prove-validated sv input_data e) [
      | inl (a, q) ↦ inl (input_data, a, q)
      | inr r ↦ inr r
    ]
  ]
