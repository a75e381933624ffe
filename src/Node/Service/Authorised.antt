-- ===== src/Node/Service/Authorised.antt =====
-- What a job has to show before prove_service/v1/main.py calls the prover.
use prover.Prelude.{
  ℕ, zero, suc, ◌*◌, ◌^◌, ◌<◌, ◌≡◌, ◌⊎◌, inl, inr, refl, Bool, true, false, ◌&&◌, Option, none,
  some, List, Text, codes, arith, ap, ap₂, sym, ◌∙◌, subst, Bool-cases, Option-cases, All,
}
use prover.Dict.{lookup}
use prover.Prelude.Int.{ℤ, pos, negsuc}
use prover.PyText.{text_eq}
use prover.Node.Status.{Check, passed, failed, status_code_unauthorized_payload}
use prover.Node.OAuth.{Provider, limbs, to_circom_bigint_bytes, verify}
use prover.Node.OAuth.Verify.{IsKey, verify-rejects}
use prover.Node.Circom.{Procedure}
use prover.Node.Service.{
  World, Services, process_input, chosen_provider, check_login, validate_task_type_and_input,
}
use prover.Node.Service.Prove.{
  Outcome, answered, escaped, stuck, Job, refusal, call, after_validation, after_input, prove_with,
}

-- An answer without a proof, or an exception.
abbrev pub HasNoProof : Outcome → Type 0
HasNoProof (answered r) = (r.proof ≡ none) × (r.project_name ≡ none)
HasNoProof escaped = Unit {0}
HasNoProof stuck = ⊥

abbrev pub is_passed {ℓ} : {A : Type ℓ} → Option (Check A) → Bool
is_passed none = false
is_passed (some (passed a)) = true
is_passed (some (failed code msg)) = false

abbrev pub IsUnread : Option (Check Text) → Type 0
IsUnread none = Unit {0}
IsUnread (some (failed code msg)) = Unit {0}
IsUnread (some (passed input_data)) = ⊥

pub Checked-cases {ℓ} :
    {A : Type ℓ} (o : Option (Check A))
    → (o ≡ none)
      ⊎ (((code : ℕ) × (msg : Text) × (o ≡ some (failed code msg)))
          ⊎ ((a : A) × (o ≡ some (passed a))))
Checked-cases none = inl refl
Checked-cases (some (failed code msg)) = inr (inl (code, msg, refl))
Checked-cases (some (passed a)) = inr (inr (a, refl))

pub check_login-pool :
    (w : World) (name input_data : Text) (sv : Services)
    → (check_login w name input_data sv).0.pool ≡ sv.pool
unfolding check_login
check_login-pool w name input_data sv = elim (Option-cases (lookup name sv.providers)) [
  | inl e ↦ rw (check_login, e) refl
  | inr (p, e) ↦ rw (check_login, e) refl
]

validate-pool :
    (w : World) (method : ℤ) (template input_data name : Text) (sv : Services)
    → (validate_task_type_and_input w method template input_data name sv).0.pool ≡ sv.pool
unfolding validate_task_type_and_input
validate-pool w (pos zero) template input_data name sv =
    check_login-pool w (chosen_provider w template name) input_data sv
validate-pool w (pos (suc n)) template input_data name sv = refl
validate-pool w (negsuc zero) template input_data name sv = refl
validate-pool w (negsuc (suc n)) template input_data name sv = refl

abbrev unauthorised : Option (Check (Option Text))
unauthorised = some (
    failed status_code_unauthorized_payload (codes "Verification failed due to invalid input data"))

check_login-denied :
    (w : World) (name input_data : Text) (sv : Services) (p : Provider)
    → lookup name sv.providers ≡ some p
    → (verify p (w.fetched name) (w.modulus input_data)).1 ≡ some false
    → (check_login w name input_data sv).1 ≡ unauthorised
unfolding check_login
check_login-denied w name input_data sv p e h = rw (e, check_login, h) refl

module _ (w : World) (procedure : Procedure) (job : Job) where
  -- The job's input is in clear text, its task type and payload are valid, and its prover is circom.
  pub record IsAuthorised (sv : Services) (input_data : Text) : Type 0 where
    pub input : process_input w job.input_data job.is_encrypted ≡ some (passed input_data)
    pub payload :
        is_passed
          (validate_task_type_and_input w job.method job.circuit_template_id input_data
            job.oauth_provider sv).1
        ≡ true
    pub prover : text_eq job.prover_id (codes "circom") ≡ true

  -- The prover is not called, and there is no proof.
  abbrev pub IsRefused : Services → Services × Outcome → Type 0
  IsRefused sv (sv', o) = (sv'.pool ≡ sv.pool) × HasNoProof o

  -- The state after the validation, and what it says.
  abbrev pub validated : Services → Text → Services × Option (Check (Option Text))
  validated sv input_data =
      validate_task_type_and_input w job.method job.circuit_template_id input_data
        job.oauth_provider sv

  after_validation-IsRefused :
      (sv sv' : Services) (input_data : Text) (o : Option (Check (Option Text)))
      → sv'.pool ≡ sv.pool
      → (is_passed o && text_eq job.prover_id (codes "circom")) ≡ false
      → IsRefused sv (after_validation w procedure job input_data sv' o)
  unfolding after_validation call
  after_validation-IsRefused sv sv' input_data none q h = (q, tt)
  after_validation-IsRefused sv sv' input_data (some (failed code msg)) q h = (q, (refl, refl))
  after_validation-IsRefused sv sv' input_data (some (passed m)) q h =
      rw (h, call) (q, (refl, refl))

  prove_with-passed :
      (sv : Services) (input_data : Text)
      → process_input w job.input_data job.is_encrypted ≡ some (passed input_data)
      → prove_with w procedure job sv
        ≡ after_validation w procedure job input_data
            (validated sv input_data).0
            (validated sv input_data).1
  unfolding after_input prove_with
  prove_with-passed sv input_data e = rw (e, prove_with) refl

  prove_with-IsRefused :
      (sv : Services) (o : Option (Check Text))
      → process_input w job.input_data job.is_encrypted ≡ o
      → IsUnread o
      → IsRefused sv (prove_with w procedure job sv)
  unfolding prove_with after_input
  prove_with-IsRefused sv none e h = rw (e, prove_with) (refl, tt)
  prove_with-IsRefused sv (some (failed code msg)) e h = rw (e, prove_with) (refl, (refl, refl))
  prove_with-IsRefused sv (some (passed input_data)) e h = absurd h

  after_validation-IsAuthorised :
      (sv sv' : Services) (input_data : Text) (o : Option (Check (Option Text)))
      → is_passed o ≡ true
      → after_validation w procedure job input_data sv' o ≡ call w procedure job input_data sv'
  unfolding after_validation
  after_validation-IsAuthorised sv sv' input_data none e = ground arith
  after_validation-IsAuthorised sv sv' input_data (some (failed code msg)) e = ground arith
  after_validation-IsAuthorised sv sv' input_data (some (passed m)) e = refl

  -- The prover is called for an authorised job alone. Any other job ends without a proof, and leaves
  -- the pool of the prover as it was.
  pub prove_with-cases :
      (sv : Services)
      → ((input_data : Text) × IsAuthorised sv input_data
          × (prove_with w procedure job sv
              ≡ call w procedure job input_data (validated sv input_data).0))
        ⊎ IsRefused sv (prove_with w procedure job sv)
  prove_with-cases sv = elim (Checked-cases (process_input w job.input_data job.is_encrypted)) [
    | inl e ↦ inr (prove_with-IsRefused sv none e tt)
    | inr (inl (code, msg, e)) ↦ inr (prove_with-IsRefused sv (some (failed code msg)) e tt)
    | inr (inr (input_data, e)) ↦
        elim (Bool-cases
          (is_passed (validated sv input_data).1 && text_eq job.prover_id (codes "circom"))) [
            | inl h ↦ inl (
              input_data,
              record { input = e; payload = ground arith; prover = ground arith },
              prove_with-passed sv input_data e
                  ∙ after_validation-IsAuthorised sv (validated sv input_data).0 input_data
                      (validated sv input_data).1 (ground arith),
            )
            | inr h ↦ inr (
                subst (IsRefused sv) (sym (prove_with-passed sv input_data e)) (
                  after_validation-IsRefused sv (validated sv input_data).0 input_data
                    (validated sv input_data).1
                    (validate-pool w job.method job.circuit_template_id input_data
                      job.oauth_provider sv)
                    h))
          ]
  ]

  prove_with-denied :
      (sv : Services) (input_data : Text)
      → process_input w job.input_data job.is_encrypted ≡ some (passed input_data)
      → (validated sv input_data).1 ≡ unauthorised
      → ((prove_with w procedure job sv).1
          ≡ answered (
              refusal status_code_unauthorized_payload
                (codes "Verification failed due to invalid input data")))
        × ((prove_with w procedure job sv).0.pool ≡ sv.pool)
  unfolding after_validation
  prove_with-denied sv input_data e h =
      rw (prove_with-passed sv input_data e, h)
        (refl, validate-pool w job.method job.circuit_template_id input_data job.oauth_provider sv)

  -- A login is turned down with the code for an unauthorised payload, and the pool of the prover is left
  -- as it was, if its input can be read, the limbs in it are those of a modulus `m`, its provider holds
  -- keys and its fetch succeeds, `m` and all these keys fit into the limbs, and `m` is none of them.
  pub prove_with-needs_key :
      (sv : Services) (input_data : Text) (n k m : ℕ) (held fetched : List ℕ)
      → job.method ≡ pos 0
      → process_input w job.input_data job.is_encrypted ≡ some (passed input_data)
      → lookup (chosen_provider w job.circuit_template_id job.oauth_provider) sv.providers
        ≡ some (record { circom_bigint_n = n; circom_bigint_k = k; jwks = some held })
      → w.fetched (chosen_provider w job.circuit_template_id job.oauth_provider) ≡ some fetched
      → w.modulus input_data ≡ limbs (to_circom_bigint_bytes n k m)
      → m < 2 ^ (k * n)
      → All (λ key. key < 2 ^ (k * n)) held
      → All (λ key. key < 2 ^ (k * n)) fetched
      → ¬ (IsKey m held ⊎ IsKey m fetched)
      → ((prove_with w procedure job sv).1
          ≡ answered (
              refusal status_code_unauthorized_payload
                (codes "Verification failed due to invalid input data")))
        × ((prove_with w procedure job sv).0.pool ≡ sv.pool)
  unfolding validate_task_type_and_input
  prove_with-needs_key sv input_data n k m held fetched z e found got limbs_of b bs bs' foreign =
      let name = chosen_provider w job.circuit_template_id job.oauth_provider in
      let p : Provider = record { circom_bigint_n = n; circom_bigint_k = k; jwks = some held } in
      let denied = check_login-denied w name input_data sv p found (
        ap₂ (λ f l. (verify p f l).1) got limbs_of
        ∙ verify-rejects n k m held fetched b bs bs' foreign) in
      let invalid =
        ap
          (λ o.
            (validate_task_type_and_input w o job.circuit_template_id input_data job.oauth_provider
              sv).1)
          z
        ∙ denied in
      prove_with-denied sv input_data e invalid
