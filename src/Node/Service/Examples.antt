-- ===== src/Node/Service/Examples.antt =====
-- A login with a key that is none of the provider's, and the cases of a job.
use prover.Prelude.{
  ◌≡◌, ◌⊎◌, inl, inr, refl, false, none, some, [], ◌∷◌, Text, codes, arith, text_discrete,
}
use prover.Prelude.Int.{pos}
use prover.Dict.{lookup}
use prover.Node.Status.{status_code_unauthorized_payload}
use prover.Node.OAuth.{Provider, limbs, to_circom_bigint_bytes, resolve_provider}
use prover.Node.OAuth.Verify.{IsKey}
use prover.Node.Rpc.{response}
use prover.Node.Circom.{rpc_nosha256}
use prover.Node.Service.{World, Services, process_input, chosen_provider}
use prover.Node.Service.Prove.{answered, Job, refusal, call, prove_with}
use prover.Node.Service.Authorised.{
  IsAuthorised, IsRefused, validated, prove_with-cases, prove_with-needs_key,
}

abbrev world : World
world = record {
  private_key = none;
  modulus = λ s. limbs (to_circom_bigint_bytes 2 2 3);
  modules = λ s. some false;
  fetched = λ s. some (11 ∷ []);
  template_provider_map = [];
  projects = [];
  last_public = λ s. some s;
  calls = λ r n. response (record { code = pos 0; msg = []; proof = codes "p"; witness = [] });
  error_text = λ c. [];
  duration = 12;
}

abbrev google : Provider
google = record { circom_bigint_n = 2; circom_bigint_k = 2; jwks = some (5 ∷ []) }

abbrev services : Services
services = record {
  providers = (codes "google", google) ∷ [];
  pool = record { max_connections = 1; queue = []; created = 0; closed = false; waiting = 0 };
}

abbrev job : Job
job = record {
  method = pos 0;
  prover_id = codes "circom";
  circuit_template_id = codes "20001";
  input_data = codes "in";
  is_encrypted = false;
  length = 2;
  oauth_provider = codes "google";
}

foreign : ¬ (IsKey 3 (5 ∷ []) ⊎ IsKey 3 (11 ∷ []))
foreign (inl (inl e)) = ground arith
foreign (inl (inr x)) = absurd x
foreign (inr (inl e)) = ground arith
foreign (inr (inr x)) = absurd x

prove_with-needs_key_example :
    ((prove_with world rpc_nosha256 job services).1
      ≡ answered (
          refusal status_code_unauthorized_payload
            (codes "Verification failed due to invalid input data")))
    × ((prove_with world rpc_nosha256 job services).0.pool ≡ services.pool)
unfolding process_input chosen_provider resolve_provider lookup text_discrete
prove_with-needs_key_example =
    prove_with-needs_key world rpc_nosha256 job services (codes "in") 2 2 3 (5 ∷ []) (11 ∷ []) refl
      refl refl refl refl (omega arith) (omega arith, tt) (omega arith, tt) foreign

prove_with-cases_example :
    ((input_data : Text) × IsAuthorised world rpc_nosha256 job services input_data
      × (prove_with world rpc_nosha256 job services
          ≡ call world rpc_nosha256 job input_data
              (validated world rpc_nosha256 job services input_data).0))
    ⊎ IsRefused world rpc_nosha256 job services (prove_with world rpc_nosha256 job services)
prove_with-cases_example = prove_with-cases world rpc_nosha256 job services
