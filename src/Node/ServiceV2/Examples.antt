-- ===== src/Node/ServiceV2/Examples.antt =====
-- A job for the private prover, whose template it has a procedure for.
use prover.Prelude.{◌≡◌, ◌⊎◌, false, [], Text, codes}
use prover.Prelude.Int.{pos, negsuc}
use prover.Node.Rpc.{response}
use prover.Node.HttpV1.Examples.{world, state}
use prover.Node.ServiceV2.{Job, ServicesV2, Calls, call, prove}
use prover.Node.ServiceV2.Authorised.{IsAuthorised, IsRefused, validated, prove-cases}

abbrev pub calls : Calls
calls r n = response (record {
  code = pos 0;
  msg = [];
  proof = codes "p";
  proof_solidity = [];
  proof_bytes = [];
  public_witness = codes "w";
  public_witness_bytes = [];
})

abbrev pub services : ServicesV2
services = record {
  services = state.services;
  private_pool = record {
    max_connections = 1;
    queue = [];
    created = 0;
    closed = false;
    waiting = 0;
  };
}

abbrev job : Job
job = record {
  method = negsuc 0;
  prover_id = codes "private";
  circuit_template_id = codes "10010";
  input_data = codes "in";
  is_encrypted = false;
  length = 4;
  oauth_provider = codes "google";
}

prove-cases_example :
    ((input_data : Text) × IsAuthorised world calls job services input_data
      × (prove world calls job services
          ≡ call world calls job input_data (validated world calls job services input_data).0))
    ⊎ IsRefused services (prove world calls job services)
prove-cases_example = prove-cases world calls job services
