-- ===== src/Node/GrpcV1/Examples.antt =====
-- A gRPC request for the task of the HTTP examples.
use prover.Prelude.{codes, false, []}
use prover.Prelude.Int.{negsuc}
use prover.Node.Circom.{rpc_nosha256}
use prover.Node.HttpV1.{handle}
use prover.Node.GrpcV1.{GrpcRequest, handle_message}
use prover.Node.GrpcV1.SameWork.{http_request, IsSameWork, handle_message-IsSameWork}
use prover.Node.HttpV1.Examples.{world, hub, state}

abbrev request : GrpcRequest
request = record {
  base_request = record {
    prover_id = codes "circom";
    circuit_template_id = codes "10006";
    input_data = codes "in";
    is_encrypted = false;
  };
  length = 4;
  method = negsuc 0;
  oauth_provider = [];
  proof_hash = codes "h";
}

handle_message-IsSameWork_example :
    IsSameWork rpc_nosha256
      (handle world hub rpc_nosha256 10 20 (http_request request) state)
      (handle_message world hub rpc_nosha256 10 20 request state)
handle_message-IsSameWork_example =
    handle_message-IsSameWork world hub rpc_nosha256 10 20 request state
