-- ===== src/Node/Heartbeat/Examples.antt =====
-- Two heartbeats of the node that the hub's examples register.
use prover.Prelude.{ℕ, ◌+◌, ◌≤◌, ◌≡◌, refl, some, [], codes, text_discrete, All, length}
use prover.PyText.{
  strip, lower, rstrip_dots, starts_with, ends_with, int_of, split_first, split_last,
}
use prover.Dict.{lookup}
use prover.Hub.Address.{host_allowed, validate_grpc_address, validate_http_address, split_host_port}
use prover.Hub.NodeList.{init, update_node_list, generate_unique}
use prover.Hub.NodeList.Listing.{timestamp_of}
use prover.Hub.Register.{plain, hub_post_node}
use prover.Hub.Register.Stages.{accepted}
use prover.Hub.Register.Examples.{identity, net, world, grpc_address, http_address}
use prover.Node.Heartbeat.{NodeWorld, start, send_heartbeat}
use prover.Node.Heartbeat.Registered.{request_of, IsAgreed, hub_post_node-send_heartbeat}

-- The examples' hub takes a text for its own seal.
abbrev node : NodeWorld
node = record {
  node_register_token = [];
  environment_token = codes "secret";
  session_key = some (λ s. some s);
  grpc = grpc_address;
  http = http_address;
}

node-IsAgreed : IsAgreed net world node identity
unfolding strip lower starts_with rstrip_dots ends_with int_of split_first split_last host_allowed
    validate_grpc_address validate_http_address split_host_port text_discrete
node-IsAgreed = record {
  session = refl;
  decrypt = λ s. plain s;
  key = refl;
  opens = λ s. refl;
  token_set = refl;
  token_ascii = refl;
  token_same = refl;
  grpc_nonempty = refl;
  http_nonempty = refl;
  grpc_valid = refl;
  http_valid = refl;
  reachable = refl;
}

hub_post_node-send_heartbeat_example :
    All
      (λ b.
        (hub_post_node identity net world (request_of b) init
          ≡ accepted identity net world grpc_address http_address init)
        × ((t : ℕ)
            → t ≤ 40 + 600
            → timestamp_of (
                lookup
                  (generate_unique identity grpc_address http_address)
                  (update_node_list t
                    (hub_post_node identity net world (request_of b) init).0).nodes)
              ≡ some 40))
      (send_heartbeat 2 (start node))
    × (length (send_heartbeat 2 (start node)) ≡ 2)
hub_post_node-send_heartbeat_example =
    hub_post_node-send_heartbeat identity net world node identity 2 init node-IsAgreed tt
