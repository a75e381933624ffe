-- ===== src/Hub/Register/Examples.antt =====
-- A registration with the right token, and one with a wrong token.
use prover.Prelude.{◌≡◌, ◌⊎◌, refl, true, false, none, some, [], ◌∷◌, Text, codes, text_discrete}
use prover.PyText.{
  strip, lower, rstrip_dots, starts_with, ends_with, int_of, split_first, split_last,
}
use prover.Hub.Address.{
  host_allowed, validate_grpc_address, validate_http_address, split_host_port, Net, Url, no_port,
}
use prover.Hub.Http.{ok, status_of}
use prover.Hub.NodeList.{init}
use prover.Hub.Register.{
  plain, encryptor, pinged, Request, World, extract_node_register_token, compare_digest,
  hub_post_node,
}
use prover.Hub.Register.Stages.{Accepts, accepted, IsRefused}
use prover.Hub.Register.Soundness.{hub_post_node-cases}

abbrev pub identity : Text → Text
identity s = s

abbrev url : Url
url = record {
  scheme = codes "http";
  hostname = some (codes "n.example.com");
  username = none;
  password = none;
  path = [];
  query = [];
  fragment = [];
  port = no_port;
}

abbrev pub net : Net
net = record {
  Address = Text;
  Network = Text;
  ip_address = λ s. none;
  ip_network = λ s. none;
  is_in = λ a n. false;
  is_private = λ a. false;
  is_loopback = λ a. false;
  is_link_local = λ a. false;
  is_multicast = λ a. false;
  is_reserved = λ a. false;
  is_unspecified = λ a. false;
  urlparse = λ s. some url;
}

abbrev pub world : World
world = record {
  node_register_token = codes " secret ";
  allowed = record { hosts = codes "*.example.com" ∷ []; cidrs = [] };
  key = encryptor (λ s. plain s);
  pings = λ g h. pinged true true;
  now = 40;
}

abbrev pub grpc_address : Text
grpc_address = codes "n.example.com:9000"

abbrev pub http_address : Text
http_address = codes "http://n.example.com"

abbrev bearer : Request
bearer = record {
  authorization = codes "Bearer secret";
  node_token = [];
  grpc_info = grpc_address;
  http_info = http_address;
}

bearer-Accepts : Accepts identity net world bearer grpc_address http_address
unfolding extract_node_register_token compare_digest host_allowed rstrip_dots lower strip
    starts_with ends_with text_discrete validate_grpc_address validate_http_address split_host_port
    int_of split_first split_last
bearer-Accepts = record {
  configured = refl;
  presented = refl;
  matches = refl;
  grpc_text = refl;
  http_text = refl;
  grpc_nonempty = refl;
  http_nonempty = refl;
  grpc_valid = refl;
  http_valid = refl;
  reachable = refl;
}

abbrev wrong : Request
wrong = record bearer { authorization = codes "Bearer guess" }

hub_post_node-cases_example :
    ((g : Text) × (h : Text) × Accepts identity net world wrong g h
      × (hub_post_node identity net world wrong init ≡ accepted identity net world g h init)
      × (status_of (hub_post_node identity net world wrong init).1 ≡ ok))
    ⊎ IsRefused init (hub_post_node identity net world wrong init)
hub_post_node-cases_example = hub_post_node-cases identity net world wrong init
