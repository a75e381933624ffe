-- ===== src/Hub/Address/Examples.antt =====
-- The gRPC addresses of hosts that are on the list.
use prover.Prelude.{
  ◌≡◌, ◌↔◌, ◌≤◌, refl, true, false, none, some, [], ◌∷◌, ◌++◌, Text, codes, arith, text_discrete,
}
use prover.Prelude.Decimal.{decimal}
use prover.PyText.{is_space, strip, lower, rstrip_dots, starts_with, ends_with}
use prover.Hub.Address.HttpUrl.{IsServer, validate_http_address-IsServer}
use prover.Hub.Address.{
  validate_http_address, Net, Url, no_port, Allowed, host_allowed, validate_grpc_address,
}
use prover.Hub.Address.Grpc.{validate_grpc_address-plain, validate_grpc_address-bracketed}

abbrev url : Url
url = record {
  scheme = codes "http";
  hostname = some (codes "n.example.com");
  username = none;
  password = none;
  path = [];
  query = [];
  fragment = [];
  port = no_port;
}

abbrev net : Net
net = record {
  Address = Text;
  Network = Text;
  ip_address = λ s. none;
  ip_network = λ s. none;
  is_in = λ a n. false;
  is_private = λ a. false;
  is_loopback = λ a. false;
  is_link_local = λ a. false;
  is_multicast = λ a. false;
  is_reserved = λ a. false;
  is_unspecified = λ a. false;
  urlparse = λ s. some url;
}

abbrev allowed : Allowed
allowed = record { hosts = codes "*.example.com" ∷ codes "::1" ∷ []; cidrs = [] }

validate_grpc_address-plain_example :
    (validate_grpc_address net allowed (codes "n.example.com" ++ b':' ∷ decimal 9000) ≡ none)
    ↔ ((1 ≤ 9000) × (9000 ≤ 65535) × (host_allowed net allowed (codes "n.example.com") ≡ true))
unfolding is_space
validate_grpc_address-plain_example =
    validate_grpc_address-plain net allowed (codes "n.example.com") 9000 (ground arith)

validate_grpc_address-bracketed_example :
    (validate_grpc_address net allowed (b'[' ∷ codes "::1" ++ b']' ∷ b':' ∷ decimal 9000) ≡ none)
    ↔ ((1 ≤ 9000) × (9000 ≤ 65535) × (host_allowed net allowed (codes "::1") ≡ true))
unfolding is_space
validate_grpc_address-bracketed_example =
    validate_grpc_address-bracketed net allowed (codes "::1") 9000 (ground arith)

-- A wildcard admits the hosts below its domain, and not the domain itself.
wildcard : host_allowed net allowed (codes "N.Example.com.") ≡ true
unfolding host_allowed rstrip_dots lower strip starts_with ends_with text_discrete
wildcard = refl

wildcard_only_below : host_allowed net allowed (codes "example.com") ≡ false
unfolding host_allowed rstrip_dots lower strip starts_with ends_with text_discrete
wildcard_only_below = refl

validate_http_address-IsServer_example :
    (validate_http_address net allowed (codes "http://n.example.com") ≡ none) ↔ (
      (u : Url) × (net.urlparse (strip (codes "http://n.example.com")) ≡ some u)
      × IsServer net allowed u)
validate_http_address-IsServer_example =
    validate_http_address-IsServer net allowed (codes "http://n.example.com")
