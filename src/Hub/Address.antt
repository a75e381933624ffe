-- ===== src/Hub/Address.antt =====
-- The checks of a node's addresses in hub/src/application/api/v1/hub/node/api.py. The modules
-- `ipaddress` and `urllib.parse` are parameters: what they make of a text.
pub mod Grpc
pub mod HttpUrl
mod Examples
use prover.Prelude.{
  ℕ, ◌≡◌, refl, Bool, true, false, not, ◌&&◌, ◌||◌, Option, none, some, List, [], ◌∷◌, Text, codes,
  leb, ltb, ◌==◌, if◌then◌else◌, is_empty, any, drop,
}
use prover.Prelude.Int.{ℤ, pos, negsuc, ltb_ℤ}
use prover.PyText.{
  strip, lower, rstrip_dots, starts_with, ends_with, text_eq, split_first, split_last, int_of,
}

-- What `urlparse` finds in a text. The port is absent, a number, or one whose reading raises.
pub data UrlPort : Type 0 where
  no_port : UrlPort
  port_number : ℕ → UrlPort
  port_error : UrlPort

pub record Url : Type 0 where
  pub scheme : Text
  pub hostname : Option Text
  pub username : Option Text
  pub password : Option Text
  pub path : Text
  pub query : Text
  pub fragment : Text
  pub port : UrlPort

-- What the standard library says of addresses: `ip_address` and `ip_network(…, strict=False)`,
-- where `none` is a `ValueError`; membership; the flags of an address; and `urlparse`.
pub record Net : Type 1 where
  pub Address : Type 0
  pub Network : Type 0
  pub ip_address : Text → Option Address
  pub ip_network : Text → Option Network
  pub is_in : Address → Network → Bool
  pub is_private : Address → Bool
  pub is_loopback : Address → Bool
  pub is_link_local : Address → Bool
  pub is_multicast : Address → Bool
  pub is_reserved : Address → Bool
  pub is_unspecified : Address → Bool
  pub urlparse : Text → Option Url

-- `config.Security.allowed_node_hosts` and `allowed_node_cidrs`.
pub record Allowed : Type 0 where
  pub hosts : List Text
  pub cidrs : List Text

-- The messages of the checks, without the text of a `ValueError`.
pub data AddressError : Type 0 where
  grpc_malformed grpc_port_range grpc_host : AddressError
  http_malformed http_scheme http_no_host http_userinfo http_path : AddressError
  http_port_malformed http_port_range http_host : AddressError

-- One round of the loop of `_hostname_allowed`: whether this host of the list admits the name.
unfoldable pub candidate_allows : Text → Text → Bool
candidate_allows normalized allowed_host =
    let candidate = rstrip_dots (lower (strip allowed_host)) in
    if is_empty candidate
    then false
    else if starts_with (codes "*.") candidate
    then ends_with (drop 1 candidate) normalized
    else if starts_with (codes ".") candidate
    then ends_with candidate normalized
    else text_eq normalized candidate

unfoldable pub hostname_allowed : List Text → Text → Bool
unfolding candidate_allows
hostname_allowed hosts hostname =
    any (candidate_allows (rstrip_dots (lower (strip hostname)))) hosts

-- `[host]:port`, after the bracket that opens it; `none` is the `ValueError`.
unfoldable pub split_bracketed : Text → Option (Text × Text)
split_bracketed rest = elim (split_first b']' rest) [
  | none ↦ none
  | some (host, after) ↦ elim after [
    | [] ↦ none
    | c ∷ port ↦ if c == b':' then some (host, port) else none
  ]
]

unfoldable pub split_plain : Text → Option (Text × Text)
split_plain target = elim (split_last b':' target) [
  | none ↦ none
  | some (host, port) ↦ if is_empty host then none else some (host, port)
]

-- `_split_host_port` of the stripped text.
unfoldable pub split_target : Text → Option (Text × Text)
unfolding split_bracketed split_plain
split_target [] = split_plain []
split_target (c ∷ cs) = if c == b'[' then split_bracketed cs else split_plain (c ∷ cs)

unfoldable pub split_host_port : Text → Option (Text × Text)
unfolding split_target
split_host_port value = split_target (strip value)

module _ (net : Net) where
  open net use {Address, Network, ip_address, ip_network, is_in, urlparse}

  -- `_load_allowed_node_cidrs`: what is no network is skipped.
  unfoldable pub load_cidrs : List Text → List Network
  load_cidrs [] = []
  load_cidrs (cidr ∷ cidrs) = elim (ip_network cidr) [
    | none ↦ load_cidrs cidrs
    | some n ↦ n ∷ load_cidrs cidrs
  ]

  -- The six flags of which `_host_allowed` takes `any`.
  abbrev pub is_internal : Address → Bool
  is_internal ip =
      net.is_private ip
      || net.is_loopback ip
      || net.is_link_local ip
      || net.is_multicast ip
      || net.is_reserved ip
      || net.is_unspecified ip

  unfoldable pub ip_allowed : List Network → Address → Bool
  ip_allowed networks ip = any (is_in ip) networks || not (is_internal ip)

  unfoldable pub host_allowed : Allowed → Text → Bool
  unfolding ip_allowed hostname_allowed load_cidrs
  host_allowed allowed host =
      let normalized = rstrip_dots (lower (strip host)) in
      if is_empty normalized then false else (elim (ip_address normalized) [
        | none ↦ hostname_allowed allowed.hosts normalized
        | some ip ↦ ip_allowed (load_cidrs allowed.cidrs) ip
      ])

  -- The port of `_validate_grpc_address`, and then its host.
  unfoldable pub check_grpc : Allowed → Text → ℤ → Option AddressError
  check_grpc allowed host port =
      if ltb_ℤ port (pos 1) || ltb_ℤ (pos 65535) port
      then some grpc_port_range
      else if not (host_allowed allowed host)
      then some grpc_host
      else none

  -- `_validate_grpc_address`: `none` is an address in order.
  unfoldable pub validate_grpc_address : Allowed → Text → Option AddressError
  unfolding check_grpc
  validate_grpc_address allowed address = elim (split_host_port address) [
    | none ↦ some grpc_malformed
    | some (host, port_text) ↦ elim (int_of port_text) [
      | none ↦ some grpc_malformed
      | some port ↦ check_grpc allowed host port
    ]
  ]

  abbrev pub is_set : Option Text → Bool
  is_set none = false
  is_set (some s) = not (is_empty s)

  -- `parsed.port or (443 if parsed.scheme == "https" else 80)`; `none` is the `ValueError`.
  unfoldable pub effective_port : Url → Option ℕ
  effective_port url =
      let default : ℕ = if text_eq url.scheme (codes "https") then 443 else 80 in
      elim url.port [
        | no_port ↦ some default
        | port_number n ↦ if n == 0 then some default else some n
        | port_error ↦ none
      ]

  -- `_validate_http_address`, once the text is parsed and its host is there.
  unfoldable pub check_http : Allowed → Url → Text → Option AddressError
  unfolding effective_port
  check_http allowed url hostname =
      if is_set url.username || is_set url.password
      then some http_userinfo
      else if (not (is_empty url.path || text_eq url.path (codes "/")))
          || not (is_empty url.query)
          || not (is_empty url.fragment)
      then some http_path
      else (elim (effective_port url) [
        | none ↦ some http_port_malformed
        | some port ↦
            if ltb port 1 || ltb 65535 port
            then some http_port_range
            else if not (host_allowed allowed hostname)
            then some http_host
            else none
      ])

  unfoldable pub check_url : Allowed → Url → Option AddressError
  unfolding check_http
  check_url allowed url =
      if not (text_eq url.scheme (codes "http") || text_eq url.scheme (codes "https"))
      then some http_scheme
      else (elim url.hostname [
        | none ↦ some http_no_host
        | some hostname ↦
            if is_empty hostname then some http_no_host else check_http allowed url hostname
      ])

  unfoldable pub validate_http_address : Allowed → Text → Option AddressError
  unfolding check_url
  validate_http_address allowed address = elim (urlparse (strip address)) [
    | none ↦ some http_malformed
    | some url ↦ check_url allowed url
  ]
