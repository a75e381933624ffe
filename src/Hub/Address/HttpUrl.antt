-- ===== src/Hub/Address/HttpUrl.antt =====
-- Which HTTP addresses `_validate_http_address` of node/api.py accepts.
use prover.Prelude.{
  ℕ, ◌≤◌, ◌≡◌, ◌↔◌, inl, inr, refl, Bool-cases, if◌then◌else◌, ◌==◌, true, false, ◌||◌, none, some,
  Text, codes, is_empty, arith, Option-cases,
}
use prover.PyText.{strip, text_eq}
use prover.Hub.Address.{
  Net, Url, UrlPort, no_port, port_number, port_error, Allowed, host_allowed, is_set,
  effective_port, check_http, check_url, validate_http_address,
}

-- No port, or a port from 0 to 65535.
abbrev pub HasPort : UrlPort → Type 0
HasPort no_port = Unit
HasPort (port_number n) = n ≤ 65535
HasPort port_error = ⊥

module _ (net : Net) (allowed : Allowed) where
  -- A URL of a web server alone: nothing but scheme, host and port, and a host that is allowed.
  pub record IsServer (url : Url) : Type 0 where
    pub host : Text
    pub hostname : url.hostname ≡ some host
    pub nonempty : is_empty host ≡ false
    pub scheme : (text_eq url.scheme (codes "http") || text_eq url.scheme (codes "https")) ≡ true
    pub no_userinfo : (is_set net url.username || is_set net url.password) ≡ false
    pub bare_path : (is_empty url.path || text_eq url.path (codes "/")) ≡ true
    pub no_query : is_empty url.query ≡ true
    pub no_fragment : is_empty url.fragment ≡ true
    pub port : HasPort url.port
    pub is_allowed : host_allowed net allowed host ≡ true

  effective_port-HasPort :
      (url : Url) (port : UrlPort) (p : ℕ)
      → url.port ≡ port
      → effective_port net url ≡ some p
      → p ≤ 65535
      → HasPort port
  unfolding effective_port
  effective_port-HasPort url no_port p q e h = tt
  effective_port-HasPort url (port_number n) p q e h = ground arith
  effective_port-HasPort url port_error p q e h = absurd (ground arith)

  default_port :
      (url : Url)
      → effective_port net url ≡ some (if text_eq url.scheme (codes "https") then 443 else 80)
      → (p : ℕ) × (effective_port net url ≡ some p) × (1 ≤ p) × (p ≤ 65535)
  default_port url e = elim (Bool-cases (text_eq url.scheme (codes "https"))) [
    | inl s ↦ (443, ground arith, omega arith, omega arith)
    | inr s ↦ (80, ground arith, omega arith, omega arith)
  ]

  HasPort-effective_port :
      (url : Url) (port : UrlPort)
      → url.port ≡ port
      → HasPort port
      → (p : ℕ) × (effective_port net url ≡ some p) × (1 ≤ p) × (p ≤ 65535)
  unfolding effective_port
  HasPort-effective_port url no_port q h = default_port url (ground arith)
  HasPort-effective_port url (port_number n) q h = elim (Bool-cases (n == 0)) [
    | inl e ↦ default_port url (ground arith)
    | inr e ↦ (n, ground arith, ground arith, h)
  ]
  HasPort-effective_port url port_error q h = absurd h

  check_http-IsServer :
      (url : Url) (host : Text)
      → url.hostname ≡ some host
      → is_empty host ≡ false
      → (text_eq url.scheme (codes "http") || text_eq url.scheme (codes "https")) ≡ true
      → check_http net allowed url host ≡ none
      → IsServer url
  unfolding check_http
  check_http-IsServer url host h n s ok = elim (Option-cases (effective_port net url)) [
    | inl e ↦ absurd (ground arith)
    | inr (p, e) ↦ record {
      host = host;
      hostname = h;
      nonempty = n;
      scheme = s;
      no_userinfo = ground arith;
      bare_path = ground arith;
      no_query = ground arith;
      no_fragment = ground arith;
      port = effective_port-HasPort url url.port p refl e (ground arith);
      is_allowed = ground arith;
    }
  ]

  validate_http_address_sound :
      (address : Text)
      → validate_http_address net allowed address ≡ none
      → (url : Url) × (net.urlparse (strip address) ≡ some url) × IsServer url
  unfolding validate_http_address check_url
  validate_http_address_sound address ok = elim (Option-cases (net.urlparse (strip address))) [
    | inl e ↦ absurd (ground arith)
    | inr (url, e) ↦ elim (Option-cases url.hostname) [
      | inl h ↦ absurd (ground arith)
      | inr (host, h) ↦
          (url, e, check_http-IsServer url host h (ground arith) (ground arith) (ground arith))
    ]
  ]

  check_http_complete : (url : Url) (u : IsServer url) → check_http net allowed url u.host ≡ none
  unfolding check_http
  check_http_complete url u =
      let (p, e, low, high) = HasPort-effective_port url url.port refl u.port in
      ground
        (arith, u.no_userinfo, u.bare_path, u.no_query, u.no_fragment, e, low, high, u.is_allowed)

  validate_http_address_complete :
      (address : Text) (url : Url)
      → net.urlparse (strip address) ≡ some url
      → IsServer url
      → validate_http_address net allowed address ≡ none
  unfolding validate_http_address check_url
  validate_http_address_complete address url e u =
      ground (arith, e, u.hostname, u.nonempty, u.scheme, check_http_complete url u)

  -- An address is accepted exactly if `urlparse` reads its stripped text as a URL of a web server
  -- alone: the scheme http or https, a host that is allowed, a port that is missing, 0, or in 1 to
  -- 65535, and no user, path, query or fragment.
  pub validate_http_address-IsServer :
      (address : Text)
      → (validate_http_address net allowed address ≡ none)
        ↔ ((url : Url) × (net.urlparse (strip address) ≡ some url) × IsServer url)
  validate_http_address-IsServer address = (
    λ h. validate_http_address_sound address h,
    λ (url, e, u). validate_http_address_complete address url e u,
  )
