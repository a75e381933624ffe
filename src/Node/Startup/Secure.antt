-- ===== src/Node/Startup/Secure.antt =====
-- Which servers of the node listen without TLS.
use prover.Prelude.{
  ◌≡◌, inl, inr, refl, Bool, true, false, Option, none, some, [], Text, is_empty, not, ◌∷◌, ◌∙◌, ap,
  arith, Bool-cases,
}
use prover.PyText.{strip, lstrip_by, rstrip_by}
use prover.Tls.{normalize_path, load_pem_bytes}
use prover.Node.Startup.{
  TlsConfig, Runner, run, both, check_grpc, check_http, credentials, GrpcPort, secure_port,
  insecure_port, HttpPort, https_port, http_port, runner_of, grpc_runner, http_runner, grpc_start,
  http_start, build, serve,
}

-- A path of nothing but white space.
abbrev pub is_blank : Text → Bool
is_blank path = is_empty (strip path)

abbrev is_plain : Option GrpcPort → Bool
is_plain none = false
is_plain (some insecure_port) = true
is_plain (some (secure_port key cert)) = false

credentials-IsSecure : (key cert : Option (Option Text)) → is_plain (credentials key cert) ≡ false
credentials-IsSecure none cert = refl
credentials-IsSecure (some key) none = refl
credentials-IsSecure (some key) (some cert) = refl

module _ (abspath : Text → Text) (read : Text → Option Text) where
  normalize_path-blank :
      (path : Text) → is_blank path ≡ true → normalize_path abspath (some path) ≡ none
  unfolding normalize_path
  normalize_path-blank [] h = refl
  normalize_path-blank (x ∷ xs) h = rw h refl

  normalize_path-named :
      (path : Text)
      → is_blank path ≡ false
      → normalize_path abspath (some path) ≡ some (abspath (strip path))
  unfolding normalize_path strip lstrip_by rstrip_by
  normalize_path-named [] h = ground (arith, h)
  normalize_path-named (x ∷ xs) h = rw h refl

  -- How the servers start: not at all, both without TLS, or HTTP with TLS and gRPC with TLS or with
  -- an exception.
  pub data IsGuarded (c : TlsConfig) : Type 0 where
    refused_half :
        is_blank c.tls_certfile ≡ not (is_blank c.tls_keyfile)
        → serve abspath read c ≡ none
        → IsGuarded c
    refused_missing :
        is_blank c.tls_certfile ≡ true
        → is_blank c.tls_keyfile ≡ true
        → c.require_tls ≡ true
        → serve abspath read c ≡ none
        → IsGuarded c
    plain :
        is_blank c.tls_certfile ≡ true
        → is_blank c.tls_keyfile ≡ true
        → c.require_tls ≡ false
        → serve abspath read c ≡ some (some insecure_port, some http_port)
        → IsGuarded c
    secure :
        (g : Option GrpcPort)
        → is_blank c.tls_certfile ≡ false
        → is_blank c.tls_keyfile ≡ false
        → is_plain g ≡ false
        → serve abspath read c
          ≡ some (
            g,
            some (https_port (abspath (strip c.tls_certfile)) (abspath (strip c.tls_keyfile))),
          )
        → IsGuarded c

  runner : Option Text → Option Text → Bool → Runner
  runner cert key require = record { tls_certfile = cert; tls_keyfile = key; require_tls = require }

  runner_of-eq :
      (c : TlsConfig) (cert key : Option Text) (require : Bool)
      → normalize_path abspath (some c.tls_certfile) ≡ cert
      → normalize_path abspath (some c.tls_keyfile) ≡ key
      → c.require_tls ≡ require
      → runner_of abspath c ≡ runner cert key require
  unfolding runner_of runner
  runner_of-eq c cert key require d e f = rw (d, e, f) refl

  -- What the servers do with their runners' settings.
  outcome : Runner → Option (Option GrpcPort × Option HttpPort)
  outcome r = run abspath read (both (check_grpc r) (check_http r))

  serve-runner :
      (c : TlsConfig) (cert key : Option Text) (require : Bool)
      → normalize_path abspath (some c.tls_certfile) ≡ cert
      → normalize_path abspath (some c.tls_keyfile) ≡ key
      → c.require_tls ≡ require
      → serve abspath read c ≡ outcome (runner cert key require)
  unfolding serve build grpc_runner http_runner outcome
  serve-runner c cert key require d e f = ap outcome (runner_of-eq c cert key require d e f)

  outcome-named :
      (cert key : Text) (require : Bool)
      → outcome (runner (some cert) (some key) require)
        ≡ some (
          grpc_start abspath read (runner (some cert) (some key) require),
          some (https_port cert key),
        )
  unfolding outcome runner run http_start
  outcome-named cert key true = refl
  outcome-named cert key false = refl

  serve-named :
      (c : TlsConfig)
      → is_blank c.tls_certfile ≡ false
      → is_blank c.tls_keyfile ≡ false
      → IsGuarded c
  unfolding runner grpc_start
  serve-named c e f =
      let cert = abspath (strip c.tls_certfile) in
      let key = abspath (strip c.tls_keyfile) in
      secure (grpc_start abspath read (runner (some cert) (some key) c.require_tls)) e f
        (credentials-IsSecure (load_pem_bytes abspath read (some key))
          (load_pem_bytes abspath read (some cert)))
        (serve-runner c (some cert) (some key) c.require_tls (normalize_path-named c.tls_certfile e)
            (normalize_path-named c.tls_keyfile f) refl
          ∙ outcome-named cert key c.require_tls)

  serve-blank :
      (c : TlsConfig) → is_blank c.tls_certfile ≡ true → is_blank c.tls_keyfile ≡ true → IsGuarded c
  unfolding outcome runner run grpc_start http_start
  serve-blank c e f =
      let d = normalize_path-blank c.tls_certfile e in
      let d' = normalize_path-blank c.tls_keyfile f in
      elim (Bool-cases c.require_tls) [
        | inl r ↦ refused_missing e f r (serve-runner c none none true d d' r)
        | inr r ↦ plain e f r (serve-runner c none none false d d' r)
      ]

  -- The node's two servers start with TLS, or together without it, or not at all. They start without
  -- TLS only if neither file is named and TLS is not required; where one file alone is named, or TLS
  -- is required and no file is named, neither server starts.
  pub serve-IsGuarded : (c : TlsConfig) → IsGuarded c
  unfolding outcome runner run
  serve-IsGuarded c = elim (Bool-cases (is_blank c.tls_certfile)) [
    | inl e ↦ elim (Bool-cases (is_blank c.tls_keyfile)) [
      | inl f ↦ serve-blank c e f
      | inr f ↦ refused_half (rw (e, f) refl) (
          serve-runner c none (some (abspath (strip c.tls_keyfile))) c.require_tls
            (normalize_path-blank c.tls_certfile e) (normalize_path-named c.tls_keyfile f) refl)
    ]
    | inr e ↦ elim (Bool-cases (is_blank c.tls_keyfile)) [
      | inl f ↦ refused_half (rw (e, f) refl) (
          serve-runner c (some (abspath (strip c.tls_certfile))) none c.require_tls
            (normalize_path-named c.tls_certfile e) (normalize_path-blank c.tls_keyfile f) refl)
      | inr f ↦ serve-named c e f
    ]
  ]
