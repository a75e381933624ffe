-- ===== src/Tls.antt =====
-- hub/src/utils/tls.py, which is also prover/node/src/utils/tls.py: how the files of certificates
-- are named and read. `os.path.abspath`, the file system and the parser of a certificate are
-- parameters; the caches of the functions are left out, so that a file is as it was first read.
use prover.Prelude.{
  Bool, true, false, Option, none, some, List, [], ◌∷◌, Text, codes, if◌then◌else◌, is_empty,
}
use prover.PyText.{strip}

-- The names in a certificate: those of `SubjectAlternativeName`, first of DNS and then of addresses,
-- where it has that extension, and the common names of its subject.
pub record Certificate : Type 0 where
  pub alt_names : Option (List Text × List Text)
  pub common_names : List Text

-- The `ssl` parameter of `aiohttp`: no check at all, the default, or a file of certificates.
pub data SslParam : Type 0 where
  unchecked : SslParam
  default_check : SslParam
  context : Option Text → SslParam

module _ (abspath : Text → Text) where
  unfoldable pub normalize_path : Option Text → Option Text
  unfolding strip
  normalize_path none = none
  normalize_path (some path) =
      if is_empty path
      then none
      else let value : Text = strip path in if is_empty value then none else some (abspath value)

  -- `load_pem_bytes`; the outer `none` is an exception of the file system.
  unfoldable pub load_pem_bytes : (Text → Option Text) → Option Text → Option (Option Text)
  unfolding normalize_path
  load_pem_bytes read path = elim (normalize_path path) [
    | none ↦ some none
    | some normalized ↦ elim (read normalized) [ none ↦ none | some bytes ↦ some (some bytes) ]
  ]

  -- `client_ssl_context`, by the file whose certificates it trusts besides the system's.
  unfoldable pub client_ssl_context : Option Text → SslParam
  unfolding normalize_path
  client_ssl_context path = context (normalize_path path)

  unfoldable pub aiohttp_ssl_param : Bool → Option Text → SslParam
  unfolding normalize_path client_ssl_context
  aiohttp_ssl_param false tls_certfile = unchecked
  aiohttp_ssl_param true tls_certfile = elim (normalize_path tls_certfile) [
    | none ↦ default_check
    | some normalized ↦ client_ssl_context (some normalized)
  ]

abbrev pub head_of : List Text → Option Text
head_of [] = none
head_of (x ∷ xs) = some x

-- The name for a certificate that was loaded.
unfoldable pub name_of : Certificate → Option Text
name_of c = elim c.alt_names [
  | none ↦ head_of c.common_names
  | some (dns_name ∷ dns_names, ip_addresses) ↦ some dns_name
  | some ([], ip_address ∷ ip_addresses) ↦ some ip_address
  | some ([], []) ↦ head_of c.common_names
]

module _ (abspath : Text → Text) (read : Text → Option Text)
    (load_certificate : Text → Option Certificate) where
  abbrev pub override_of : Text → Option (Option Text)
  override_of bytes =
      if is_empty bytes
      then some none
      else elim (load_certificate bytes) [ none ↦ none | some c ↦ some (name_of c) ]

  -- `grpc_target_name_override`; the outer `none` is an exception.
  unfoldable pub grpc_target_name_override : Option Text → Option (Option Text)
  unfolding load_pem_bytes name_of
  grpc_target_name_override path = elim (load_pem_bytes abspath read path) [
    | none ↦ none
    | some none ↦ some none
    | some (some bytes) ↦ override_of bytes
  ]

  abbrev pub options_for : Text → List (Text × Text)
  options_for override =
      if is_empty override
      then []
      else (codes "grpc.ssl_target_name_override", override)
        ∷ (codes "grpc.default_authority", override)
        ∷ []

  unfoldable pub grpc_channel_options : Bool → Option Text → Option (List (Text × Text))
  unfolding grpc_target_name_override
  grpc_channel_options true tls_certfile = some []
  grpc_channel_options false tls_certfile = elim (grpc_target_name_override tls_certfile) [
    | none ↦ none
    | some none ↦ some []
    | some (some override) ↦ some (options_for override)
  ]
