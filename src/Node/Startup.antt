-- ===== src/Node/Startup.antt =====
-- The two servers of the node, of prover/node/src/utils/server_util.py: `GrpcServerRunner`,
-- `FastApiServerRunner`, and the part of `ServerBuilder.build` and `Server.run` that starts them.
pub mod Secure
mod Examples
use prover.Prelude.{Bool, true, false, ◌&&◌, not, Option, none, some, Text, if◌then◌else◌, is_empty}
use prover.Tls.{normalize_path, load_pem_bytes}

-- The configuration of TLS: `tls_certfile`, `tls_keyfile` and `require_tls`.
pub record TlsConfig : Type 0 where
  pub tls_certfile : Text
  pub tls_keyfile : Text
  pub require_tls : Bool

-- What both runners keep of it.
pub record Runner : Type 0 where
  pub tls_certfile : Option Text
  pub tls_keyfile : Option Text
  pub require_tls : Bool

-- How a server listens: with what its files for the key and the certificate hold (gRPC), with the
-- names of its two files (uvicorn), or without TLS.
pub data GrpcPort : Type 0 where
  secure_port : Option Text → Option Text → GrpcPort
  insecure_port : GrpcPort

pub data HttpPort : Type 0 where
  https_port : Text → Text → HttpPort
  http_port : HttpPort

abbrev pub is_some : Option Text → Bool
is_some none = false
is_some (some s) = true

-- `bool(certfile) != bool(keyfile)`, where a path that was normalised is `None` or not empty.
abbrev pub is_half : Runner → Bool
is_half r = if is_some r.tls_certfile then not (is_some r.tls_keyfile) else is_some r.tls_keyfile

abbrev pub has_tls : Runner → Bool
has_tls r = is_some r.tls_certfile && is_some r.tls_keyfile

abbrev pub lacks_tls : Runner → Bool
lacks_tls r = r.require_tls && not (has_tls r)

abbrev pub credentials : Option (Option Text) → Option (Option Text) → Option GrpcPort
credentials none cert = none
credentials (some key) none = none
credentials (some key) (some cert) = some (secure_port key cert)

-- The checks of `GrpcServerRunner.__init__` and `FastApiServerRunner.__init__`; `none` is a
-- `RuntimeError`.
abbrev pub check_grpc : Runner → Option Runner
check_grpc r = if is_half r then none else if lacks_tls r then none else some r

abbrev pub check_http : Runner → Option Runner
check_http r = if is_half r then none else some r

abbrev pub http_port_of : Option Text → Option Text → HttpPort
http_port_of (some certfile) (some keyfile) = https_port certfile keyfile
http_port_of (some certfile) none = http_port
http_port_of none keyfile = http_port

-- `FastApiServerRunner.start`; `none` is a `RuntimeError`.
unfoldable pub http_start : Runner → Option HttpPort
http_start r = if lacks_tls r then none else some (http_port_of r.tls_certfile r.tls_keyfile)

abbrev pub both : Option Runner → Option Runner → Option (Runner × Runner)
both none h = none
both (some g) none = none
both (some g) (some h) = some (g, h)

module _ (abspath : Text → Text) where
  unfoldable pub runner_of : TlsConfig → Runner
  unfolding normalize_path
  runner_of c = record {
    tls_certfile = normalize_path abspath (some c.tls_certfile);
    tls_keyfile = normalize_path abspath (some c.tls_keyfile);
    require_tls = c.require_tls;
  }

  -- `GrpcServerRunner.__init__`
  unfoldable pub grpc_runner : TlsConfig → Option Runner
  unfolding runner_of
  grpc_runner c = check_grpc (runner_of c)

  -- `FastApiServerRunner.__init__`
  unfoldable pub http_runner : TlsConfig → Option Runner
  unfolding runner_of
  http_runner c = check_http (runner_of c)

  -- `GrpcServerRunner.start`; `none` is an exception of the file system.
  unfoldable pub grpc_start : (Text → Option Text) → Runner → Option GrpcPort
  unfolding load_pem_bytes
  grpc_start read r =
      if has_tls r
      then credentials (load_pem_bytes abspath read r.tls_keyfile)
          (load_pem_bytes abspath read r.tls_certfile)
      else some insecure_port

  -- The two runners of `ServerBuilder.build`, from one configuration.
  unfoldable pub build : TlsConfig → Option (Runner × Runner)
  unfolding grpc_runner http_runner
  build c = both (grpc_runner c) (http_runner c)

  -- `Server.run`: how each of the two servers starts, if `build` made them.
  unfoldable pub run :
      (Text → Option Text) → Option (Runner × Runner) → Option (Option GrpcPort × Option HttpPort)
  unfolding grpc_start http_start
  run read none = none
  run read (some (g, h)) = some (grpc_start read g, http_start h)

  -- `server` of main.py: `build` and `run`; `none` if `build` raises.
  unfoldable pub serve :
      (Text → Option Text) → TlsConfig → Option (Option GrpcPort × Option HttpPort)
  unfolding build run
  serve read c = run read (build c)
