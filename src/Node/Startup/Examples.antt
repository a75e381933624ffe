-- ===== src/Node/Startup/Examples.antt =====
-- A node that requires TLS and has a file for it.
use prover.Prelude.{true, Option, some, Text, codes}
use prover.Node.Startup.{TlsConfig}
use prover.Node.Startup.Secure.{IsGuarded, serve-IsGuarded}

abbrev config : TlsConfig
config = record {
  tls_certfile = codes " cert.pem";
  tls_keyfile = codes "key.pem";
  require_tls = true;
}

abbrev abspath : Text → Text
abspath path = path

abbrev read : Text → Option Text
read path = some path

serve-IsGuarded_example : IsGuarded abspath read config
serve-IsGuarded_example = serve-IsGuarded abspath read config
