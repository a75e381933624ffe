-- ===== src/Hub/Grpc.antt =====
-- `GrpcServer` of hub/src/modules/grpc_server/main.py: the ping of a node over gRPC. Durations are
-- left out.
use prover.Prelude.{Bool, true, false, Option, none, some, Text, codes}
use prover.Hub.Errors.{RpcStatus, PyError, classify_error}

-- How the call of the stub ends, from the opening of the channel on.
pub data CallEnd : Type 0 where
  answered : CallEnd
  raised : PyError → CallEnd

pub record PingDetails : Type 0 where
  pub success : Bool
  pub error_type : Option Text
  pub error_msg : Option Text
  pub code : Text

-- The two handlers of exceptions.
unfoldable pub failed_ping : PyError → Option RpcStatus → PingDetails
unfolding classify_error
failed_ping error (some status) = record {
  success = false;
  error_type = some (classify_error (some error) none);
  error_msg = status.details;
  code = status.code_name;
}
failed_ping error none = record {
  success = false;
  error_type = some (classify_error (some error) none);
  error_msg = some error.text;
  code = codes "UNKNOWN";
}

unfoldable pub ping_details : CallEnd → PingDetails
unfolding failed_ping
ping_details answered = record {
  success = true;
  error_type = none;
  error_msg = none;
  code = codes "OK";
}
ping_details (raised error) = failed_ping error error.rpc

unfoldable pub ping : CallEnd → Bool
unfolding ping_details
ping call = (ping_details call).success
