-- ===== src/Hub/Errors.antt =====
-- `classify_error` of hub/src/utils/observability.py: the class of an exception, by its type and by
-- words of its text. The text's case is that of ASCII.
pub mod Classes
use prover.Prelude.{
  Bool, true, false, ◌&&◌, ◌||◌, Option, none, some, List, [], ◌∷◌, Text, codes, if◌then◌else◌,
}
use prover.PyText.{lower, contains, text_eq}

-- An exception: whether it is an `AioRpcError`, with the name of its code and its details, which of
-- the classes `ClientConnectorError` and `ClientError` of aiohttp and `asyncio.TimeoutError` it
-- belongs to, and its text.
pub record RpcStatus : Type 0 where
  pub code_name : Text
  pub details : Option Text

pub record PyError : Type 0 where
  pub rpc : Option RpcStatus
  pub is_connector_error : Bool
  pub is_client_error : Bool
  pub is_timeout_error : Bool
  pub text : Text

-- `message`, or the text of the error, or nothing.
abbrev pub message_text : Option PyError → Option Text → Text
message_text error (some message) = message
message_text (some error) none = error.text
message_text none none = []

-- The tests of the words alone, in their order.
unfoldable pub by_words : Text → Text
unfolding contains
by_words lowered =
    if contains (codes "timeout") lowered
      || contains (codes "timed out") lowered
      || contains (codes "deadline exceeded") lowered
    then codes "network_timeout"
    else if contains (codes "connection refused") lowered
    then codes "connection_refused"
    else if contains (codes "invalid task status") lowered
    then codes "invalid_task_status"
    else if contains (codes "flush") lowered
    then codes "flush_error"
    else if contains (codes "unclosed connection") lowered
    then codes "aiohttp_unclosed_connection"
    else if contains (codes "reentrant") lowered && contains (codes "logging") lowered
    then codes "logging_reentrant_error"
    else if contains (codes "unavailable") lowered && contains (codes "grpc") lowered
    then codes "grpc_unavailable"
    else codes "unknown_error"

-- The block for gRPC; `none` goes on to the next test.
unfoldable pub by_rpc : Text → Option RpcStatus → Option Text
unfolding lower contains
by_rpc lowered none = none
by_rpc lowered (some status) =
    let code_name : Text = lower status.code_name in
    if text_eq code_name (codes "unavailable")
    then some (
        if contains (codes "connection refused") lowered
        then codes "connection_refused"
        else codes "grpc_unavailable")
    else if text_eq code_name (codes "deadline_exceeded")
    then some (codes "network_timeout")
    else none

-- The block for aiohttp.
unfoldable pub by_aiohttp : Text → PyError → Option Text
unfolding contains
by_aiohttp lowered error =
    if error.is_connector_error
    then some (
        if contains (codes "connection refused") lowered
        then codes "connection_refused"
        else if contains (codes "grpc") lowered
        then codes "grpc_unavailable"
        else codes "unknown_error")
    else if error.is_client_error && contains (codes "unclosed connection") lowered
    then some (codes "aiohttp_unclosed_connection")
    else none

abbrev pub or_else : Option Text → Text → Text
or_else none t = t
or_else (some s) t = s

abbrev pub by_type : Text → Option PyError → Text
by_type lowered none = by_words lowered
by_type lowered (some error) = or_else (by_rpc lowered error.rpc) (
    or_else (by_aiohttp lowered error)
      (if error.is_timeout_error then codes "network_timeout" else by_words lowered))

unfoldable pub classify_error : Option PyError → Option Text → Text
unfolding lower by_words by_rpc by_aiohttp
classify_error error message = by_type (lower (message_text error message)) error
