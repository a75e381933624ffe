-- ===== src/Hub/Push.antt =====
-- `ping_details` and `push_task_details` of hub/src/modules/http_server/main.py: one request to a
-- node, repeated once if a push times out. The durations are left out.
pub mod Retry
mod Examples
use prover.Prelude.{
  ℕ, Bool, true, false, Option, none, some, Text, codes, ◌++◌, ◌==◌, if◌then◌else◌, is_empty,
}
use prover.Prelude.Decimal.{decimal}

-- How a request ends: with a status, by `asyncio.TimeoutError`, or by another exception. An
-- exception comes with its class according to `classify_error`, and its text.
pub data Reply : Type 0 where
  status : ℕ → Reply
  timeout_error : Text → Text → Reply
  other_error : Text → Text → Reply

pub record PingDetails : Type 0 where
  pub success : Bool
  pub status : Option ℕ
  pub error_type : Option Text
  pub error_msg : Option Text

pub record PushDetails : Type 0 where
  pub success : Bool
  pub status : Option ℕ
  pub retries : ℕ
  pub timeout : Bool
  pub error_type : Option Text
  pub error_msg : Option Text

abbrev pub type_of_status : ℕ → Option Text
type_of_status s = if s == 200 then none else some (codes "http_status_error")

abbrev pub msg_of_status : ℕ → Option Text
msg_of_status s = if s == 200 then none else some (codes "unexpected_http_status:" ++ decimal s)

unfoldable pub ping_details : Reply → PingDetails
ping_details (status s) = record {
  success = s == 200;
  status = some s;
  error_type = type_of_status s;
  error_msg = msg_of_status s;
}
ping_details (timeout_error kind text) = record {
  success = false;
  status = none;
  error_type = some kind;
  error_msg = some text;
}
ping_details (other_error kind text) = record {
  success = false;
  status = none;
  error_type = some kind;
  error_msg = some text;
}

abbrev pub push_answered : ℕ → ℕ → Bool → PushDetails
push_answered s retries timeout = record {
  success = s == 200;
  status = some s;
  retries = retries;
  timeout = timeout;
  error_type = type_of_status s;
  error_msg = msg_of_status s;
}

abbrev pub push_failed : ℕ → Bool → Text → Text → PushDetails
push_failed retries timeout kind text = record {
  success = false;
  status = none;
  retries = retries;
  timeout = timeout;
  error_type = some kind;
  error_msg = some text;
}

-- The repetition: only a timeout is caught again. `none` is an exception that escapes.
unfoldable pub push_again : Reply → Option PushDetails
push_again (status s) = some (push_answered s 1 true)
push_again (timeout_error kind text) = some (push_failed 1 true kind text)
push_again (other_error kind text) = none

-- `push_task_details`, with how the first request and its repetition end.
unfoldable pub push_task_details : Reply → Reply → Option PushDetails
unfolding push_again
push_task_details (status s) again = some (push_answered s 0 false)
push_task_details (timeout_error kind text) again = push_again again
push_task_details (other_error kind text) again = some (push_failed 0 false kind text)
