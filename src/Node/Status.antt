-- ===== src/Node/Status.antt =====
-- prover/node/src/utils/constant.py: the status codes, and the pair `(ok, msg)` that the node's
-- checks return, where `ok` is `True` or a status code.
use prover.Prelude.{ℕ, Text}
use prover.Prelude.Int.{ℤ, pos, negsuc}

pub data Check {ℓ} (A : Type ℓ) : Type ℓ where
  passed : A → Check A
  failed : ℕ → Text → Check A

abbrev pub status_code_successfully : ℤ
status_code_successfully = pos 0

abbrev pub status_code_error : ℤ
status_code_error = negsuc 0

abbrev pub status_code_task_not_found : ℕ
status_code_task_not_found = 1000

abbrev pub status_code_task_invalid : ℕ
status_code_task_invalid = 1001

abbrev pub status_code_unsupport_task_type : ℕ
status_code_unsupport_task_type = 1002

abbrev pub status_code_unsupport_prover : ℕ
status_code_unsupport_prover = 1003

abbrev pub status_code_unsupport_oauth_provider : ℕ
status_code_unsupport_oauth_provider = 1004

abbrev pub status_code_unauthorized_payload : ℕ
status_code_unauthorized_payload = 1005

abbrev pub status_code_prover_not_response : ℕ
status_code_prover_not_response = 1006

abbrev pub status_code_private_key_not_found : ℕ
status_code_private_key_not_found = 2002

abbrev pub status_code_private_key_invalid : ℕ
status_code_private_key_invalid = 2003

abbrev pub task_status_pending : ℕ
task_status_pending = 0

abbrev pub task_status_running : ℕ
task_status_running = 1
