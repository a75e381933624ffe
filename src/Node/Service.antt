-- ===== src/Node/Service.antt =====
-- `ProveServiceV1` of prover/node/src/modules/prove_service/v1/main.py. What the key file, the JSON
-- parser, the providers' servers and the prover say is the argument `World`.
pub mod Prove
pub mod Authorised
mod Examples
use prover.Prelude.{
  ℕ, Bool, true, false, ◌||◌, Option, none, some, List, [], ◌∷◌, ◌++◌, Text, codes, if◌then◌else◌,
  is_empty, map,
}
use prover.Prelude.Decimal.{decimal}
use prover.Prelude.Int.{ℤ, pos, negsuc}
use prover.PyText.{text_eq}
use prover.Dict.{Dict, lookup, insert}
use prover.Node.Status.{
  Check, passed, failed, status_code_unsupport_task_type, status_code_unsupport_prover,
  status_code_unsupport_oauth_provider, status_code_unauthorized_payload,
  status_code_private_key_not_found, status_code_private_key_invalid,
}
use prover.Node.Project.{Project, get_project}
use prover.Node.OAuth.{Provider, Modulus, verify, ProviderInfo, resolve_provider}
use prover.Node.Pool.{Pool}
use prover.Node.Rpc.{StatusCode, Call}
use prover.Node.Circom.{ProveRequest, Reply}

-- What `decrypt` returns: a text, `False`, or an exception.
pub data Decrypted : Type 0 where
  plain : Text → Decrypted
  undecrypted : Decrypted
  error : Decrypted

pub record World : Type 0 where
  -- The key of the file, by its `decrypt`; `none` is a `FileNotFoundError`.
  pub private_key : Option (Text → Decrypted)
  -- `ujson.loads(input_data)['modulus']`
  pub modulus : Text → Modulus
  -- Whether `ujson.loads(input_data)` has `modules` that are not empty; `none` if it raises.
  pub modules : Text → Option Bool
  -- What a provider's `update_jwks` fetches; `none` if it raises.
  pub fetched : Text → Option (List ℕ)
  pub template_provider_map : Dict ProviderInfo
  pub projects : Dict Project
  -- `str(ujson.loads(text)[-1])`; `none` if it raises.
  pub last_public : Text → Option Text
  -- How the calls of a request end, and the message of an error.
  pub calls : ProveRequest → ℕ → Call Reply
  pub error_text : StatusCode → Text
  pub duration : ℕ

-- What the service shares between requests: the providers, and the pool of the prover.
pub record Services : Type 0 where
  pub providers : Dict Provider
  pub pool : Pool

-- `_process_input`; `none` is an exception.
unfoldable pub check_plain : Decrypted → Option (Check Text)
check_plain (plain []) =
    some
      (failed status_code_private_key_invalid (codes "Decryption failed with provided private key"))
check_plain (plain (c ∷ cs)) = some (passed (c ∷ cs))
check_plain undecrypted =
    some
      (failed status_code_private_key_invalid (codes "Decryption failed with provided private key"))
check_plain error = none

unfoldable pub process_input : World → Text → Bool → Option (Check Text)
unfolding check_plain
process_input w input_data false = some (passed input_data)
process_input w input_data true = elim w.private_key [
  | none ↦ some (failed status_code_private_key_not_found (codes "Private key file not found"))
  | some decrypt ↦ check_plain (decrypt input_data)
]

-- The provider of a template, or else that of the request.
unfoldable pub chosen_provider : World → Text → Text → Text
chosen_provider w template oauth_provider =
    elim (resolve_provider template w.template_provider_map) [
      | none ↦ oauth_provider
      | some specified ↦ if is_empty specified then oauth_provider else specified
    ]

abbrev pub verdict : Option Bool → Option (Check (Option Text))
verdict none = none
verdict (some true) = some (passed none)
verdict (some false) = some (
    failed status_code_unauthorized_payload (codes "Verification failed due to invalid input data"))

unfoldable pub check_login :
    World → Text → Text → Services → Services × Option (Check (Option Text))
check_login w name input_data sv = elim (lookup name sv.providers) [
  | none ↦ (
    sv,
    some (
        failed status_code_unsupport_oauth_provider
          (codes "OAuth provider '" ++ name ++ codes "' not found")),
  )
  | some p ↦
      let v = verify p (w.fetched name) (w.modulus input_data) in
      (record sv { providers = insert name v.0 sv.providers }, verdict v.1)
]

unfoldable pub check_tiga : World → Text → Text → Option (Check (Option Text))
check_tiga w template input_data =
    if text_eq template (codes "10006") || text_eq template (codes "10005")
    then some (passed none)
    else (elim (w.modules input_data) [
      | none ↦ none
      | some true ↦ some (
          failed status_code_unauthorized_payload
            (codes "Data is invalid, please check the input data"))
      | some false ↦ some (passed none)
    ])

abbrev pub int_text : ℤ → Text
int_text (pos n) = decimal n
int_text (negsuc n) = b'-' ∷ decimal (ℕ.suc n)

abbrev pub unsupported : ℤ → Text
unsupported task_type =
    codes "Task '"
    ++ int_text task_type
    ++ codes "' is not supported. Please choose a supported method"

-- `_validate_task_type_and_input`, where the task type 0 is a login and -1 is `TIGA`.
unfoldable pub validate_task_type_and_input :
    World → ℤ → Text → Text → Text → Services → Services × Option (Check (Option Text))
unfolding check_login check_tiga chosen_provider
validate_task_type_and_input w (pos ℕ.zero) template input_data oauth_provider sv =
    check_login w (chosen_provider w template oauth_provider) input_data sv
validate_task_type_and_input w (negsuc ℕ.zero) template input_data oauth_provider sv =
    (sv, check_tiga w template input_data)
validate_task_type_and_input w (pos (ℕ.suc n)) template input_data oauth_provider sv =
    (sv, some (failed status_code_unsupport_task_type (unsupported (pos (ℕ.suc n)))))
validate_task_type_and_input w (negsuc (ℕ.suc n)) template input_data oauth_provider sv =
    (sv, some (failed status_code_unsupport_task_type (unsupported (negsuc (ℕ.suc n)))))
