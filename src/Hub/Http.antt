-- ===== src/Hub/Http.antt =====
-- hub/src/utils/util.py, hub/src/utils/response.py and the response models of the handlers'
-- `serializers.py`: the JSON object that a handler answers with.
use prover.Prelude.{
  ℕ, Bool, true, false, ◌&&◌, Option, none, some, List, [], ◌∷◌, Text, codes, if◌then◌else◌,
  is_empty,
}
use prover.Prelude.Int.{ℤ, pos, negsuc}
use prover.Dict.{Dict, insert}
use prover.Hub.Address.{AddressError}

-- A node as the hub hands it out: `NodeInfoModel` with its two addresses.
pub record NodeInfoModel : Type 0 where
  pub grpc_address : Text
  pub grpc_timestamp : ℕ
  pub http_address : Text
  pub http_timestamp : ℕ
  pub poh : Text

pub record StatusEntry : Type 0 where
  pub index : ℕ
  pub id : Text
  pub grpc_info : Text
  pub http_info : Text
  pub timestamp : ℕ
  pub poh : Text

-- The values that the answers hold.
pub data Json : Type 0 where
  null : Json
  int : ℤ → Json
  str : Text → Json
  address_error : AddressError → Json
  nodes : List NodeInfoModel → Json
  status_nodes : ℕ → List StatusEntry → Json

-- A handler answers with a bare status, with a JSON object, or lets an exception escape.
pub data Response : Type 0 where
  bare : ℕ → Response
  json : ℕ → Dict Json → Response
  raised : Response

abbrev pub status_of : Response → ℕ
status_of (bare s) = s
status_of (json s _) = s
status_of raised = 500

-- `HttpStatus`
abbrev pub ok : ℕ
ok = 200

abbrev pub invalid_request : ℕ
invalid_request = 400

abbrev pub unauthorized : ℕ
unauthorized = 401

abbrev pub server_error : ℕ
server_error = 500

abbrev pub int_or_null : Option ℤ → Json
int_or_null none = null
int_or_null (some n) = int n

abbrev pub str_or_null : Option Text → Json
str_or_null none = null
str_or_null (some s) = str s

-- `output.update(kwargs)`
unfoldable pub update : Dict Json → Dict Json → Dict Json
update [] output = output
update ((k, v) ∷ kwargs) output = update kwargs (insert k v output)

-- `not code`
abbrev pub no_code : Option ℤ → Bool
no_code none = true
no_code (some (pos ℕ.zero)) = true
no_code (some (pos (ℕ.suc n))) = false
no_code (some (negsuc n)) = false

abbrev pub no_msg : Option Text → Bool
no_msg none = true
no_msg (some s) = is_empty s

unfoldable pub http_response : Option ℤ → Option Text → Json → ℕ → Dict Json → Response
unfolding update
http_response code msg result status kwargs =
    if no_code code && no_msg msg
    then bare status
    else json status (
        update kwargs (
          (codes "code", int_or_null code)
          ∷ (codes "msg", str_or_null msg)
          ∷ (codes "results", result)
          ∷ []))

-- A response model: a code with its message, and whether it has a field `results`.
pub record Model : Type 0 where
  pub code : ℤ
  pub msg : Text
  pub fields : Dict Json

-- `http_response(status=status, **model.model_dump())`
unfoldable pub respond : ℕ → Model → Response
unfolding http_response
respond status m = http_response (some m.code) (some m.msg) null status m.fields

abbrev pub request_error : ℤ × Text
request_error = (negsuc 999, codes "request error")

abbrev pub args_invalid : ℤ × Text
args_invalid = (negsuc 1001, codes "Arg invalid or isn't specified")

abbrev pub authorized_error : ℤ × Text
authorized_error = (negsuc 1004, codes "Permission invalid")

abbrev pub private_key_not_exist : ℤ × Text
private_key_not_exist = (negsuc 1005, codes "Private key is not exist")

abbrev pub decryption_failed : ℤ × Text
decryption_failed = (negsuc 1007, codes "Decryption failed")

abbrev pub register_failed : ℤ × Text
register_failed = (negsuc 1008, codes "Register failed")

abbrev pub successfully : ℤ × Text
successfully = (pos 0, codes "Successfully")

-- The models whose `results` is left at its default.
abbrev pub model : ℤ × Text → Model
model (code, msg) = record { code = code; msg = msg; fields = (codes "results", null) ∷ [] }

abbrev pub model_with : ℤ × Text → Json → Model
model_with (code, msg) results = record {
  code = code;
  msg = msg;
  fields = (codes "results", results) ∷ [];
}
