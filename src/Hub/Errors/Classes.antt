-- ===== src/Hub/Errors/Classes.antt =====
-- The classes of `classify_error`, and timeouts.
use prover.Prelude.{
  ◌≡◌, ◌⊎◌, inl, inr, refl, Bool, true, false, Option, none, some, List, [], ◌∷◌, Text, codes,
  if◌then◌else◌,
}
use prover.PyText.{lower, contains}
use prover.Hub.Errors.{
  PyError, RpcStatus, by_words, by_rpc, by_aiohttp, by_type, classify_error, or_else, message_text,
}

abbrev pub IsOneOf : List Text → Text → Type 0
IsOneOf [] t = ⊥
IsOneOf (s ∷ ss) t = (t ≡ s) ⊎ IsOneOf ss t

abbrev pub classes : List Text
classes =
    codes "network_timeout"
    ∷ codes "connection_refused"
    ∷ codes "grpc_unavailable"
    ∷ codes "unknown_error"
    ∷ codes "aiohttp_unclosed_connection"
    ∷ codes "invalid_task_status"
    ∷ codes "flush_error"
    ∷ codes "logging_reentrant_error"
    ∷ []

abbrev pub IsClass : Text → Type 0
IsClass t = IsOneOf classes t

if-IsClass : (b : Bool) (s t : Text) → IsClass s → IsClass t → IsClass (if b then s else t)
if-IsClass true s t p q = p
if-IsClass false s t p q = q

-- A class, if there is one at all.
data AllClass : Option Text → Type 0 where
  no_class : AllClass none
  a_class : (t : Text) → IsClass t → AllClass (some t)

if-AllClass :
    (b : Bool) (s t : Option Text) → AllClass s → AllClass t → AllClass (if b then s else t)
if-AllClass true s t p q = p
if-AllClass false s t p q = q

or_else-IsClass : (s : Option Text) (t : Text) → AllClass s → IsClass t → IsClass (or_else s t)
or_else-IsClass none t no_class q = q
or_else-IsClass (some s) t (a_class s' p) q = p

network_timeout : IsClass (codes "network_timeout")
network_timeout = inl refl

connection_refused : IsClass (codes "connection_refused")
connection_refused = inr (inl refl)

grpc_unavailable : IsClass (codes "grpc_unavailable")
grpc_unavailable = inr (inr (inl refl))

unknown_error : IsClass (codes "unknown_error")
unknown_error = inr (inr (inr (inl refl)))

unclosed : IsClass (codes "aiohttp_unclosed_connection")
unclosed = inr (inr (inr (inr (inl refl))))

by_words-IsClass : (s : Text) → IsClass (by_words s)
unfolding by_words
by_words-IsClass s = if-IsClass _ _ _ network_timeout (
    if-IsClass _ _ _ connection_refused (
      if-IsClass _ _ _ (inr (inr (inr (inr (inr (inl refl)))))) (
        if-IsClass _ _ _ (inr (inr (inr (inr (inr (inr (inl refl))))))) (
          if-IsClass _ _ _ unclosed (
            if-IsClass _ _ _ (inr (inr (inr (inr (inr (inr (inr (inl refl))))))))
              (if-IsClass _ _ _ grpc_unavailable unknown_error))))))

by_rpc-AllClass : (s : Text) (status : Option RpcStatus) → AllClass (by_rpc s status)
unfolding by_rpc
by_rpc-AllClass s none = no_class
by_rpc-AllClass s (some status) =
    if-AllClass _ _ _ (a_class _ (if-IsClass _ _ _ connection_refused grpc_unavailable))
      (if-AllClass _ _ _ (a_class _ network_timeout) no_class)

by_aiohttp-AllClass : (s : Text) (error : PyError) → AllClass (by_aiohttp s error)
unfolding by_aiohttp
by_aiohttp-AllClass s error =
    if-AllClass _ _ _
      (a_class _ (
        if-IsClass _ _ _ connection_refused
          (if-IsClass (contains (codes "grpc") s) _ _ grpc_unavailable unknown_error)))
      (if-AllClass _ _ _ (a_class _ unclosed) no_class)

by_type-IsClass : (s : Text) (error : Option PyError) → IsClass (by_type s error)
by_type-IsClass s none = by_words-IsClass s
by_type-IsClass s (some error) = or_else-IsClass _ _ (by_rpc-AllClass s error.rpc) (
    or_else-IsClass _ _ (by_aiohttp-AllClass s error)
      (if-IsClass _ _ _ network_timeout (by_words-IsClass s)))

-- Whatever the exception and the message are, the class is one of the eight.
pub classify_error-IsClass :
    (error : Option PyError) (message : Option Text) → IsClass (classify_error error message)
unfolding classify_error
classify_error-IsClass error message = by_type-IsClass (lower (message_text error message)) error

-- An `asyncio.TimeoutError` that is neither of gRPC nor of aiohttp is a timeout of the network,
-- whatever its text.
pub classify_error-timeout :
    (error : PyError) (message : Option Text)
    → error.rpc ≡ none
    → error.is_client_error ≡ false
    → error.is_connector_error ≡ false
    → error.is_timeout_error ≡ true
    → classify_error (some error) message ≡ codes "network_timeout"
unfolding classify_error by_aiohttp by_rpc
classify_error-timeout error message r c k t = rw (r, k, c, t) refl
