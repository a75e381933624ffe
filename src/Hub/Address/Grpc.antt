-- ===== src/Hub/Address/Grpc.antt =====
-- Which gRPC addresses `_validate_grpc_address` of node/api.py accepts.
use prover.Prelude.{
  ℕ, ◌≤◌, ◌≡◌, ◌↔◌, refl, true, false, none, some, [], ◌∷◌, ◌++◌, Text, ◌==◌, is_empty, All, arith,
  ap, ◌∙◌,
}
use prover.Prelude.Decimal.{decimal}
use prover.Prelude.Int.{pos}
use prover.PyText.{is_space, split_first, split_last}
use prover.PyText.Laws.{
  strip_none, split_last-append, split_first-append, int_of-decimal, decimal_no_space,
  decimal_no_colon, All-append,
}
use prover.Hub.Address.{
  Net, Allowed, host_allowed, split_host_port, split_target, split_plain, split_bracketed,
  check_grpc, validate_grpc_address,
}

colon_no_space : is_space b':' ≡ false
unfolding is_space
colon_no_space = refl

bracket_no_space : is_space b'[' ≡ false
unfolding is_space
bracket_no_space = refl

bracket_no_space' : is_space b']' ≡ false
unfolding is_space
bracket_no_space' = refl

split_plain_found :
    (host port : Text) (target : Text)
    → is_empty host ≡ false
    → split_last b':' target ≡ some (host, port)
    → split_plain target ≡ some (host, port)
unfolding split_plain
split_plain_found host port target h e = rw (e, split_plain) (rw h)

split_bracketed_found :
    (host port rest : Text)
    → split_first b']' rest ≡ some (host, b':' ∷ port)
    → split_bracketed rest ≡ some (host, port)
unfolding split_bracketed
split_bracketed_found host port rest e = rw (e, split_bracketed)

-- A host as it stands in `host:port`: not empty, with no space in it and no bracket in front.
abbrev pub IsPlainHost : Text → Type 0
IsPlainHost [] = ⊥
IsPlainHost (c ∷ cs) = ((c == b'[') ≡ false) × All (λ c. is_space c ≡ false) (c ∷ cs)

-- An IPv6 address as it stands in `[host]:port`.
abbrev pub IsBracketHost : Text → Type 0
IsBracketHost host = All (λ c. (c == b']') ≡ false) host × All (λ c. is_space c ≡ false) host

split_host_port-plain :
    (host : Text) (port : ℕ)
    → IsPlainHost host
    → split_host_port (host ++ b':' ∷ decimal port) ≡ some (host, decimal port)
unfolding split_host_port
split_host_port-plain [] port h = absurd h
split_host_port-plain (c ∷ cs) port (b, s) =
    ap split_target (
      strip_none ((c ∷ cs) ++ b':' ∷ decimal port) (
        All-append (λ c. is_space c ≡ false) (c ∷ cs) (b':' ∷ decimal port) s
          (colon_no_space, decimal_no_space port)))
    ∙ rw b (
        split_plain_found (c ∷ cs) (decimal port) ((c ∷ cs) ++ b':' ∷ decimal port) refl
          (split_last-append b':' (c ∷ cs) (decimal port) (decimal_no_colon port)))

split_host_port-bracketed :
    (host : Text) (port : ℕ)
    → IsBracketHost host
    → split_host_port (b'[' ∷ host ++ b']' ∷ b':' ∷ decimal port) ≡ some (host, decimal port)
unfolding split_host_port
split_host_port-bracketed host port (b, s) =
    ap split_target (
      strip_none (b'[' ∷ host ++ b']' ∷ b':' ∷ decimal port) (
        bracket_no_space,
        All-append (λ c. is_space c ≡ false) host (b']' ∷ b':' ∷ decimal port) s
            (bracket_no_space', (colon_no_space, decimal_no_space port)),
      ))
    ∙ split_bracketed_found host (decimal port) (host ++ b']' ∷ b':' ∷ decimal port)
        (split_first-append b']' host (b':' ∷ decimal port) b)

module _ (net : Net) where
  check_grpc-ok :
      (allowed : Allowed) (host : Text) (port : ℕ)
      → (check_grpc net allowed host (pos port) ≡ none)
        ↔ ((1 ≤ port) × (port ≤ 65535) × (host_allowed net allowed host ≡ true))
  unfolding check_grpc
  check_grpc-ok allowed host port = (λ h. ground arith, λ h. ground arith)

  validate-split :
      (allowed : Allowed) (address host : Text) (port : ℕ)
      → split_host_port address ≡ some (host, decimal port)
      → validate_grpc_address net allowed address ≡ check_grpc net allowed host (pos port)
  unfolding validate_grpc_address
  validate-split allowed address host port e = rw (e, int_of-decimal port, validate_grpc_address)

  -- An address `host:port`, with a host that has no space, is not empty and does not start with a
  -- bracket, is accepted exactly if the port lies in 1 to 65535 and the host is allowed.
  pub validate_grpc_address-plain :
      (allowed : Allowed) (host : Text) (port : ℕ)
      → IsPlainHost host
      → (validate_grpc_address net allowed (host ++ b':' ∷ decimal port) ≡ none)
        ↔ ((1 ≤ port) × (port ≤ 65535) × (host_allowed net allowed host ≡ true))
  validate_grpc_address-plain allowed host port h =
      rw
        (validate-split allowed (host ++ b':' ∷ decimal port) host port
          (split_host_port-plain host port h))
        (check_grpc-ok allowed host port)

  -- An address `[host]:port`, with a host that has no space and no closing bracket, is accepted
  -- exactly if the port lies in 1 to 65535 and the host is allowed.
  pub validate_grpc_address-bracketed :
      (allowed : Allowed) (host : Text) (port : ℕ)
      → IsBracketHost host
      → (validate_grpc_address net allowed (b'[' ∷ host ++ b']' ∷ b':' ∷ decimal port) ≡ none)
        ↔ ((1 ≤ port) × (port ≤ 65535) × (host_allowed net allowed host ≡ true))
  validate_grpc_address-bracketed allowed host port h =
      rw
        (validate-split allowed (b'[' ∷ host ++ b']' ∷ b':' ∷ decimal port) host port
          (split_host_port-bracketed host port h))
        (check_grpc-ok allowed host port)
