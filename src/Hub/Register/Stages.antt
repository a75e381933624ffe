-- ===== src/Hub/Register/Stages.antt =====
-- The stages of `hub_post_node` of node/api.py, each with what it has checked when it goes on.
use prover.Prelude.{
  ℕ, ◌≡◌, ◌≢◌, ◌⊎◌, inl, inr, refl, Bool, true, false, ◌||◌, Option, none, some, [], Text, codes,
  is_empty, arith, Bool-cases, Option-cases, ◌∙◌, sym, subst, ap₂,
}
use prover.Dict.{Dict}
use prover.Prelude.Int.{ℤ}
use prover.PyText.{strip}
use prover.Hub.Address.{Net, AddressError, validate_grpc_address, validate_http_address}
use prover.Hub.Http.{
  Response, raised, Json, null, Model, status_of, http_response, respond, model, model_with, ok,
  invalid_request, address_error, args_invalid, successfully, authorized_error, unauthorized, str,
  request_error, server_error,
}
use prover.Hub.NodeList.{NodeList, add}
use prover.Hub.Register.{
  Key, encryptor, file_not_found, key_error, Pings, ping_error, pinged, Request, World,
  extract_node_register_token, compare_digest, text_or_empty, register, validate_and_ping,
  check_decrypted, with_key, check_token, hub_post_node,
}

status_of-http_response :
    (code : Option ℤ) (msg : Option Text) (result : Json) (status : ℕ) (kwargs : Dict Json)
    → status_of (http_response code msg result status kwargs) ≡ status
unfolding http_response
status_of-http_response code msg result status kwargs = ground arith

pub status_of-respond : (status : ℕ) (m : Model) → status_of (respond status m) ≡ status
unfolding respond
status_of-respond status m = status_of-http_response (some m.code) (some m.msg) null status m.fields

-- The text that a field of the body decrypts to.
abbrev pub plaintext : Key → Text → Option Text
plaintext (encryptor decrypt) s = text_or_empty (decrypt s)
plaintext file_not_found s = none
plaintext key_error s = none

-- The list is as it was, and the answer is no success.
abbrev pub IsRefused : NodeList → NodeList × Response → Type 0
IsRefused l (l', r) = (l' ≡ l) × (status_of r ≢ ok)

or_false : (a b : Bool) → (a || b) ≡ false → a ≡ false
or_false a b h = ground arith

or_false' : (a b : Bool) → (a || b) ≡ false → b ≡ false
or_false' a b h = ground arith

pub server_error-ne-ok : server_error ≢ ok
server_error-ne-ok = omega arith

unauthorized-ne-ok : unauthorized ≢ ok
unauthorized-ne-ok = omega arith

module _ (sha256_hex : Text → Text) (net : Net) (w : World) where
  -- The request shows the configured token, its body decrypts to two addresses that pass the
  -- checks, and both of them answer a ping.
  pub record Accepts (r : Request) (g h : Text) : Type 0 where
    pub configured : is_empty (strip w.node_register_token) ≡ false
    pub presented : is_empty (extract_node_register_token r) ≡ false
    pub matches :
        compare_digest (extract_node_register_token r) (strip w.node_register_token) ≡ some true
    pub grpc_text : plaintext w.key r.grpc_info ≡ some g
    pub http_text : plaintext w.key r.http_info ≡ some h
    pub grpc_nonempty : is_empty g ≡ false
    pub http_nonempty : is_empty h ≡ false
    pub grpc_valid : validate_grpc_address net w.allowed g ≡ none
    pub http_valid : validate_http_address net w.allowed h ≡ none
    pub reachable : w.pings g h ≡ pinged true true

  abbrev pub accepted : Text → Text → NodeList → NodeList × Response
  accepted g h l = (add sha256_hex w.now g h l, respond ok (model successfully))

  refused :
      (l : NodeList) (status : ℕ) (m : Model) → status ≢ ok → IsRefused l (l, respond status m)
  refused l status m h = (refl, λ e. h (sym (status_of-respond status m) ∙ e))

  register-cases :
      (g h : Text) (p : Pings) (l : NodeList)
      → ((p ≡ pinged true true) × (register sha256_hex net w g h p l ≡ accepted g h l))
        ⊎ IsRefused l (register sha256_hex net w g h p l)
  unfolding register
  register-cases g h (ping_error message) l = inr (refused l _ _ (omega arith))
  register-cases g h (pinged true true) l = inl (refl, refl)
  register-cases g h (pinged true false) l = inr (refused l _ _ (omega arith))
  register-cases g h (pinged false b) l = inr (refused l _ _ (omega arith))

  grpc_refused :
      (g h : Text) (l : NodeList) (e : AddressError)
      → validate_grpc_address net w.allowed g ≡ some e
      → validate_and_ping sha256_hex net w g h l
        ≡ (l, respond invalid_request (model_with args_invalid (address_error e)))
  unfolding validate_and_ping
  grpc_refused g h l e bad = rw (bad, validate_and_ping)

  http_refused :
      (g h : Text) (l : NodeList) (e : AddressError)
      → validate_grpc_address net w.allowed g ≡ none
      → validate_http_address net w.allowed h ≡ some e
      → validate_and_ping sha256_hex net w g h l
        ≡ (l, respond invalid_request (model_with args_invalid (address_error e)))
  unfolding validate_and_ping
  http_refused g h l e good bad = rw (good, bad, validate_and_ping)

  both_valid :
      (g h : Text) (l : NodeList)
      → validate_grpc_address net w.allowed g ≡ none
      → validate_http_address net w.allowed h ≡ none
      → validate_and_ping sha256_hex net w g h l ≡ register sha256_hex net w g h (w.pings g h) l
  unfolding validate_and_ping
  both_valid g h l good fine = rw (good, fine, validate_and_ping)

  validate_and_ping-cases :
      (g h : Text) (l : NodeList)
      → ((validate_grpc_address net w.allowed g ≡ none)
          × (validate_http_address net w.allowed h ≡ none)
          × (w.pings g h ≡ pinged true true)
          × (validate_and_ping sha256_hex net w g h l ≡ accepted g h l))
        ⊎ IsRefused l (validate_and_ping sha256_hex net w g h l)
  validate_and_ping-cases g h l = elim (Option-cases (validate_grpc_address net w.allowed g)) [
    | inr (e, bad) ↦
        inr (subst (IsRefused l) (sym (grpc_refused g h l e bad)) (refused l _ _ (omega arith)))
    | inl good ↦ elim (Option-cases (validate_http_address net w.allowed h)) [
      | inr (e, bad) ↦
          inr (
            subst (IsRefused l) (sym (http_refused g h l e good bad)) (refused l _ _ (omega arith)))
      | inl fine ↦ elim (register-cases g h (w.pings g h) l) [
        | inl (p, e) ↦ inl (good, fine, p, both_valid g h l good fine ∙ e)
        | inr no_pings ↦ inr (subst (IsRefused l) (sym (both_valid g h l good fine)) no_pings)
      ]
    ]
  ]

  -- What the handler has seen once the addresses are in clear text.
  abbrev pub IsGood : Text → Text → Type 0
  IsGood g h =
      (is_empty g ≡ false)
      × (is_empty h ≡ false)
      × (validate_grpc_address net w.allowed g ≡ none)
      × (validate_http_address net w.allowed h ≡ none)
      × (w.pings g h ≡ pinged true true)

  abbrev pub Outcome : Option Text → Option Text → NodeList → NodeList × Response → Type 0
  Outcome og oh l result =
      ((g : Text) × (h : Text) × (og ≡ some g)
        × (oh ≡ some h)
        × IsGood g h
        × (result ≡ accepted g h l))
      ⊎ IsRefused l result

  check_decrypted-cases :
      (og oh : Option Text) (l : NodeList)
      → Outcome og oh l (check_decrypted sha256_hex net w og oh l)
  unfolding check_decrypted
  check_decrypted-cases none oh l = inr (refused l _ _ (omega arith))
  check_decrypted-cases (some g) none l = inr (refused l _ _ (omega arith))
  check_decrypted-cases (some g) (some h) l = elim (Bool-cases (is_empty g || is_empty h)) [
    | inl e ↦ inr (rw e (refused l _ _ (omega arith)))
    | inr e ↦ elim (validate_and_ping-cases g h l) [
      | inl (a, b, c, same) ↦ inl (
        g,
        h,
        refl,
        refl,
        (or_false (is_empty g) (is_empty h) e, or_false' (is_empty g) (is_empty h) e, a, b, c),
        rw e same,
      )
      | inr bad ↦ inr (rw e bad)
    ]
  ]

  pub with_key-cases :
      (r : Request) (k : Key) (l : NodeList)
      → Outcome
          (plaintext k r.grpc_info)
          (plaintext k r.http_info)
          l
          (with_key sha256_hex net w r k l)
  unfolding with_key
  with_key-cases r (encryptor decrypt) l =
      check_decrypted-cases (text_or_empty (decrypt r.grpc_info))
        (text_or_empty (decrypt r.http_info)) l
  with_key-cases r file_not_found l = inr (refused l _ _ (omega arith))
  with_key-cases r key_error l = inr (refused l _ _ (omega arith))

  IsRefused-token :
      (l : NodeList)
      → IsRefused l (
        l,
        http_response
            (some authorized_error.0)
            (some authorized_error.1)
            (str (codes "invalid_node_register_token"))
            unauthorized
            [],
      )
  IsRefused-token l = (
    refl,
    λ e. absurd (unauthorized-ne-ok (sym (status_of-http_response _ _ _ unauthorized []) ∙ e)),
  )

  token_raises :
      (r : Request) (actual expected : Text) (l : NodeList)
      → is_empty actual ≡ false
      → compare_digest actual expected ≡ none
      → check_token sha256_hex net w r actual expected l ≡ (l, raised)
  unfolding check_token
  token_raises r actual expected l e c = rw (e, c, check_token)

  token_differs :
      (r : Request) (actual expected : Text) (l : NodeList)
      → is_empty actual ≡ false
      → compare_digest actual expected ≡ some false
      → check_token sha256_hex net w r actual expected l ≡ (
        l,
        http_response
            (some authorized_error.0)
            (some authorized_error.1)
            (str (codes "invalid_node_register_token"))
            unauthorized
            [],
      )
  unfolding check_token
  token_differs r actual expected l e c = rw (e, c, check_token)

  pub token_matches :
      (r : Request) (actual expected : Text) (l : NodeList)
      → is_empty actual ≡ false
      → compare_digest actual expected ≡ some true
      → check_token sha256_hex net w r actual expected l ≡ with_key sha256_hex net w r w.key l
  unfolding check_token
  token_matches r actual expected l e c = rw (e, c, check_token)

  pub check_token-cases :
      (r : Request) (actual expected : Text) (l : NodeList)
      → ((is_empty actual ≡ false)
          × (compare_digest actual expected ≡ some true)
          × (check_token sha256_hex net w r actual expected l
              ≡ with_key sha256_hex net w r w.key l))
        ⊎ IsRefused l (check_token sha256_hex net w r actual expected l)
  check_token-cases r actual expected l = elim (Bool-cases (is_empty actual)) [
    | inl e ↦ inr (unfold check_token in rw e (IsRefused-token l))
    | inr e ↦ elim (Option-cases (compare_digest actual expected)) [
      | inl c ↦ inr (
          subst (IsRefused l) (sym (token_raises r actual expected l e c))
            (refl, λ (h : 500 ≡ 200). omega arith))
      | inr (false, c) ↦
          inr
            (subst (IsRefused l) (sym (token_differs r actual expected l e c)) (IsRefused-token l))
      | inr (true, c) ↦ inl (e, c, token_matches r actual expected l e c)
    ]
  ]

  pub IsRefused-disabled :
      (l : NodeList)
      → IsRefused l (
        l,
        http_response
            (some request_error.0)
            (some (codes "Node registration is disabled"))
            (str (codes "node_register_token_not_configured"))
            server_error
            [],
      )
  IsRefused-disabled l = (
    refl,
    λ e. absurd (server_error-ne-ok (sym (status_of-http_response _ _ _ server_error []) ∙ e)),
  )

  pub token_configured :
      (r : Request) (l : NodeList)
      → is_empty (strip w.node_register_token) ≡ false
      → hub_post_node sha256_hex net w r l
        ≡ check_token sha256_hex net w r
            (extract_node_register_token r)
            (strip w.node_register_token)
            l
  unfolding hub_post_node
  token_configured r l e = rw e

  decrypted_nonempty :
      (g h : Text) (l : NodeList)
      → is_empty g ≡ false
      → is_empty h ≡ false
      → check_decrypted sha256_hex net w (some g) (some h) l
        ≡ validate_and_ping sha256_hex net w g h l
  unfolding check_decrypted
  decrypted_nonempty g h l ng nh = rw (ng, nh)

  reachable_registers :
      (g h : Text) (l : NodeList)
      → w.pings g h ≡ pinged true true
      → register sha256_hex net w g h (w.pings g h) l ≡ accepted g h l
  unfolding register
  reachable_registers g h l p = rw (p, register)

  pub with_key-plaintext :
      (r : Request) (k : Key) (g h : Text) (l : NodeList)
      → plaintext k r.grpc_info ≡ some g
      → plaintext k r.http_info ≡ some h
      → with_key sha256_hex net w r k l ≡ check_decrypted sha256_hex net w (some g) (some h) l
  unfolding with_key
  with_key-plaintext r (encryptor decrypt) g h l p q =
      ap₂ (λ og oh. check_decrypted sha256_hex net w og oh l) p q
  with_key-plaintext r file_not_found g h l p q = cc
  with_key-plaintext r key_error g h l p q = cc

  pub check_decrypted-good :
      (g h : Text) (l : NodeList)
      → IsGood g h
      → check_decrypted sha256_hex net w (some g) (some h) l ≡ accepted g h l
  check_decrypted-good g h l (ng, nh, vg, vh, p) =
      decrypted_nonempty g h l ng nh ∙ both_valid g h l vg vh ∙ reachable_registers g h l p
