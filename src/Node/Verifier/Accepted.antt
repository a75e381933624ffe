-- ===== src/Node/Verifier/Accepted.antt =====
-- When the node says that it has updated the verifiers of a proof: http_server/v1/main.py, `verifier`.
use prover.Prelude.{
  ℕ, ◌≡◌, ◌≢◌, ◌↔◌, refl, true, false, Option, none, some, List, [], ◌∷◌, Text, codes, arith, ap,
  ◌∙◌, sym, ◌⊎◌, inl, inr, Bool-cases, Option-cases,
}
use prover.Node.Status.{status_code_successfully}
use prover.Node.Service.{Decrypted, plain, undecrypted, error}
use prover.Node.HttpV1.{status_response}
use prover.Node.Verifier.{
  VerifierRequest, VerifierBody, KeyFile, missing, malformed, decryptor, VerifierWorld, updated,
  Verdict, key_not_found, invalid_input, no_verifiers, successful, update_failed, escaped, is_ok,
  put_body, encrypt_hash, update_verifier, verdict_of, loaded, check_verifiers, after_decrypt,
  hash_of, handle_verifier, http_of, verifier,
}

module _ {V : Type 0} (w : VerifierWorld V) where
  -- The verifiers are not empty, the hub is put them and the proof hash under the session key, and
  -- answers with the status 200.
  pub record IsPut (proof_hash : Text) (verifiers : V) (body : VerifierBody) : Type 0 where
    pub truthy : w.truthy verifiers ≡ true
    pub encrypt : Text → Option Text
    pub session : w.session_key ≡ some encrypt
    pub hash_sealed : encrypt proof_hash ≡ some body.proof_hash
    pub verifiers_sealed : encrypt (w.dumps verifiers) ≡ some body.verifiers
    pub answered : w.answers body ≡ some 200

  -- The request is sealed for the node's private key, and its texts are put to the hub.
  pub record IsUpdate (r : VerifierRequest) (body : VerifierBody) : Type 0 where
    pub decrypt : Text → Decrypted
    pub key : w.private_key ≡ decryptor decrypt
    pub proof_hash : Text
    pub hash_read : decrypt r.proof_hash ≡ plain proof_hash
    pub text : Text
    pub text_read : decrypt r.verifier ≡ plain text
    pub verifiers : V
    pub text_loaded : w.loads text ≡ some verifiers
    pub put : IsPut proof_hash verifiers body

  update_verifier-put :
      (h : Text) (v : V) (b : VerifierBody) (encrypt : Text → Option Text)
      → w.session_key ≡ some encrypt
      → encrypt h ≡ some b.proof_hash
      → encrypt (w.dumps v) ≡ some b.verifiers
      → update_verifier w (some h) v ≡ (b ∷ [], updated (is_ok (w.answers b)))
  unfolding update_verifier
  update_verifier-put h v b encrypt s e f = rw (s, update_verifier, e, f) refl

  check_verifiers-IsPut :
      (h : Text) (v : V) (b : VerifierBody)
      → IsPut h v b
      → check_verifiers w (some h) v ≡ (b ∷ [], successful)
  unfolding check_verifiers
  check_verifiers-IsPut h v b p =
      rw
        (
          p.truthy,
          check_verifiers,
          update_verifier-put h v b p.encrypt p.session p.hash_sealed p.verifiers_sealed,
          p.answered,
        )
        refl

  handle_verifier-IsUpdate :
      (r : VerifierRequest) (b : VerifierBody)
      → IsUpdate r b
      → handle_verifier w r ≡ (b ∷ [], successful)
  unfolding handle_verifier
  handle_verifier-IsUpdate r b u =
      rw (u.key, handle_verifier, u.hash_read, u.text_read, loaded, u.text_loaded)
        (check_verifiers-IsPut u.proof_hash u.verifiers b u.put)

  is_ok-200 : (o : Option ℕ) → is_ok o ≡ true → o ≡ some 200
  is_ok-200 none e = absurd cc
  is_ok-200 (some status) e = ap some (ground arith)

  put_body-successful :
      (x y : Option Text)
      → verdict_of (put_body w x y).1 ≡ successful
      → (b : VerifierBody) × (x ≡ some b.proof_hash)
        × (y ≡ some b.verifiers)
        × (w.answers b ≡ some 200)
  put_body-successful none y e = absurd cc
  put_body-successful (some h) none e = absurd cc
  put_body-successful (some h) (some v) e =
      let b : VerifierBody = record { proof_hash = h; verifiers = v } in
      elim (Bool-cases (is_ok (w.answers b))) [
        | inl q ↦ (b, refl, refl, is_ok-200 (w.answers b) q)
        | inr q ↦ absurd (cc)
      ]

  refused : (o : Option Text) (v : V) → w.truthy v ≡ false → (check_verifiers w o v).1 ≢ successful
  unfolding check_verifiers
  refused o v f = rw (f, check_verifiers) (λ e. cc)

  unsent :
      (o : Option Text) (v : V)
      → w.truthy v ≡ true
      → w.session_key ≡ none
      → (check_verifiers w o v).1 ≢ successful
  unfolding check_verifiers update_verifier
  unsent o v t n = rw (t, n, check_verifiers, update_verifier) (λ e. cc)

  sent_verdict :
      (o : Option Text) (v : V) (encrypt : Text → Option Text)
      → w.truthy v ≡ true
      → w.session_key ≡ some encrypt
      → (check_verifiers w o v).1
        ≡ verdict_of (put_body w (encrypt_hash encrypt o) (encrypt (w.dumps v))).1
  unfolding check_verifiers update_verifier
  sent_verdict o v encrypt t s = rw (t, s, check_verifiers, update_verifier) refl

  encrypt_hash-some :
      (encrypt : Text → Option Text) (o : Option Text) (x : Text)
      → encrypt_hash encrypt o ≡ some x
      → (h : Text) × (o ≡ some h) × (encrypt h ≡ some x)
  encrypt_hash-some encrypt none x e = absurd cc
  encrypt_hash-some encrypt (some h) x e = (h, refl, e)

  sent :
      (o : Option Text) (v : V) (encrypt : Text → Option Text)
      → w.truthy v ≡ true
      → w.session_key ≡ some encrypt
      → verdict_of (put_body w (encrypt_hash encrypt o) (encrypt (w.dumps v))).1 ≡ successful
      → (h : Text) × (o ≡ some h) × ((b : VerifierBody) × IsPut h v b)
  sent o v encrypt t s e =
      let (b, x, y, z) = put_body-successful (encrypt_hash encrypt o) (encrypt (w.dumps v)) e in
      let (h, q, p) = encrypt_hash-some encrypt o b.proof_hash x in
      (
        h,
        q,
        (
          b,
          record {
            truthy = t;
            encrypt = encrypt;
            session = s;
            hash_sealed = p;
            verifiers_sealed = y;
            answered = z;
          },
        ),
      )

  check_verifiers-successful :
      (o : Option Text) (v : V)
      → (check_verifiers w o v).1 ≡ successful
      → (h : Text) × (o ≡ some h) × ((b : VerifierBody) × IsPut h v b)
  unfolding check_verifiers update_verifier
  check_verifiers-successful o v e = elim (Bool-cases (w.truthy v)) [
    | inr f ↦ absurd (refused o v f e)
    | inl t ↦ elim (Option-cases w.session_key) [
      | inl n ↦ absurd (unsent o v t n e)
      | inr (encrypt, s) ↦ sent o v encrypt t s (sym (sent_verdict o v encrypt t s) ∙ e)
    ]
  ]

  after_decrypt-successful :
      (x : Option (Option Text)) (y : Option V)
      → (after_decrypt w x y).1 ≡ successful
      → (h : Text) × (v : V) × (x ≡ some (some h))
        × (y ≡ some v)
        × ((b : VerifierBody) × IsPut h v b)
  after_decrypt-successful none y e = absurd cc
  after_decrypt-successful (some o) none e = absurd cc
  after_decrypt-successful (some o) (some v) e =
      let c = check_verifiers-successful o v e in (c.0, v, ap some c.1, refl, c.2)

  loaded-some :
      (d : Decrypted) (v : V)
      → loaded w d ≡ some v
      → (t : Text) × (d ≡ plain t) × (w.loads t ≡ some v)
  loaded-some (plain t) v e = (t, refl, e)
  loaded-some undecrypted v e = absurd cc
  loaded-some error v e = absurd cc

hash_of-some : (d : Decrypted) (h : Text) → hash_of d ≡ some (some h) → d ≡ plain h
hash_of-some (plain t) h e = ground arith
hash_of-some undecrypted h e = absurd cc
hash_of-some error h e = absurd cc

KeyFile-cases :
    (k : KeyFile) → (k ≡ missing) ⊎ ((k ≡ malformed) ⊎ ((d : Text → Decrypted) × (k ≡ decryptor d)))
KeyFile-cases missing = inl refl
KeyFile-cases malformed = inr (inl refl)
KeyFile-cases (decryptor d) = inr (inr (d, refl))

http_of-successful :
    (v : Verdict)
    → http_of v ≡ status_response status_code_successfully (codes "Successfully")
    → v ≡ successful
http_of-successful successful e = refl
http_of-successful key_not_found e = absurd cc
http_of-successful invalid_input e = absurd cc
http_of-successful no_verifiers e = absurd cc
http_of-successful update_failed e = absurd cc
http_of-successful escaped e = absurd cc

module _ {V : Type 0} (w : VerifierWorld V) where
  handle_verifier-decryptor :
      (r : VerifierRequest) (decrypt : Text → Decrypted)
      → w.private_key ≡ decryptor decrypt
      → handle_verifier w r
        ≡ after_decrypt w (hash_of (decrypt r.proof_hash)) (loaded w (decrypt r.verifier))
  unfolding handle_verifier
  handle_verifier-decryptor r decrypt e = rw (e, handle_verifier) refl

  handle_verifier-read :
      (r : VerifierRequest) (decrypt : Text → Decrypted)
      → w.private_key ≡ decryptor decrypt
      → (after_decrypt w (hash_of (decrypt r.proof_hash)) (loaded w (decrypt r.verifier))).1
        ≡ successful
      → (b : VerifierBody) × IsUpdate w r b
  handle_verifier-read r decrypt k e =
      let (h, v, x, y, (b, p)) =
        after_decrypt-successful w (hash_of (decrypt r.proof_hash)) (loaded w (decrypt r.verifier))
          e in
      let (t, q, l) = loaded-some w (decrypt r.verifier) v y in
      (
        b,
        record {
          decrypt = decrypt;
          key = k;
          proof_hash = h;
          hash_read = hash_of-some (decrypt r.proof_hash) h x;
          text = t;
          text_read = q;
          verifiers = v;
          text_loaded = l;
          put = p;
        },
      )

  handle_verifier-successful :
      (r : VerifierRequest)
      → (handle_verifier w r).1 ≡ successful
      → (b : VerifierBody) × IsUpdate w r b
  unfolding handle_verifier
  handle_verifier-successful r e = elim (KeyFile-cases w.private_key) [
    | inl k ↦ absurd (ground arith)
    | inr (inl k) ↦ absurd (ground arith)
    | inr (inr (decrypt, k)) ↦ handle_verifier-read r decrypt k (
        ap (λ (x : List VerifierBody × Verdict). x.1) (sym (handle_verifier-decryptor r decrypt k))
        ∙ e)
  ]

  -- The handler `verifier` answers with success exactly if the request's proof hash and list of
  -- verifiers are sealed for the node's private key, the list is not empty, and the hub answers with
  -- the status 200 to the body that seals them for the session key; and then this body is all that
  -- was put to the hub.
  pub verifier-accepts :
      (r : VerifierRequest)
      → (((verifier w r).1 ≡ status_response status_code_successfully (codes "Successfully"))
          ↔ ((b : VerifierBody) × IsUpdate w r b))
        × ((b : VerifierBody)
            → IsUpdate w r b
            → verifier w r
              ≡ (b ∷ [], status_response status_code_successfully (codes "Successfully")))
  unfolding verifier
  verifier-accepts r = (
    (
      λ e. handle_verifier-successful r (http_of-successful (handle_verifier w r).1 e),
      λ u. rw (verifier, handle_verifier-IsUpdate w r u.0 u.1) refl,
    ),
    λ b u. rw (verifier, handle_verifier-IsUpdate w r b u) refl,
  )
