-- ===== src/Hub/Register/Soundness.antt =====
-- Who gets into the node list through `hub_post_node` of node/api.py.
use prover.Prelude.{◌≡◌, ◌⊎◌, inl, inr, Text, is_empty, Bool-cases, ap, ◌∙◌, sym, subst}
use prover.PyText.{strip}
use prover.Hub.Address.{Net}
use prover.Hub.Http.{Response, status_of, model, ok, successfully}
use prover.Hub.NodeList.{NodeList}
use prover.Hub.Register.{Request, World, extract_node_register_token, hub_post_node}
use prover.Hub.Register.Stages.{
  Accepts, accepted, IsRefused, check_token-cases, with_key-cases, token_configured, token_matches,
  IsRefused-disabled, status_of-respond, with_key-plaintext, check_decrypted-good,
}

module _ (sha256_hex : Text → Text) (net : Net) (w : World) where
  -- Of every registration request one of two holds. Either the token is configured and shown, the
  -- body decrypts to two addresses in order that both answer their ping, and then the list becomes
  -- the old one with these addresses added, and the answer is 200; or the list is as it was, and the
  -- answer is not 200.
  pub hub_post_node-cases :
      (r : Request) (l : NodeList)
      → ((g : Text) × (h : Text) × Accepts sha256_hex net w r g h
          × (hub_post_node sha256_hex net w r l ≡ accepted sha256_hex net w g h l)
          × (status_of (hub_post_node sha256_hex net w r l).1 ≡ ok))
        ⊎ IsRefused l (hub_post_node sha256_hex net w r l)
  hub_post_node-cases r l = elim (Bool-cases (is_empty (strip w.node_register_token))) [
    | inl e ↦ inr (unfold hub_post_node in rw e (IsRefused-disabled sha256_hex net w l))
    | inr e ↦
        elim (check_token-cases sha256_hex net w r (extract_node_register_token r)
          (strip w.node_register_token) l) [
            | inr bad ↦
                inr (subst (IsRefused l) (sym (token_configured sha256_hex net w r l e)) bad)
            | inl (shown, same, to_key) ↦ elim (with_key-cases sha256_hex net w r w.key l) [
              | inr bad ↦
                  inr (
                    subst (IsRefused l) (sym (token_configured sha256_hex net w r l e ∙ to_key))
                      bad)
              | inl (g, h, pg, ph, (ng, nh, vg, vh, p), result) ↦
                  let all_the_way = token_configured sha256_hex net w r l e ∙ to_key ∙ result in
                  inl (
                    g,
                    h,
                    record {
                      configured = e;
                      presented = shown;
                      matches = same;
                      grpc_text = pg;
                      http_text = ph;
                      grpc_nonempty = ng;
                      http_nonempty = nh;
                      grpc_valid = vg;
                      http_valid = vh;
                      reachable = p;
                    },
                    all_the_way,
                    ap (λ (x : NodeList × Response). status_of x.1) all_the_way
                        ∙ status_of-respond ok (model successfully),
                  )
            ]
          ]
  ]

  -- A request that shows the configured token, and whose body decrypts to two addresses that are in
  -- order and answer their ping, is accepted: its two addresses are added.
  pub hub_post_node-Accepts :
      (r : Request) (g h : Text) (l : NodeList)
      → Accepts sha256_hex net w r g h
      → hub_post_node sha256_hex net w r l ≡ accepted sha256_hex net w g h l
  hub_post_node-Accepts r g h l a =
      token_configured sha256_hex net w r l a.configured
      ∙ token_matches sha256_hex net w r (extract_node_register_token r)
          (strip w.node_register_token) l a.presented a.matches
      ∙ with_key-plaintext sha256_hex net w r w.key g h l a.grpc_text a.http_text
      ∙ check_decrypted-good sha256_hex net w g h l
          (a.grpc_nonempty, a.http_nonempty, a.grpc_valid, a.http_valid, a.reachable)
