-- ===== src/Node/Heartbeat/Registered.antt =====
-- The heartbeats of a node at the hub: `send_heartbeat` of prover/node/src/modules/hub/main.py,
-- `hub_post_node` of hub/src/application/api/v1/hub/node/api.py, and the job `update_node_list`.
use prover.Prelude.{
  ℕ, ◌+◌, ◌≤◌, ◌≡◌, refl, true, false, Option, none, some, [], ◌∷◌, Text, is_empty, ap, ◌∙◌, arith,
  All, All-mono, length, leb, zero, suc, if◌then◌else◌,
}
use prover.PyText.{strip, lower, starts_with}
use prover.Dict.{IsUnique, lookup, lookup-filter, keep, lookup-insert, insert-IsUnique}
use prover.Hub.Address.{Net, validate_grpc_address, validate_http_address}
use prover.Hub.NodeList.{NodeList, add, update_node_list, generate_unique}
use prover.Hub.NodeList.Listing.{timestamp_of}
use prover.Hub.Register.{
  Decrypted, plain, encryptor, pinged, Request, World, is_ascii, compare_digest,
  extract_node_register_token, hub_post_node,
}
use prover.Hub.Register.Stages.{Accepts, accepted, plaintext}
use prover.Hub.Register.Soundness.{hub_post_node-Accepts}
use prover.Node.Heartbeat.{
  NodeWorld, Heartbeat, or_else, node_register_headers, looping, start, send_heartbeat,
}

abbrev pub header : Option Text → Text
header none = []
header (some token) = token

-- The request that a heartbeat is to the hub.
abbrev pub request_of : Heartbeat → Request
request_of b = record {
  authorization = [];
  node_token = header b.node_token;
  grpc_info = b.grpc_info;
  http_info = b.http_info;
}

-- The node and the hub agree: on the token, and on the keys; and the hub finds the node's two
-- addresses in order, and both answer.
pub record IsAgreed (net : Net) (w : World) (n : NodeWorld) (seal : Text → Text) : Type 0 where
  pub session : n.session_key ≡ some (λ s. some (seal s))
  pub decrypt : Text → Decrypted
  pub key : w.key ≡ encryptor decrypt
  pub opens : (s : Text) → decrypt (seal s) ≡ plain s
  pub token_set : is_empty (strip w.node_register_token) ≡ false
  pub token_ascii : is_ascii (strip w.node_register_token) ≡ true
  pub token_same :
      strip (or_else n.node_register_token n.environment_token) ≡ strip w.node_register_token
  pub grpc_nonempty : is_empty n.grpc ≡ false
  pub http_nonempty : is_empty n.http ≡ false
  pub grpc_valid : validate_grpc_address net w.allowed n.grpc ≡ none
  pub http_valid : validate_http_address net w.allowed n.http ≡ none
  pub reachable : w.pings n.grpc n.http ≡ pinged true true

header_of : (t : Text) → header (if is_empty t then none else some t) ≡ t
header_of [] = refl
header_of (c ∷ cs) = refl

header-node_register_headers :
    (n : NodeWorld)
    → header (node_register_headers n) ≡ or_else n.node_register_token n.environment_token
unfolding node_register_headers
header-node_register_headers n = header_of (or_else n.node_register_token n.environment_token)

compare_digest-same : (t : Text) → is_ascii t ≡ true → compare_digest t t ≡ some true
unfolding compare_digest
compare_digest-same t e = ground arith

extract-token :
    (b : Heartbeat) → extract_node_register_token (request_of b) ≡ strip (header b.node_token)
unfolding extract_node_register_token starts_with lower
extract-token b = refl

-- The heartbeat that the node makes.
abbrev pub beat : NodeWorld → (Text → Text) → Heartbeat
beat n seal = record {
  node_token = node_register_headers n;
  grpc_info = seal n.grpc;
  http_info = seal n.http;
}

start-looping :
    (n : NodeWorld) (seal : Text → Text)
    → n.session_key ≡ some (λ s. some (seal s))
    → start n ≡ looping (beat n seal)
unfolding start
start-looping n seal e = rw (e, start) refl

send_heartbeat-beats :
    (rounds : ℕ) (b : Heartbeat) → All (λ x. x ≡ b) (send_heartbeat rounds (looping b))
unfolding send_heartbeat
send_heartbeat-beats zero b = tt
send_heartbeat-beats (suc rounds) b = (refl, send_heartbeat-beats rounds b)

length-send_heartbeat :
    (rounds : ℕ) (b : Heartbeat) → length (send_heartbeat rounds (looping b)) ≡ rounds
unfolding send_heartbeat
length-send_heartbeat zero b = refl
length-send_heartbeat (suc rounds) b = ap suc (length-send_heartbeat rounds b)

module _ (sha256_hex : Text → Text) (net : Net) (w : World) (n : NodeWorld)
    (seal : Text → Text) where
  beat-Accepts :
      IsAgreed net w n seal → Accepts sha256_hex net w (request_of (beat n seal)) n.grpc n.http
  beat-Accepts a =
      let token : extract_node_register_token (request_of (beat n seal))
          ≡ strip w.node_register_token =
        extract-token (beat n seal) ∙ ap strip (header-node_register_headers n) ∙ a.token_same in
      record {
        configured = a.token_set;
        presented = ap is_empty token ∙ a.token_set;
        matches = rw token (compare_digest-same (strip w.node_register_token) a.token_ascii);
        grpc_text = rw (a.key, plaintext, a.opens) refl;
        http_text = rw (a.key, plaintext, a.opens) refl;
        grpc_nonempty = a.grpc_nonempty;
        http_nonempty = a.http_nonempty;
        grpc_valid = a.grpc_valid;
        http_valid = a.http_valid;
        reachable = a.reachable;
      }

  listed :
      (t : ℕ) (l : NodeList)
      → IsUnique l.nodes
      → t ≤ w.now + 600
      → timestamp_of (
          lookup
            (generate_unique sha256_hex n.grpc n.http)
            (update_node_list t (add sha256_hex w.now n.grpc n.http l)).nodes)
        ≡ some w.now
  unfolding update_node_list add
  listed t l u h =
      let key = generate_unique sha256_hex n.grpc n.http in
      ap timestamp_of (
        lookup-filter (λ x. leb t (x.timestamp + 600)) key
          (add sha256_hex w.now n.grpc n.http l).nodes (insert-IsUnique key _ l.nodes u)
        ∙ ap (keep (λ x. leb t (x.timestamp + 600))) (lookup-insert key key _ l.nodes))
      ∙ ground arith

  -- A node that agrees with the hub on the token and the keys, and whose addresses are in order and
  -- answer, is registered by each of its heartbeats: every request that `send_heartbeat` posts makes
  -- the hub add the node's two addresses and answer with success, whatever is in the list, and no
  -- cleanup within the next 600 seconds drops the node from it.
  pub hub_post_node-send_heartbeat :
      (rounds : ℕ) (l : NodeList)
      → IsAgreed net w n seal
      → IsUnique l.nodes
      → All
          (λ b.
            (hub_post_node sha256_hex net w (request_of b) l
              ≡ accepted sha256_hex net w n.grpc n.http l)
            × ((t : ℕ)
                → t ≤ w.now + 600
                → timestamp_of (
                    lookup
                      (generate_unique sha256_hex n.grpc n.http)
                      (update_node_list t
                        (hub_post_node sha256_hex net w (request_of b) l).0).nodes)
                  ≡ some w.now))
          (send_heartbeat rounds (start n))
        × (length (send_heartbeat rounds (start n)) ≡ rounds)
  hub_post_node-send_heartbeat rounds l a u =
      let registered =
        hub_post_node-Accepts sha256_hex net w (request_of (beat n seal)) n.grpc n.http l
          (beat-Accepts a) in
      rw (start-looping n seal a.session) (
        All-mono (λ b e. rw (e, registered) (refl, λ t h. listed t l u h))
            (send_heartbeat rounds (looping (beat n seal)))
            (send_heartbeat-beats rounds (beat n seal)),
        length-send_heartbeat rounds (beat n seal),
      )
