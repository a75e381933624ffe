-- ===== src/Hub/Dispatch.antt =====
-- `hub_get_node` and `hub_get_node_status` of hub/src/application/api/v1/hub/node/api.py, with
-- hub/src/modules/proof_manager/main.py: a proof hash for a client, and the nodes it is pushed to.
pub mod Pushed
mod Examples
use prover.Prelude.{
  ℕ, zero, suc, ◌+◌, ◌==◌, Bool, true, false, Option, none, some, List, [], ◌∷◌, ◌++◌, Text, codes,
  if◌then◌else◌, length, is_empty,
}
use prover.Prelude.Decimal.{decimal}
use prover.Dict.{Dict}
use prover.Hub.Http.{
  NodeInfoModel, StatusEntry, Json, str, nodes, status_nodes, Response, raised, http_response,
  Model, respond, model, ok, invalid_request, server_error, private_key_not_exist, successfully,
  null,
}
use prover.Hub.NodeList.{Node, NodeList, NodeInfo, get_node}

-- A push that the hub has put in the queue: the node's address, the proof hash and its signature.
pub record Push : Type 0 where
  pub http_info : Text
  pub proof_hash : Text
  pub signature : Text

-- How a `process_node` ends: with its model, or with an exception before or after the push is queued.
pub data ProcessEnd : Type 0 where
  enqueued failed_before failed_after : ProcessEnd

-- What the handler is told: whether the key is there, with its `sign`; the identifier of the
-- request and the time in milliseconds; and for each round the list of nodes, which other requests
-- and the cleanup change while the handler waits, what `random.sample` draws, and how the
-- `process_node` of a node ends.
pub record World : Type 0 where
  pub sign : Option (Text → Text)
  pub request_id : Text
  pub now_ms : ℕ
  pub sample : ℕ → List Text
  pub node_list : ℕ → NodeList
  pub ends : ℕ → NodeInfo → ProcessEnd

-- `generate_proof_hash`
unfoldable pub generate_proof_hash : (Text → Text) → Text → ℕ → Text
generate_proof_hash sha256_hex text now_ms =
    codes "0x" ++ sha256_hex (text ++ codes "-" ++ decimal now_ms)

abbrev pub model_of : NodeInfo → NodeInfoModel
model_of (grpc_info, http_info, timestamp, poh) = record {
  grpc_address = grpc_info;
  grpc_timestamp = timestamp;
  http_address = http_info;
  http_timestamp = timestamp;
  poh = poh;
}

abbrev pub keep_model : ProcessEnd → NodeInfo → List NodeInfoModel → List NodeInfoModel
keep_model enqueued n rest = model_of n ∷ rest
keep_model failed_before n rest = rest
keep_model failed_after n rest = rest

-- `process_node` for the nodes of a round: the models of those that it does not raise for.
unfoldable pub process_nodes : (NodeInfo → ProcessEnd) → List NodeInfo → List NodeInfoModel
process_nodes ends [] = []
process_nodes ends (n ∷ ns) = keep_model (ends n) n (process_nodes ends ns)

abbrev pub add_push : ProcessEnd → Push → List Push → List Push
add_push enqueued p rest = p ∷ rest
add_push failed_before p rest = rest
add_push failed_after p rest = p ∷ rest

-- The tasks that `process_node` creates on its way.
unfoldable pub pushes_for : Text → Text → (NodeInfo → ProcessEnd) → List NodeInfo → List Push
pushes_for proof_hash signature ends [] = []
pushes_for proof_hash signature ends (n ∷ ns) =
    add_push (ends n) (record { http_info = n.1; proof_hash = proof_hash; signature = signature })
      (pushes_for proof_hash signature ends ns)

-- What the loop leaves: the models and the pushes, or the exception of `get_node`.
pub data Selected : Type 0 where
  selected : List NodeInfoModel → List Push → Selected
  key_error : List Push → Selected

-- One round after `get_node`; `rest` goes on with the models and pushes so far.
unfoldable pub round :
    (NodeInfo → ProcessEnd)
    → Text
    → Text
    → List NodeInfoModel
    → List Push
    → Option (List NodeInfo)
    → (List NodeInfoModel → List Push → Selected)
    → Selected
unfolding process_nodes pushes_for
round ends proof_hash signature models pushes none rest = key_error pushes
round ends proof_hash signature models pushes (some []) rest = rest models pushes
round ends proof_hash signature models pushes (some (n ∷ ns)) rest =
    let done = process_nodes ends (n ∷ ns) in
    let pushes' = pushes ++ pushes_for proof_hash signature ends (n ∷ ns) in
    let again = rest done pushes' in
    if length done == length (n ∷ ns) then selected done pushes' else again

-- `for attempt in range(3)`: the rounds that are left, and the number of the next one.
unfoldable pub rounds : World → Text → Text → ℕ → ℕ → List NodeInfoModel → List Push → Selected
unfolding round
rounds w proof_hash signature zero attempt models pushes = selected models pushes
rounds w proof_hash signature (suc left) attempt models pushes =
    round (w.ends attempt) proof_hash signature models pushes
      (get_node 4 (w.sample attempt) (w.node_list attempt))
      (rounds w proof_hash signature left (suc attempt))

abbrev pub found : Text → List NodeInfoModel → Model
found proof_hash models = record {
  code = successfully.0;
  msg = successfully.1;
  fields = (codes "results", nodes models) ∷ (codes "proof_hash", str proof_hash) ∷ [];
}

unfoldable pub answer : Text → Selected → List Push × Response
answer proof_hash (key_error pushes) = (pushes, raised)
answer proof_hash (selected [] pushes) = (
  pushes,
  http_response none (some (codes "Failed to process any nodes.")) null invalid_request [],
)
answer proof_hash (selected (m ∷ ms) pushes) = (pushes, respond ok (found proof_hash (m ∷ ms)))

-- `hub_get_node`: the pushes that it starts, and its answer.
unfoldable pub hub_get_node : (Text → Text) → World → List Push × Response
unfolding answer rounds generate_proof_hash
hub_get_node sha256_hex w = elim w.sign [
  | none ↦ ([], respond server_error (model private_key_not_exist))
  | some sign ↦
      let proof_hash = generate_proof_hash sha256_hex w.request_id w.now_ms in
      answer proof_hash (rounds w proof_hash (sign proof_hash) 3 0 [] [])
]

-- `_node_status_payload`, from an index on.
unfoldable pub status_entries : ℕ → Dict Node → List StatusEntry
status_entries idx [] = []
status_entries idx ((node_id, node) ∷ rest) =
    record {
      index = idx;
      id = node_id;
      grpc_info = node.grpc_info;
      http_info = node.http_info;
      timestamp = node.timestamp;
      poh = node.poh;
    }
    ∷ status_entries (suc idx) rest

-- `hub_get_node_status`; nothing in it raises.
unfoldable pub hub_get_node_status : NodeList → Response
unfolding status_entries
hub_get_node_status l =
    let entries = status_entries 0 l.nodes in
    respond ok (record {
      code = successfully.0;
      msg = successfully.1;
      fields = (codes "results", status_nodes (length entries) entries) ∷ [];
    })
