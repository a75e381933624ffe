-- ===== src/Hub/NodeList.antt =====
-- hub/src/modules/node_list/main.py: the registered nodes, and the job of
-- hub/src/scheduler/jobs/update_node_list/task.py that drops the silent ones. Clock readings, in
-- whole seconds, and the sample that `random.sample` draws are arguments; SHA-256 is a parameter.
pub mod Listing
pub mod Selection
mod Examples
use prover.Prelude.{
  ℕ, ◌+◌, Option, none, some, List, [], ◌∷◌, Text, codes, leb, ltb, if◌then◌else◌, length, is_some,
}
use prover.Dict.{Dict, lookup, insert, erase, filter, keys}
use prover.Json.{dumps, null, number, string, Value}

pub record Node : Type 0 where
  pub grpc_info : Text
  pub http_info : Text
  pub timestamp : ℕ
  pub poh : Text

pub record NodeList : Type 0 where
  pub nodes : Dict Node
  pub last_poh_index : Option Text
  pub timeout : ℕ

-- `_init`
abbrev pub init : NodeList
init = record { nodes = []; last_poh_index = none; timeout = 30 }

abbrev pub value_of : Option Text → Value
value_of none = null
value_of (some s) = string s

-- The tuple that `get_node` makes of a node.
abbrev pub NodeInfo : Type 0
NodeInfo = Text × Text × ℕ × Text

abbrev pub info : Node → NodeInfo
info n = (n.grpc_info, n.http_info, n.timestamp, n.poh)

-- `[self.nodes[index] … for index in index_list]`; `none` is a `KeyError`.
unfoldable pub infos : List Text → Dict Node → Option (List NodeInfo)
infos [] nodes = some []
infos (index ∷ rest) nodes = elim (lookup index nodes) [
  | none ↦ none
  | some n ↦ elim (infos rest nodes) [ none ↦ none | some ns ↦ some (info n ∷ ns) ]
]

-- `sample` is what `random.sample(list(self.nodes.keys()), size)` draws.
unfoldable pub get_node : ℕ → List Text → NodeList → Option (List NodeInfo)
unfolding infos
get_node size sample l =
    if ltb (length l.nodes) size then infos (keys l.nodes) l.nodes else infos sample l.nodes

unfoldable pub remove : Text → NodeList → NodeList
remove index l =
    if is_some (lookup index l.nodes) then record l { nodes = erase index l.nodes } else l

-- `(current_time - node["timestamp"]) <= self.timeout`, in Python's integers.
unfoldable pub remove_inactive_nodes : ℕ → NodeList → NodeList
remove_inactive_nodes now l = record l {
  nodes = filter (λ n. leb now (n.timestamp + l.timeout)) l.nodes;
}

unfoldable pub set_timeout : ℕ → NodeList → NodeList
set_timeout timeout l = record l { timeout = timeout }

-- The job `update_node_list`.
unfoldable pub update_node_list : ℕ → NodeList → NodeList
unfolding set_timeout remove_inactive_nodes
update_node_list now l = remove_inactive_nodes now (set_timeout 600 l)

-- `hashlib.sha256(data).hexdigest()`, on the ASCII texts that `json.dumps` makes.
module _ (sha256_hex : Text → Text) where
  unfoldable pub generate_poh : Option Text → Text → Text → ℕ → Text
  generate_poh last_poh_index grpc_info http_info timestamp = sha256_hex (
      dumps (
        (codes "grpc_info", string grpc_info)
        ∷ (codes "http_info", string http_info)
        ∷ (codes "last_poh_index", value_of last_poh_index)
        ∷ (codes "timestamp", number timestamp)
        ∷ []))

  unfoldable pub generate_unique : Text → Text → Text
  generate_unique grpc_info http_info =
      sha256_hex
        (dumps ((codes "grpc_info", string grpc_info) ∷ (codes "http_info", string http_info) ∷ []))

  -- The assignment under `if self.last_poh_index is None` is always followed by the last one.
  unfoldable pub add : ℕ → Text → Text → NodeList → NodeList
  unfolding generate_poh generate_unique
  add timestamp grpc_info http_info l =
      let index = generate_unique grpc_info http_info in
      let poh_index = generate_poh l.last_poh_index grpc_info http_info timestamp in
      let node : Node = record {
        grpc_info = grpc_info;
        http_info = http_info;
        timestamp = timestamp;
        poh = poh_index;
      } in
      record l { nodes = insert index node l.nodes; last_poh_index = some poh_index }
