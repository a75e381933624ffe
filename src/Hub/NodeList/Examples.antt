-- ===== src/Hub/NodeList/Examples.antt =====
-- The node list of node_list/main.py on small inputs, with the identity in place of SHA-256.
use prover.Prelude.{
  ◌≡◌, refl, none, some, List, [], ◌∷◌, map, min, arith, Text, codes, text_discrete, length,
  IsDistinct, All,
}
use prover.Dict.{lookup, insert}
use prover.Json.{dumps}
use prover.Hub.NodeList.{NodeList, NodeInfo, init, add, get_node, generate_unique}
use prover.Hub.NodeList.Listing.{
  Event, heartbeat, cleanup, after, last_seen, timestamp_of, lookup-after,
}
use prover.Hub.NodeList.Selection.{IsValid, IsListed, key_of, get_node-IsListed}

abbrev identity : Text → Text
identity s = s

identity_injective : (s t : Text) → identity s ≡ identity t → s ≡ t
identity_injective s t h = h

abbrev history : List Event
history =
    cleanup 700
    ∷ heartbeat 650 (codes "b:1") (codes "http://b")
    ∷ heartbeat 101 (codes "a:1") (codes "http://a")
    ∷ heartbeat 50 (codes "b:1") (codes "http://b")
    ∷ heartbeat 20 (codes "c:1") (codes "http://c")
    ∷ []

lookup-after_example :
    timestamp_of (
      lookup
        (generate_unique identity (codes "b:1") (codes "http://b"))
        (after identity identity_injective history).nodes)
    ≡ last_seen (codes "b:1") (codes "http://b") history
lookup-after_example =
    lookup-after identity identity_injective history (codes "b:1") (codes "http://b") (ground arith)
      (ground arith) (ground arith)

-- The node that was silent for more than ten minutes is dropped, the others stay.
seen : last_seen (codes "c:1") (codes "http://c") history ≡ none
unfolding last_seen text_discrete
seen = refl

abbrev listed : NodeList
listed = add identity 9 (codes "a:1") (codes "http://a") init

listed-IsValid : IsValid identity listed
unfolding insert add lookup
listed-IsValid = record { unique = (refl, tt); keyed = (refl, tt) }

get_node-IsListed_example :
    (ns : List NodeInfo) × (get_node 1
        (generate_unique identity (codes "a:1") (codes "http://a") ∷ [])
        listed
      ≡ some ns)
    × (length ns ≡ min 1 (length listed.nodes))
    × IsDistinct (map (key_of identity) ns)
    × All (IsListed identity listed.nodes) ns
unfolding lookup insert text_discrete add dumps
get_node-IsListed_example =
    get_node-IsListed identity 1 (generate_unique identity (codes "a:1") (codes "http://a") ∷ [])
      listed listed-IsValid
      (λ h. record { sized = refl; distinct = (tt, tt); present = (refl, tt) })
