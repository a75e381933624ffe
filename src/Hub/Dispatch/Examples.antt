-- ===== src/Hub/Dispatch/Examples.antt =====
-- One node in the list, and a client.
use prover.Prelude.{
  ◌≡◌, ◌≢◌, ◌⊎◌, refl, some, List, [], ◌∷◌, Text, codes, map, min, length, arith, All, IsDistinct,
}
use prover.Dict.{lookup, insert}
use prover.Hub.Http.{respond, status_of, ok}
use prover.Hub.NodeList.{NodeList, NodeInfo, init, add}
use prover.Hub.NodeList.Selection.{IsListed, IsValid, key_of}
use prover.Hub.Dispatch.{World, enqueued, model_of, found, hub_get_node}
use prover.Hub.Dispatch.Pushed.{
  IsServed, hash_of_request, push_to, hub_get_node-cases, hub_get_node-serves,
}

abbrev identity : Text → Text
identity s = s

abbrev sign : Text → Text
sign s = b'!' ∷ s

abbrev listed : NodeList
listed = add identity 9 (codes "a:1") (codes "http://a") init

abbrev world : World
world = record {
  sign = some sign;
  request_id = codes "r";
  now_ms = 7;
  node_list = λ k. listed;
  sample = λ k. [];
  ends = λ k n. enqueued;
}

listed-IsValid : IsValid identity listed
unfolding insert add lookup
listed-IsValid = record { unique = (refl, tt); keyed = (refl, tt) }

hub_get_node-cases_example :
    IsServed
      (hash_of_request identity world sign)
      (sign (hash_of_request identity world sign))
      (hub_get_node identity world)
    ⊎ (status_of (hub_get_node identity world).1 ≢ ok)
hub_get_node-cases_example = hub_get_node-cases identity world sign refl

hub_get_node-serves_example :
    (ns : List NodeInfo) × (hub_get_node identity world ≡ (
      map (push_to identity world sign) ns,
      respond ok (found (hash_of_request identity world sign) (map model_of ns)),
    ))
    × (length ns ≡ min 4 (length listed.nodes))
    × IsDistinct (map (key_of identity) ns)
    × All (IsListed identity listed.nodes) ns
unfolding add insert
hub_get_node-serves_example =
    hub_get_node-serves identity world sign refl listed-IsValid (omega arith)
      (λ h. absurd (omega (arith, h))) (λ i. refl)
