-- ===== src/Hub/NodeList/Listing.antt =====
-- Which nodes are listed after any heartbeats and cleanups: the list of node_list/main.py against
-- the history of what happened.
use prover.Prelude.{
  ℕ, ◌+◌, ◌≡◌, refl, Option, none, some, List, [], ◌∷◌, ite, arith, Text, codes, text_discrete, leb,
  All, drop, ◌++◌, ◌∙◌, ap,
}
use prover.Dict.{
  lookup, IsUnique, keep, lookup-insert, lookup-filter, insert-IsUnique, filter-IsUnique,
}
use prover.Json.{dumps, string, escape}
use prover.Json.Injective.{IsScalar, escape-injective}
use prover.Hub.NodeList.{Node, NodeList, init, add, generate_unique, update_node_list}

-- What happens to the list: a node registers, or the job runs.
pub data Event : Type 0 where
  heartbeat : ℕ → Text → Text → Event
  cleanup : ℕ → Event

-- Texts of the wire hold no surrogates.
abbrev pub IsClean : Event → Type 0
IsClean (heartbeat _ g h) = All IsScalar g × All IsScalar h
IsClean (cleanup _) = Unit

-- The history, the latest event first: when a pair of addresses was last heard of, if no cleanup
-- has found it silent for more than 600 seconds since.
unfoldable pub last_seen : Text → Text → List Event → Option ℕ
last_seen g h [] = none
last_seen g h (heartbeat now g' h' ∷ es) =
    ite (text_discrete g g') (ite (text_discrete h h') (some now) (last_seen g h es))
      (last_seen g h es)
last_seen g h (cleanup now ∷ es) = keep (λ seen. leb now (seen + 600)) (last_seen g h es)

abbrev pub timestamp_of : Option Node → Option ℕ
timestamp_of none = none
timestamp_of (some n) = some n.timestamp

generate-injective :
    (g h g' h' : Text)
    → All IsScalar g
    → All IsScalar h
    → All IsScalar g'
    → All IsScalar h'
    → dumps ((codes "grpc_info", string g) ∷ (codes "http_info", string h) ∷ [])
      ≡ dumps ((codes "grpc_info", string g') ∷ (codes "http_info", string h') ∷ [])
    → (g ≡ g') × (h ≡ h')
unfolding dumps
generate-injective g h g' h' cg ch cg' ch' e =
    let (p, r) =
      escape-injective g g' (codes ", \"http_info\": \"" ++ escape h (codes "}"))
        (codes ", \"http_info\": \"" ++ escape h' (codes "}")) cg cg' (ap (drop 15) e) in
    let (q, _) = escape-injective h h' (codes "}") (codes "}") ch ch' (ap (drop 16) r) in (p, q)

module _ (sha256_hex : Text → Text)
    (collision_free : (s t : Text) → sha256_hex s ≡ sha256_hex t → s ≡ t) where
  -- If the hash has no collision, distinct pairs of addresses, of Unicode scalar values, have
  -- distinct keys.
  pub generate_unique-injective :
      (g h g' h' : Text)
      → All IsScalar g
      → All IsScalar h
      → All IsScalar g'
      → All IsScalar h'
      → generate_unique sha256_hex g h ≡ generate_unique sha256_hex g' h'
      → (g ≡ g') × (h ≡ h')
  unfolding generate_unique
  generate_unique-injective g h g' h' cg ch cg' ch' e =
      generate-injective g h g' h' cg ch cg' ch' (collision_free _ _ e)

  unfoldable pub step : Event → NodeList → NodeList
  step (heartbeat now g h) l = add sha256_hex now g h l
  step (cleanup now) l = update_node_list now l

  -- The list after a history, from a new one.
  unfoldable pub after : List Event → NodeList
  unfolding step
  after [] = init
  after (e ∷ es) = step e (after es)

  after-IsUnique : (es : List Event) → IsUnique (after es).nodes
  unfolding after add update_node_list
  after-IsUnique [] = tt
  after-IsUnique (heartbeat now g h ∷ es) = insert-IsUnique _ _ (after es).nodes (after-IsUnique es)
  after-IsUnique (cleanup now ∷ es) = filter-IsUnique _ (after es).nodes (after-IsUnique es)

  timestamp_of-keep :
      (now : ℕ) (o : Option Node)
      → timestamp_of (keep (λ n. leb now (n.timestamp + 600)) o)
        ≡ keep (λ seen. leb now (seen + 600)) (timestamp_of o)
  timestamp_of-keep now none = refl
  timestamp_of-keep now (some n) = ground arith

  timestamp_of-add :
      (now : ℕ) (g h j : Text) (l : NodeList)
      → timestamp_of (lookup j (add sha256_hex now g h l).nodes)
        ≡ ite
            (text_discrete j (generate_unique sha256_hex g h))
            (some now)
            (timestamp_of (lookup j l.nodes))
  unfolding add
  timestamp_of-add now g h j l =
      rw (lookup-insert (generate_unique sha256_hex g h) j _ l.nodes) (ground arith)

  -- If the hash has no collision and the addresses are texts of Unicode scalar values, then after
  -- any history the hub lists a pair of addresses exactly if it was heard of and no cleanup has
  -- found it silent for more than 600 seconds, and then with the time of its last heartbeat.
  pub lookup-after :
      (es : List Event) (g h : Text)
      → All IsClean es
      → All IsScalar g
      → All IsScalar h
      → timestamp_of (lookup (generate_unique sha256_hex g h) (after es).nodes) ≡ last_seen g h es
  unfolding after last_seen lookup update_node_list
  lookup-after [] g h c cg ch = refl
  lookup-after (heartbeat now g' h' ∷ es) g h (c, cs) cg ch = ground (
    arith,
    timestamp_of-add now g' h' (generate_unique sha256_hex g h) (after es),
    generate_unique-injective g h g' h' cg ch c.0 c.1,
    lookup-after es g h cs cg ch,
  )
  lookup-after (cleanup now ∷ es) g h (c, cs) cg ch =
      ap timestamp_of (
        lookup-filter (λ n. leb now (n.timestamp + 600)) (generate_unique sha256_hex g h)
          (after es).nodes (after-IsUnique es))
      ∙ timestamp_of-keep now (lookup (generate_unique sha256_hex g h) (after es).nodes)
      ∙ ap (keep (λ seen. leb now (seen + 600))) (lookup-after es g h cs cg ch)
