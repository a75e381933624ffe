-- ===== src/Hub/NodeList/Selection.antt =====
-- What `get_node` of node_list/main.py hands out.
use prover.Prelude.{
  ℕ, ◌≤◌, ◌≡◌, ◌≢◌, refl, Bool, true, false, Option, none, some, List, [], ◌∷◌, map, min, arith,
  Text, text_discrete, ltb, All, ◌∙◌, ap, ap₂, sym, subst, length, length-map, IsDistinct, is_some,
  inl, inr, Bool-cases, Option-cases, ltb→lt,
}
use prover.Dict.{
  Dict, lookup, insert, erase, filter, keys, IsUnique, insert-IsUnique, erase-IsUnique,
  filter-IsUnique, keys-IsDistinct, keys_found,
}
use prover.Hub.NodeList.{
  Node, NodeList, NodeInfo, info, infos, get_node, add, remove, generate_unique, update_node_list,
}

-- `random.sample(population, size)`: so many elements, all of the population, none twice.
pub record IsSample (size : ℕ) (nodes : Dict Node) (sample : List Text) : Type 0 where
  pub sized : length sample ≡ size
  pub distinct : IsDistinct sample
  pub present : All (λ k. is_some (lookup k nodes) ≡ true) sample

module _ (sha256_hex : Text → Text) where
  abbrev pub key_of : NodeInfo → Text
  key_of i = generate_unique sha256_hex i.0 i.1

  -- Every node stands under the key of its addresses.
  abbrev pub IsKeyed : Dict Node → Type 0
  IsKeyed [] = Unit
  IsKeyed ((k, n) ∷ d) = (k ≡ generate_unique sha256_hex n.grpc_info n.http_info) × IsKeyed d

  pub record IsValid (l : NodeList) : Type 0 where
    pub unique : IsUnique l.nodes
    pub keyed : IsKeyed l.nodes

  insert-IsKeyed :
      (n : Node) (d : Dict Node)
      → IsKeyed d
      → IsKeyed (insert (generate_unique sha256_hex n.grpc_info n.http_info) n d)
  unfolding insert
  insert-IsKeyed n [] h = (refl, tt)
  insert-IsKeyed n ((k, m) ∷ d) h = ground (arith, insert-IsKeyed n d)

  filter-IsKeyed : (p : Node → Bool) (d : Dict Node) → IsKeyed d → IsKeyed (filter p d)
  unfolding filter
  filter-IsKeyed p [] h = tt
  filter-IsKeyed p ((k, m) ∷ d) h = ground (arith, filter-IsKeyed p d)

  erase-IsKeyed : (j : Text) (d : Dict Node) → IsKeyed d → IsKeyed (erase j d)
  unfolding erase
  erase-IsKeyed j [] h = tt
  erase-IsKeyed j ((k, m) ∷ d) h = ground (arith, erase-IsKeyed j d)

  lookup-IsKeyed :
      (j : Text) (d : Dict Node) {n : Node}
      → IsKeyed d
      → lookup j d ≡ some n
      → j ≡ generate_unique sha256_hex n.grpc_info n.http_info
  unfolding lookup
  lookup-IsKeyed j [] h e = cc
  lookup-IsKeyed j ((k, m) ∷ d) {n} h e = elim (text_discrete j k) [
    | yes p ↦ ground arith
    | no p ↦ lookup-IsKeyed j d {n = n} h.1 (ground arith)
  ]

  not-lt : (a b : ℕ) → ltb a b ≡ false → b ≤ a
  not-lt a b h = ground arith

  some_ne_none : {o : Option Node} → o ≡ none → is_some o ≢ true
  some_ne_none e = λ h. ground arith

  -- The tuple is that of a node in the list.
  abbrev pub IsListed : Dict Node → NodeInfo → Type 0
  IsListed nodes i =
      lookup (key_of i) nodes
      ≡ some (record { grpc_info = i.0; http_info = i.1; timestamp = i.2; poh = i.3 })

  infos-cons :
      (k : Text) (ks : List Text) (nodes : Dict Node) (n : Node) (ns : List NodeInfo)
      → lookup k nodes ≡ some n
      → infos ks nodes ≡ some ns
      → infos (k ∷ ks) nodes ≡ some (info n ∷ ns)
  unfolding infos
  infos-cons k ks nodes n ns h e = rw (h, infos, e)

  -- The keys that are read are found, so nothing is raised and nothing is left out.
  infos_found :
      (ks : List Text) (nodes : Dict Node)
      → IsKeyed nodes
      → All (λ k. is_some (lookup k nodes) ≡ true) ks
      → (ns : List NodeInfo) × (infos ks nodes ≡ some ns)
        × (map key_of ns ≡ ks)
        × All (IsListed nodes) ns
  unfolding infos
  infos_found [] nodes h p = ([], refl, refl, tt)
  infos_found (k ∷ ks) nodes h (p, ps) =
      let (ns, e, same, listed) = infos_found ks nodes h ps in
      elim (Option-cases (lookup k nodes)) [
        | inl missing ↦ absurd (some_ne_none missing p)
        | inr (n, found) ↦
            let here : k ≡ key_of (info n) = lookup-IsKeyed k nodes h found in
            (
              info n ∷ ns,
              infos-cons k ks nodes n ns found e,
              ap₂ ◌∷◌ (sym here) same,
              (subst (λ j. lookup j nodes ≡ some n) here found, listed),
            )
      ]

  -- In a valid list, and with a draw of as many distinct keys of it as were asked for where the list
  -- has that many, `get_node` does not raise. It hands out nodes of the list, none twice: as many as
  -- were asked for, or all if there are fewer, when nothing is drawn.
  pub get_node-IsListed :
      (size : ℕ) (sample : List Text) (l : NodeList)
      → IsValid l
      → (size ≤ length l.nodes → IsSample size l.nodes sample)
      → (ns : List NodeInfo) × (get_node size sample l ≡ some ns)
        × (length ns ≡ min size (length l.nodes))
        × IsDistinct (map key_of ns)
        × All (IsListed l.nodes) ns
  unfolding get_node
  get_node-IsListed size sample l v s = elim (Bool-cases (ltb (length l.nodes) size)) [
    | inl few ↦
        let (ns, e, same, listed) =
          infos_found (keys l.nodes) l.nodes v.keyed (keys_found l.nodes) in
        (
          ns,
          rw few e,
          omega (
            arith,
            sym (length-map ns key_of) ∙ ap length same ∙ length-map l.nodes (λ e. e.0),
            ltb→lt (length l.nodes) size few,
          ),
          subst IsDistinct (sym same) (keys-IsDistinct l.nodes v.unique),
          listed,
        )
    | inr enough ↦
        let drawn = s (not-lt (length l.nodes) size enough) in
        let (ns, e, same, listed) = infos_found sample l.nodes v.keyed drawn.present in
        (
          ns,
          rw enough e,
          omega (
            arith,
            sym (length-map ns key_of) ∙ ap length same ∙ drawn.sized,
            not-lt (length l.nodes) size enough,
          ),
          subst IsDistinct (sym same) drawn.distinct,
          listed,
        )
  ]

  pub add-IsValid :
      (now : ℕ) (g h : Text) (l : NodeList) → IsValid l → IsValid (add sha256_hex now g h l)
  unfolding add
  add-IsValid now g h l v = record {
    unique = insert-IsUnique _ _ l.nodes v.unique;
    keyed = insert-IsKeyed _ l.nodes v.keyed;
  }

  pub update_node_list-IsValid :
      (now : ℕ) (l : NodeList) → IsValid l → IsValid (update_node_list now l)
  unfolding update_node_list
  update_node_list-IsValid now l v = record {
    unique = filter-IsUnique _ l.nodes v.unique;
    keyed = filter-IsKeyed _ l.nodes v.keyed;
  }

  remove_same : (j : Text) (l : NodeList) → is_some (lookup j l.nodes) ≡ false → l ≡ remove j l
  unfolding remove
  remove_same j l e = ground arith

  remove_missing :
      (j : Text) (l : NodeList)
      → is_some (lookup j l.nodes) ≡ false
      → IsValid l
      → IsValid (remove j l)
  unfolding remove
  remove_missing j l e v = subst IsValid (remove_same j l e) v

  pub remove-IsValid : (j : Text) (l : NodeList) → IsValid l → IsValid (remove j l)
  unfolding remove
  remove-IsValid j l v = elim (Bool-cases (is_some (lookup j l.nodes))) [
    | inl e ↦ rw e (record {
      unique = erase-IsUnique j l.nodes v.unique;
      keyed = erase-IsKeyed j l.nodes v.keyed;
    })
    | inr e ↦ remove_missing j l e v
  ]
