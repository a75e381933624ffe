-- ===== src/Hub/Dispatch/Pushed.antt =====
-- What a client of `hub_get_node` in node/api.py can rely on.
use prover.Prelude.{
  ℕ, zero, suc, ◌≡◌, ◌≢◌, ◌⊎◌, inl, inr, refl, true, Option, none, some, List, [], ◌∷◌, ◌++◌, Text,
  ◌==◌, length, arith, ap, map, Bool-cases, All, All-mono, ◌≤◌, min, IsDistinct,
}
use prover.Hub.Http.{NodeInfoModel, Response, respond, http_response, status_of, ok}
use prover.Hub.NodeList.{NodeInfo, get_node}
use prover.Hub.NodeList.Selection.{IsSample, IsValid, IsListed, key_of, get_node-IsListed}
use prover.Hub.Dispatch.{
  generate_proof_hash, found, hub_get_node, Push, World, ProcessEnd, enqueued, failed_before,
  failed_after, keep_model, add_push, model_of, process_nodes, pushes_for, Selected, selected,
  key_error, round, rounds, answer,
}

-- Among these pushes is one to this node.
abbrev pub IsPushed : Text → Text → Text → List Push → Type 0
IsPushed proof_hash signature address [] = ⊥
IsPushed proof_hash signature address (p ∷ ps) =
    (p ≡ record { http_info = address; proof_hash = proof_hash; signature = signature })
    ⊎ IsPushed proof_hash signature address ps

module _ (proof_hash signature : Text) where
  IsPushed-append_right :
      (address : Text) (ps qs : List Push)
      → IsPushed proof_hash signature address qs
      → IsPushed proof_hash signature address (ps ++ qs)
  IsPushed-append_right address [] qs h = h
  IsPushed-append_right address (p ∷ ps) qs h = inr (IsPushed-append_right address ps qs h)

  abbrev pub AllPushed : List NodeInfoModel → List Push → Type 0
  AllPushed models pushes = All (λ m. IsPushed proof_hash signature m.http_address pushes) models

  keep_model-AllPushed :
      (end : ProcessEnd) (n : NodeInfo) (ms : List NodeInfoModel) (ps : List Push)
      → AllPushed ms ps
      → AllPushed (keep_model end n ms) (
          add_push end
            (record { http_info = n.1; proof_hash = proof_hash; signature = signature })
            ps)
  keep_model-AllPushed enqueued n ms ps h = (inl refl, All-mono (λ x q. inr q) ms h)
  keep_model-AllPushed failed_before n ms ps h = h
  keep_model-AllPushed failed_after n ms ps h = All-mono (λ x q. inr q) ms h

  pushes_for-AllPushed :
      (ends : NodeInfo → ProcessEnd) (ns : List NodeInfo)
      → AllPushed (process_nodes ends ns) (pushes_for proof_hash signature ends ns)
  unfolding pushes_for process_nodes
  pushes_for-AllPushed ends [] = tt
  pushes_for-AllPushed ends (n ∷ ns) =
      keep_model-AllPushed (ends n) n (process_nodes ends ns)
        (pushes_for proof_hash signature ends ns) (pushes_for-AllPushed ends ns)

  -- Every node that the loop has chosen was sent the proof hash.
  abbrev pub IsConsistent : Selected → Type 0
  IsConsistent (selected models pushes) = AllPushed models pushes
  IsConsistent (key_error pushes) = Unit {0}

  round-IsConsistent :
      (ends : NodeInfo → ProcessEnd) (models : List NodeInfoModel) (pushes : List Push)
      (got : Option (List NodeInfo)) (rest : List NodeInfoModel → List Push → Selected)
      → AllPushed models pushes
      → ((ms : List NodeInfoModel) (ps : List Push) → AllPushed ms ps → IsConsistent (rest ms ps))
      → IsConsistent (round ends proof_hash signature models pushes got rest)
  unfolding round
  round-IsConsistent ends models pushes none rest a h = tt
  round-IsConsistent ends models pushes (some []) rest a h = h models pushes a
  round-IsConsistent ends models pushes (some (n ∷ ns)) rest a h =
      let done = process_nodes ends (n ∷ ns) in
      let b =
        All-mono
          (λ x.
            IsPushed-append_right x.http_address pushes
              (pushes_for proof_hash signature ends (n ∷ ns)))
          done (pushes_for-AllPushed ends (n ∷ ns)) in
      elim (Bool-cases (length done == length (n ∷ ns))) [
        | inl e ↦ rw e b
        | inr e ↦ rw e (h done (pushes ++ pushes_for proof_hash signature ends (n ∷ ns)) b)
      ]

  -- Whatever fails in which round, every node that the client is sent to has a push of this very
  -- proof hash, with its signature, among the pushes that were started.
  pub rounds-IsConsistent :
      (w : World) (left attempt : ℕ) (models : List NodeInfoModel) (pushes : List Push)
      → AllPushed models pushes
      → IsConsistent (rounds w proof_hash signature left attempt models pushes)
  unfolding rounds
  rounds-IsConsistent w zero attempt models pushes a = a
  rounds-IsConsistent w (suc left) attempt models pushes a =
      round-IsConsistent (w.ends attempt) models pushes
        (get_node 4 (w.sample attempt) (w.node_list attempt))
        (rounds w proof_hash signature left (suc attempt)) a
        (λ ms ps. rounds-IsConsistent w left (suc attempt) ms ps)

-- What a client gets with the status 200: nodes, to each of which the proof hash was pushed.
abbrev pub IsServed : Text → Text → List Push × Response → Type 0
IsServed proof_hash signature (pushes, response) =
    (models : List NodeInfoModel) × (models ≢ [])
    × (response ≡ respond ok (found proof_hash models))
    × AllPushed proof_hash signature models pushes

answer-cases :
    (proof_hash signature : Text) (s : Selected)
    → IsConsistent proof_hash signature s
    → IsServed proof_hash signature (answer proof_hash s) ⊎ (status_of (answer proof_hash s).1 ≢ ok)
unfolding answer http_response
answer-cases proof_hash signature (key_error pushes) c = inr (omega arith)
answer-cases proof_hash signature (selected [] pushes) c = inr (omega arith)
answer-cases proof_hash signature (selected (m ∷ ms) pushes) c = inl (m ∷ ms, (λ e. cc), refl, c)

module _ (sha256_hex : Text → Text) (w : World) (sign : Text → Text) where
  abbrev pub hash_of_request : Text
  hash_of_request = generate_proof_hash sha256_hex w.request_id w.now_ms

  -- If the key is there, an answer with the status 200 names at least one node, and whatever
  -- failed in which round, the request's proof hash was pushed to every node that it names.
  pub hub_get_node-cases :
      w.sign ≡ some sign
      → IsServed hash_of_request (sign hash_of_request) (hub_get_node sha256_hex w)
        ⊎ (status_of (hub_get_node sha256_hex w).1 ≢ ok)
  unfolding hub_get_node answer
  hub_get_node-cases e =
      rw (hub_get_node, e)
        (answer-cases hash_of_request (sign hash_of_request)
          (rounds w hash_of_request (sign hash_of_request) 3 0 [] [])
          (rounds-IsConsistent hash_of_request (sign hash_of_request) w 3 0 [] [] tt))

  eq_refl : (k : ℕ) → (k == k) ≡ true
  eq_refl k = ground arith

  -- The push that belongs to a node.
  abbrev pub push_to : NodeInfo → Push
  push_to n = record {
    http_info = n.1;
    proof_hash = hash_of_request;
    signature = sign hash_of_request;
  }

  process_nodes-all :
      (ends : NodeInfo → ProcessEnd) (ns : List NodeInfo)
      → ((n : NodeInfo) → ends n ≡ enqueued)
      → process_nodes ends ns ≡ map model_of ns
  unfolding process_nodes
  process_nodes-all ends [] h = refl
  process_nodes-all ends (n ∷ ns) h =
      rw (h n) (ap (λ ms. model_of n ∷ ms) (process_nodes-all ends ns h))

  pushes_for-all :
      (ends : NodeInfo → ProcessEnd) (ns : List NodeInfo)
      → ((n : NodeInfo) → ends n ≡ enqueued)
      → pushes_for hash_of_request (sign hash_of_request) ends ns ≡ map push_to ns
  unfolding pushes_for
  pushes_for-all ends [] h = refl
  pushes_for-all ends (n ∷ ns) h = rw (h n) (ap (λ ps. push_to n ∷ ps) (pushes_for-all ends ns h))

  length-map : (ns : List NodeInfo) → length (map model_of ns) ≡ length ns
  length-map [] = refl
  length-map (n ∷ ns) = ap suc (length-map ns)

  dispatch_first :
      (n : NodeInfo) (ns : List NodeInfo)
      → w.sign ≡ some sign
      → get_node 4 (w.sample 0) (w.node_list 0) ≡ some (n ∷ ns)
      → ((i : NodeInfo) → w.ends 0 i ≡ enqueued)
      → hub_get_node sha256_hex w
        ≡ (map push_to (n ∷ ns), respond ok (found hash_of_request (map model_of (n ∷ ns))))
  unfolding hub_get_node respond
  dispatch_first n ns e got calm =
      rw
        (
          hub_get_node,
          e,
          rounds,
          got,
          round,
          process_nodes-all (w.ends 0) (n ∷ ns) calm,
          pushes_for-all (w.ends 0) (n ∷ ns) calm,
          length-map (n ∷ ns),
          eq_refl (length (n ∷ ns)),
        )
        (unfold answer in refl)

  dispatch_listed :
      (ns : List NodeInfo)
      → w.sign ≡ some sign
      → 1 ≤ length ns
      → get_node 4 (w.sample 0) (w.node_list 0) ≡ some ns
      → ((i : NodeInfo) → w.ends 0 i ≡ enqueued)
      → hub_get_node sha256_hex w
        ≡ (map push_to ns, respond ok (found hash_of_request (map model_of ns)))
  dispatch_listed [] e k got calm = absurd (omega arith)
  dispatch_listed (n ∷ ns) e k got calm = dispatch_first n ns e got calm

  -- If the key is there, the list is valid and not empty, the draw is one of `random.sample`, and no
  -- node fails in the first round, then the answer names four distinct nodes of the list, or all if
  -- there are fewer; and the pushes are one for each of them, in their order, with the request's
  -- proof hash and its signature, and no others.
  pub hub_get_node-serves :
      w.sign ≡ some sign
      → IsValid sha256_hex (w.node_list 0)
      → 1 ≤ length (w.node_list 0).nodes
      → (4 ≤ length (w.node_list 0).nodes → IsSample 4 (w.node_list 0).nodes (w.sample 0))
      → ((i : NodeInfo) → w.ends 0 i ≡ enqueued)
      → (ns : List NodeInfo) × (hub_get_node sha256_hex w
          ≡ (map push_to ns, respond ok (found hash_of_request (map model_of ns))))
        × (length ns ≡ min 4 (length (w.node_list 0).nodes))
        × IsDistinct (map (key_of sha256_hex) ns)
        × All (IsListed sha256_hex (w.node_list 0).nodes) ns
  hub_get_node-serves e v k s calm =
      let (ns, got, sized, distinct, listed) =
        get_node-IsListed sha256_hex 4 (w.sample 0) (w.node_list 0) v s in
      (ns, dispatch_listed ns e (omega arith) got calm, sized, distinct, listed)
