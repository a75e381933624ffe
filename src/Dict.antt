-- ===== src/Dict.antt =====
-- A Python `dict` keyed by texts, in insertion order: the operations that the hub and the node use.
use prover.Prelude.{
  ℕ, suc, ◌≤◌, ◌≡◌, refl, Bool, Option, none, some, List, [], ◌∷◌, arith, ite, Text, codes,
  text_discrete, if◌then◌else◌, not, length, map, is_some, All, All-mono, IsDistinct, ◌≢◌, true,
  subst, sym,
}

abbrev pub Dict {ℓ} : Type ℓ → Type ℓ
Dict V = List (Text × V)

module _ {ℓ} {V : Type ℓ} where
  -- `d.get(k)`
  unfoldable pub lookup : Text → Dict V → Option V
  lookup k [] = none
  lookup k ((j, v) ∷ d) = ite (text_discrete k j) (some v) (lookup k d)

  -- `d[k] = v`: a key that is there keeps its place.
  unfoldable pub insert : Text → V → Dict V → Dict V
  insert k v [] = (k, v) ∷ []
  insert k v ((j, w) ∷ d) = ite (text_discrete k j) ((j, v) ∷ d) ((j, w) ∷ insert k v d)

  -- `del d[k]`, for a key that is there.
  unfoldable pub erase : Text → Dict V → Dict V
  erase k [] = []
  erase k ((j, w) ∷ d) = ite (text_discrete k j) d ((j, w) ∷ erase k d)

  -- `{k: v for k, v in d.items() if p(v)}`
  unfoldable pub filter : (V → Bool) → Dict V → Dict V
  filter p [] = []
  filter p ((j, w) ∷ d) = let rest = filter p d in if p w then (j, w) ∷ rest else rest

  -- `list(d.keys())`
  abbrev pub keys : Dict V → List Text
  keys = map (λ e. e.0)

  -- No key stands twice: what every `dict` guarantees of itself.
  abbrev pub IsUnique : Dict V → Type ℓ
  IsUnique [] = Unit
  IsUnique ((k, v) ∷ d) = (lookup k d ≡ none) × IsUnique d

  pub lookup-insert :
      (k j : Text) (v : V) (d : Dict V)
      → lookup j (insert k v d) ≡ ite (text_discrete j k) (some v) (lookup j d)
  unfolding lookup insert
  lookup-insert k j v [] = refl
  lookup-insert k j v ((i, w) ∷ d) = ground (arith, lookup-insert k j v d)

  pub lookup-erase :
      (k j : Text) (d : Dict V)
      → IsUnique d
      → lookup j (erase k d) ≡ ite (text_discrete j k) none (lookup j d)
  unfolding lookup erase
  lookup-erase k j [] u = ground arith
  lookup-erase k j ((i, w) ∷ d) u = ground (arith, lookup-erase k j d)

  -- What `lookup` finds, if it passes the test.
  abbrev pub keep : (V → Bool) → Option V → Option V
  keep p none = none
  keep p (some v) = if p v then some v else none

  pub lookup-filter :
      (p : V → Bool) (j : Text) (d : Dict V)
      → IsUnique d
      → lookup j (filter p d) ≡ keep p (lookup j d)
  unfolding lookup filter
  lookup-filter p j [] u = refl
  lookup-filter p j ((i, w) ∷ d) u = ground (arith, lookup-filter p j d)

  pub insert-IsUnique : (k : Text) (v : V) (d : Dict V) → IsUnique d → IsUnique (insert k v d)
  unfolding insert lookup
  insert-IsUnique k v [] u = (refl, tt)
  insert-IsUnique k v ((i, w) ∷ d) u = ground (arith, insert-IsUnique k v d, lookup-insert k i v d)

  pub erase-IsUnique : (k : Text) (d : Dict V) → IsUnique d → IsUnique (erase k d)
  unfolding erase
  erase-IsUnique k [] u = tt
  erase-IsUnique k ((i, w) ∷ d) u = ground (arith, erase-IsUnique k d, lookup-erase k i d)

  pub filter-IsUnique : (p : V → Bool) (d : Dict V) → IsUnique d → IsUnique (filter p d)
  unfolding filter
  filter-IsUnique p [] u = tt
  filter-IsUnique p ((i, w) ∷ d) u = ground (arith, filter-IsUnique p d, lookup-filter p i d)

  -- `for k in doomed: del d[k]`
  unfoldable pub erase_all : List Text → Dict V → Dict V
  erase_all [] d = d
  erase_all (k ∷ ks) d = erase_all ks (erase k d)

  -- `[k for k, v in d.items() if p(v)]`
  unfoldable pub keys_where : (V → Bool) → Dict V → List Text
  keys_where p [] = []
  keys_where p ((j, w) ∷ d) = let rest = keys_where p d in if p w then j ∷ rest else rest

  erase-filter_head : (k : Text) (v : V) (d : Dict V) → erase k ((k, v) ∷ d) ≡ d
  unfolding erase
  erase-filter_head k v d = ground arith

  -- A key that the dict does not hold is not among the keys that a test selects from it.
  erase_all-cons :
      (p : V → Bool) (k : Text) (v : V) (d e : Dict V)
      → lookup k d ≡ none
      → erase_all (keys_where p d) ((k, v) ∷ e) ≡ (k, v) ∷ erase_all (keys_where p d) e
  unfolding lookup erase_all keys_where erase
  erase_all-cons p k v [] e h = refl
  erase_all-cons p k v ((i, w) ∷ d) e h =
      ground (arith, erase_all-cons p k v d e, erase_all-cons p k v d (erase i e))

  -- Deleting the selected keys one after another is the filter of the rest.
  pub erase_all-keys_where :
      (p : V → Bool) (d : Dict V)
      → IsUnique d
      → erase_all (keys_where p d) d ≡ filter (λ v. not (p v)) d
  unfolding erase_all keys_where filter
  erase_all-keys_where p [] u = refl
  erase_all-keys_where p ((i, w) ∷ d) u =
      ground (arith, erase_all-keys_where p d, erase_all-cons p i w d d, erase-filter_head i w d)

  -- Filtering twice by one test changes nothing more.
  pub filter-filter : (p : V → Bool) (d : Dict V) → filter p (filter p d) ≡ filter p d
  unfolding filter
  filter-filter p [] = refl
  filter-filter p ((i, w) ∷ d) = ground (arith, filter-filter p d)

  pub length-filter-le : (p : V → Bool) (d : Dict V) → length (filter p d) ≤ length d
  unfolding filter
  length-filter-le p [] = omega arith
  length-filter-le p ((i, w) ∷ d) = ground (arith, length-filter-le p d)

  pub length-insert :
      (k : Text) (v : V) (d : Dict V)
      → length (insert k v d) ≡ (if is_some (lookup k d) then length d else suc (length d))
  unfolding insert lookup
  length-insert k v [] = refl
  length-insert k v ((i, w) ∷ d) = ground (arith, length-insert k v d)

module _ {ℓ} {V : Type ℓ} where
  keys_ne : (k : Text) (d : Dict V) → lookup k d ≡ none → All (λ j. k ≢ j) (keys d)
  unfolding lookup
  keys_ne k [] h = tt
  keys_ne k ((i, w) ∷ d) h = elim (text_discrete k i) [
    | yes p ↦ ground arith
    | no p ↦ (p, keys_ne k d (ground arith))
  ]

  pub keys-IsDistinct : (d : Dict V) → IsUnique d → IsDistinct (keys d)
  keys-IsDistinct [] u = tt
  keys-IsDistinct ((k, v) ∷ d) (h, u) = (keys_ne k d h, keys-IsDistinct d u)

  found_in_tail :
      (k j : Text) (v : V) (d : Dict V)
      → is_some (lookup j d) ≡ true
      → is_some (lookup j ((k, v) ∷ d)) ≡ true
  unfolding lookup
  found_in_tail k j v d h = ground arith

  found_at_head : (k : Text) (v : V) (d : Dict V) → is_some (lookup k ((k, v) ∷ d)) ≡ true
  unfolding lookup
  found_at_head k v d = ground arith

  -- Every listed key is found.
  pub keys_found : (d : Dict V) → All (λ j. is_some (lookup j d) ≡ true) (keys d)
  keys_found [] = tt
  keys_found ((k, v) ∷ d) =
      (found_at_head k v d, All-mono (λ j h. found_in_tail k j v d h) (keys d) (keys_found d))

module _ {ℓ κ} {V : Type ℓ} where
  -- What holds of every listed key holds of a key that is found.
  pub keys_at :
      (P : Text → Type κ) (d : Dict V) (j : Text)
      → All P (keys d)
      → is_some (lookup j d) ≡ true
      → P j
  unfolding lookup
  keys_at P [] j h e = absurd cc
  keys_at P ((k, v) ∷ d) j h e = elim (text_discrete j k) [
    | yes q ↦ subst P (sym q) h.0
    | no q ↦ keys_at P d j h.1 (ground arith)
  ]

test : lookup (codes "ab") (insert {V = ℕ} (codes "ab") 3 ((codes "c", 4) ∷ [])) ≡ some 3
unfolding lookup insert text_discrete
test = refl
