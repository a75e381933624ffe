-- ===== src/Node/ProofManager/View.antt =====
-- What a reader sees of the cache, `live`, and how each operation of proof_manager/main.py
-- changes it.
use prover.Prelude.{
  ℕ, ◌≤◌, ◌≡◌, refl, true, not, Option, none, some, ite, arith, Text, text_discrete, if◌then◌else◌,
  Bool-cases, inl, inr, is_empty, ◌∙◌,
}
use prover.Dict.{
  Dict, lookup, filter, IsUnique, keep, keys_where, lookup-insert, lookup-erase, lookup-filter,
  insert-IsUnique, erase-IsUnique, filter-IsUnique, erase_all-keys_where,
}
use prover.Node.ProofManager.{
  Entry, Manager, CacheFile, SaveOutcome, written, is_expired, is_live, expiry_of, drop_expired,
  get, set, save_cache, clean_expired,
}

abbrev pub live_entry : ℕ → Option Entry → Option ℕ
live_entry now none = none
live_entry now (some (value, expiry)) = if is_live now expiry then some value else none

-- The value that a key has at a time, if it has one that is not expired.
unfoldable pub live : ℕ → Text → Dict Entry → Option ℕ
live now key cache = live_entry now (lookup key cache)

-- The keys of the cache differ, as those of every dict do.
abbrev pub IsValid : Manager → Type 0
IsValid m = IsUnique m.cache

pub drop_expired-filter :
    (now : ℕ) (cache : Dict Entry)
    → IsUnique cache
    → drop_expired now cache ≡ filter (λ e. not (is_expired now e)) cache
unfolding drop_expired
drop_expired-filter now cache u = erase_all-keys_where (is_expired now) cache u

pub drop_expired-IsUnique :
    (now : ℕ) (cache : Dict Entry) → IsUnique cache → IsUnique (drop_expired now cache)
drop_expired-IsUnique now cache u =
    rw (drop_expired-filter now cache u) (filter-IsUnique (λ e. not (is_expired now e)) cache u)

live_entry-keep :
    (now later : ℕ) (e : Option Entry)
    → now ≤ later
    → live_entry later (keep (λ e. not (is_expired now e)) e) ≡ live_entry later e
live_entry-keep now later none h = refl
live_entry-keep now later (some (value, none)) h = refl
live_entry-keep now later (some (value, some expiry)) h = ground arith

-- Dropping what has expired is invisible to every later reader.
pub live-drop_expired :
    (now later : ℕ) (key : Text) (cache : Dict Entry)
    → IsUnique cache
    → now ≤ later
    → live later key (drop_expired now cache) ≡ live later key cache
unfolding live
live-drop_expired now later key cache u h =
    rw (drop_expired-filter now cache u, lookup-filter (λ e. not (is_expired now e)) key cache u)
      (live_entry-keep now later (lookup key cache) h)

-- `get` answers with the live value.
pub get-live : (now : ℕ) (key : Text) (m : Manager) → (get now key m).1 ≡ live now key m.cache
unfolding get live
get-live now key m = ground arith

-- `get` may delete its key, which no later reader sees.
pub live-get :
    (now later : ℕ) (key j : Text) (m : Manager)
    → IsValid m
    → now ≤ later
    → live later j (get now key m).0.cache ≡ live later j m.cache
unfolding get live
live-get now later key j m u h = ground (arith, lookup-erase key j m.cache)

pub get-IsValid : (now : ℕ) (key : Text) (m : Manager) → IsValid m → IsValid (get now key m).0
unfolding get
get-IsValid now key m u = ground (arith, erase-IsUnique key m.cache)

-- `set` gives its key the value until the time to live is over, and no other key anything.
pub live-set :
    (now later : ℕ) (key j : Text) (value : ℕ) (ttl : Option ℕ) (m : Manager)
    → live later j (set now key value ttl m).cache
      ≡ ite
          (text_discrete j key)
          (if is_live later (expiry_of now ttl) then some value else none)
          (live later j m.cache)
unfolding set live
live-set now later key j value ttl m =
    ground (arith, lookup-insert key j (value, expiry_of now ttl) m.cache)

pub set-IsValid :
    (now : ℕ) (key : Text) (value : ℕ) (ttl : Option ℕ) (m : Manager)
    → IsValid m
    → IsValid (set now key value ttl m)
unfolding set
set-IsValid now key value ttl m u = insert-IsUnique key (value, expiry_of now ttl) m.cache u

pub save_cache-IsValid :
    (now : ℕ) (out : SaveOutcome) (m : Manager) (file : CacheFile)
    → IsValid m
    → IsValid (save_cache now out m file).0
unfolding save_cache
save_cache-IsValid now written m file u = ground (arith, drop_expired-IsUnique now m.cache u)
save_cache-IsValid now out m file u = ground (arith, drop_expired-IsUnique now m.cache u)

-- Saving, whatever becomes of the file, is invisible to later readers.
pub live-save_cache :
    (now later : ℕ) (out : SaveOutcome) (j : Text) (m : Manager) (file : CacheFile)
    → IsValid m
    → now ≤ later
    → live later j (save_cache now out m file).0.cache ≡ live later j m.cache
unfolding save_cache
live-save_cache now later written j m file u h =
    ground (arith, live-drop_expired now later j m.cache u h)
live-save_cache now later out j m file u h =
    ground (arith, live-drop_expired now later j m.cache u h)

pub clean_expired-IsValid :
    (now later : ℕ) (out : SaveOutcome) (m : Manager) (file : CacheFile)
    → IsValid m
    → IsValid (clean_expired now later out m file).0
unfolding clean_expired drop_expired
clean_expired-IsValid now later out m file u =
    elim (Bool-cases (is_empty (keys_where (is_expired now) m.cache))) [
      | inl e ↦ rw e u
      | inr e ↦ rw e (
          save_cache-IsValid later out (record m { cache = drop_expired now m.cache; dirty = true })
            file (drop_expired-IsUnique now m.cache u))
    ]

pub live-clean_expired :
    (now later last : ℕ) (out : SaveOutcome) (j : Text) (m : Manager) (file : CacheFile)
    → IsValid m
    → now ≤ later
    → later ≤ last
    → live last j (clean_expired now later out m file).0.cache ≡ live last j m.cache
unfolding clean_expired drop_expired
live-clean_expired now later last out j m file u h k =
    elim (Bool-cases (is_empty (keys_where (is_expired now) m.cache))) [
      | inl e ↦ rw e refl
      | inr e ↦ rw e (
          live-save_cache later last out j
            (record m { cache = drop_expired now m.cache; dirty = true }) file
            (drop_expired-IsUnique now m.cache u) k
          ∙ live-drop_expired now last j m.cache u (omega arith))
    ]
