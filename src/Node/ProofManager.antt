-- ===== src/Node/ProofManager.antt =====
-- prover/node/src/modules/proof_manager/main.py: the cache of task states with expiry times, its
-- pickle file, and the claim of a task. A clock reading is an argument, in microseconds.
pub mod View
pub mod Trace
pub mod Persistence
pub mod Claims
pub mod Flush
mod Examples
use prover.Prelude.{
  ℕ, ◌+◌, ◌*◌, Bool, true, false, Option, none, some, [], ◌==◌, Text, codes, ltb, leb,
  if◌then◌else◌, is_empty,
}
use prover.Dict.{Dict, lookup, insert, erase, erase_all, keys_where}
use prover.Node.Status.{
  Check, passed, failed, status_code_task_invalid, status_code_task_not_found, task_status_pending,
  task_status_running,
}

abbrev pub second : ℕ
second = 1000000

-- A cache entry: the value and its expiry time, `None` for never.
abbrev pub Entry : Type 0
Entry = ℕ × Option ℕ

pub record Manager : Type 0 where
  pub cache : Dict Entry
  pub dirty : Bool

-- What stands at `cache_path`: no file, a pickled cache, a file whose reading raises `IOError` or
-- `PickleError`, and one whose reading raises another error, as `EOFError` for an empty file.
pub data CacheFile : Type 0 where
  absent : CacheFile
  pickled : Dict Entry → CacheFile
  unreadable : CacheFile
  escaping : CacheFile

-- How the write of the file ends: done, `IOError` when it is opened, or `IOError` after it was
-- truncated, with what that leaves.
pub data SaveOutcome : Type 0 where
  written : SaveOutcome
  open_failed : SaveOutcome
  write_failed : CacheFile → SaveOutcome

-- `expiry is not None and expiry <= current_time`
abbrev pub is_expired : ℕ → Entry → Bool
is_expired now (value, none) = false
is_expired now (value, some expiry) = leb expiry now

unfoldable pub drop_expired : ℕ → Dict Entry → Dict Entry
drop_expired now cache = erase_all (keys_where (is_expired now) cache) cache

-- `_load_cache`, into the empty cache of `__init__`; `none` is an exception that escapes.
unfoldable pub load_cache : ℕ → CacheFile → Option (Dict Entry)
load_cache now absent = some []
load_cache now (pickled cache) = some (drop_expired now cache)
load_cache now unreadable = some []
load_cache now escaping = none

-- `__init__`: the flag is cleared after the load.
unfoldable pub init : ℕ → CacheFile → Option Manager
unfolding load_cache
init now file = elim (load_cache now file) [
  | none ↦ none
  | some cache ↦ some (record { cache = cache; dirty = false })
]

-- `expiry is None or expiry > time.time()`
abbrev pub is_live : ℕ → Option ℕ → Bool
is_live now none = true
is_live now (some expiry) = ltb now expiry

unfoldable pub get : ℕ → Text → Manager → Manager × Option ℕ
get now key m = elim (lookup key m.cache) [
  | none ↦ (m, none)
  | some (value, expiry) ↦
      if is_live now expiry
      then (m, some value)
      else (record m { cache = erase key m.cache; dirty = true }, none)
]

-- `time.time() + ttl if ttl is not None else None`
abbrev pub expiry_of : ℕ → Option ℕ → Option ℕ
expiry_of now none = none
expiry_of now (some ttl) = some (now + ttl)

unfoldable pub set : ℕ → Text → ℕ → Option ℕ → Manager → Manager
set now key value ttl m = record m {
  cache = insert key (value, expiry_of now ttl) m.cache;
  dirty = true;
}

-- The default of the parameter `ttl`.
abbrev pub default_ttl : Option ℕ
default_ttl = some (60 * second)

-- The end of `_save_cache`, after the expired entries are dropped.
unfoldable pub write_cache : SaveOutcome → Manager → CacheFile → Manager × CacheFile
write_cache written m file = (record m { dirty = false }, pickled m.cache)
write_cache open_failed m file = (m, file)
write_cache (write_failed rest) m file = (m, rest)

unfoldable pub save_cache : ℕ → SaveOutcome → Manager → CacheFile → Manager × CacheFile
unfolding write_cache
save_cache now out m file =
    if m.dirty
    then write_cache out (record m { cache = drop_expired now m.cache }) file
    else (m, file)

-- `clean_expired`; the save reads the clock again.
unfoldable pub clean_expired : ℕ → ℕ → SaveOutcome → Manager → CacheFile → Manager × CacheFile
unfolding save_cache
clean_expired now later out m file =
    if is_empty (keys_where (is_expired now) m.cache)
    then (m, file)
    else save_cache later out
        (record m { cache = erase_all (keys_where (is_expired now) m.cache) m.cache; dirty = true })
        file

-- `claim_task`, after its `get`; `set` reads the clock again.
unfoldable pub claim_status : ℕ → Text → Manager → Option ℕ → Manager × Check Text
unfolding set
claim_status later key m none =
    (m, failed status_code_task_not_found (codes "Proof hash does not exist"))
claim_status later key m (some status) =
    if status == task_status_pending
    then (set later key task_status_running default_ttl m, passed (codes "Successfully"))
    else (m, failed status_code_task_invalid (codes "Proof hash is invalid"))

unfoldable pub claim_task : ℕ → ℕ → Text → Manager → Manager × Check Text
unfolding get claim_status
claim_task now later key m = let (m', status) = get now key m in claim_status later key m' status
