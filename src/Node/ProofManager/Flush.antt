-- ===== src/Node/ProofManager/Flush.antt =====
-- `_save_cache` of proof_manager/main.py runs in a thread of its own: here it is cut where the
-- event loop can change the cache, between the end of the dump and the reset of the flag.
use prover.Prelude.{ℕ, ◌≤◌, ◌<◌, ◌≡◌, refl, true, false, Option, none, some, arith, Text, ◌∙◌}
use prover.Node.ProofManager.{
  Manager, Entry, init, CacheFile, pickled, SaveOutcome, written, drop_expired, set, save_cache,
}
use prover.Node.ProofManager.View.{
  live, live_entry, IsValid, live-set, live-drop_expired, drop_expired-IsUnique,
}
use prover.Dict.{Dict, lookup}

-- Up to the end of `pickle.dump`, when the file was opened and written.
pub save_begin : ℕ → Manager → Manager × CacheFile
save_begin now m =
    (record m { cache = drop_expired now m.cache }, pickled (drop_expired now m.cache))

-- `self._dirty = False`
pub save_end : Manager → Manager
save_end m = record m { dirty = false }

-- With nothing in between, the two halves are a written save.
pub save_end-save_begin :
    (now : ℕ) (m : Manager) (file : CacheFile)
    → m.dirty ≡ true
    → save_cache now written m file ≡ (save_end (save_begin now m).0, (save_begin now m).1)
unfolding save_cache save_begin save_end
save_end-save_begin now m file e = ground arith

live_entry-none :
    (now later : ℕ) (e : Option Entry)
    → now ≤ later
    → live_entry now e ≡ none
    → live_entry later e ≡ none
live_entry-none now later none h e = refl
live_entry-none now later (some (value, none)) h e = ground (arith, e)
live_entry-none now later (some (value, some expiry)) h e = ground (arith, e)

-- What no reader sees is never seen later.
live-none :
    (now later : ℕ) (key : Text) (cache : Dict Entry)
    → now ≤ later
    → live now key cache ≡ none
    → live later key cache ≡ none
unfolding live
live-none now later key cache h e = live_entry-none now later (lookup key cache) h e

module _ (now later : ℕ) (key : Text) (value ttl : ℕ) (m : Manager) where
  -- The state after a `set` between the halves.
  pub raced : Manager
  unfolding save_begin save_end
  raced = save_end (set later key value (some ttl) (save_begin now m).0)

  raced-live : 0 < ttl → live later key raced.cache ≡ some value
  unfolding raced set
  raced-live h = live-set later later key key value (some ttl) (save_begin now m).0 ∙ ground arith

  raced-saved :
      (t : ℕ) (out : SaveOutcome)
      → save_cache t out raced (save_begin now m).1 ≡ (raced, (save_begin now m).1)
  unfolding raced save_cache
  raced-saved t out = refl

  -- In a valid cache, a `set`, with a time to live, of a key that is not live, which falls between the
  -- dump and the reset of the flag, at no earlier time: the entry is live in memory; the flag says
  -- that all is saved, so that later saves write nothing; and a node that starts from the file after
  -- the `set` comes up without the entry, which it does not show at any time.
  pub set_lost :
      IsValid m
      → now ≤ later
      → 0 < ttl
      → live later key m.cache ≡ none
      → (live later key raced.cache ≡ some value)
        × ((t : ℕ) (out : SaveOutcome)
            → save_cache t out raced (save_begin now m).1 ≡ (raced, (save_begin now m).1))
        × ((start : ℕ)
            → later ≤ start
            → (m' : Manager) × (init start (save_begin now m).1 ≡ some m')
              × ((t : ℕ) → start ≤ t → live t key m'.cache ≡ none))
  unfolding save_begin init
  set_lost u h pos_ttl absent_before = (
    raced-live pos_ttl,
    λ t out. raced-saved t out,
    λ start p. (
      record { cache = drop_expired start (drop_expired now m.cache); dirty = false },
      refl,
      λ t q.
          live-drop_expired start t key (drop_expired now m.cache)
            (drop_expired-IsUnique now m.cache u) q
          ∙ live-drop_expired now t key m.cache u (omega arith)
          ∙ live-none later t key m.cache (omega arith) absent_before,
    ),
  )
