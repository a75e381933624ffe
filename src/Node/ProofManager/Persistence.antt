-- ===== src/Node/ProofManager/Persistence.antt =====
-- Restarts of the node: what `_load_cache` of proof_manager/main.py brings back of the cache that
-- `_save_cache` wrote.
use prover.Prelude.{
  ℕ, ◌≤◌, ◌≡◌, refl, true, false, Option, some, List, [], ◌∷◌, arith, Text, Bool-cases, inl, inr,
  ◌∙◌, sym, is_empty, ap, subst, All, ◌≢◌,
}
use mathlib.Core.Option.{some-injective}
use prover.Dict.{Dict, IsUnique, keys_where}
use prover.Node.ProofManager.{
  Entry, Manager, CacheFile, absent, pickled, unreadable, escaping, SaveOutcome, written,
  open_failed, write_failed, is_expired, drop_expired, init, get, set, save_cache, clean_expired,
  claim_task,
}
use prover.Node.ProofManager.View.{
  live, IsValid, drop_expired-IsUnique, live-drop_expired, get-IsValid, set-IsValid,
}
use prover.Node.ProofManager.Trace.{
  Event, getting, setting, saving, cleaning, claiming, State, starts, ends, IsOrdered, step, run,
  claim_status-IsValid,
}

-- A pickled dict is a dict: its keys differ.
abbrev pub IsValidFile : CacheFile → Type 0
IsValidFile (pickled cache) = IsUnique cache
IsValidFile _ = Unit

-- A node that starts from the file at any later time comes up, and sees what `cache` shows.
unfoldable pub Restores : ℕ → CacheFile → Dict Entry → Type 0
Restores now file cache =
    (start : ℕ)
    → now ≤ start
    → (m : Manager) × (init start file ≡ some m)
      × ((t : ℕ) (j : Text) → start ≤ t → live t j m.cache ≡ live t j cache)

pub record IsDurable (now : ℕ) (s : State) : Type 0 where
  pub valid : IsValid s.manager
  pub valid_file : IsValidFile s.file
  pub saved : s.manager.dirty ≡ false → Restores now s.file s.manager.cache

Restores-pickled :
    (now : ℕ) (cache : Dict Entry) → IsUnique cache → Restores now (pickled cache) cache
unfolding Restores init
Restores-pickled now cache u start h = (
  record { cache = drop_expired start cache; dirty = false },
  refl,
  λ t j p. live-drop_expired start t j cache u p,
)

-- The same cache, seen later and up to what no reader sees, is still restored.
Restores-mono :
    (now later : ℕ) (file : CacheFile) (c d : Dict Entry)
    → now ≤ later
    → ((t : ℕ) (j : Text) → later ≤ t → live t j d ≡ live t j c)
    → Restores now file c
    → Restores later file d
unfolding Restores
Restores-mono now later file c d h same r start p =
    let (m, e, v) = r start (omega arith) in (m, e, λ t j q. v t j q ∙ sym (same t j (omega arith)))

-- A written save restores the cache as it was before the save.
pub save_cache-Restores :
    (now : ℕ) (m : Manager) (file : CacheFile)
    → IsDurable now (record { manager = m; file = file })
    → Restores now (save_cache now written m file).1 m.cache
unfolding save_cache
save_cache-Restores now m file d = elim (Bool-cases m.dirty) [
  | inl e ↦ rw e (
      Restores-mono now now (pickled (drop_expired now m.cache)) (drop_expired now m.cache) m.cache
        (omega arith) (λ t j p. sym (live-drop_expired now t j m.cache d.valid p))
        (Restores-pickled now (drop_expired now m.cache)
          (drop_expired-IsUnique now m.cache d.valid)))
  | inr e ↦ rw e (d.saved e)
]

IsDurable-later : {now later : ℕ} (s : State) → now ≤ later → IsDurable now s → IsDurable later s
IsDurable-later {now} {later} s h d = record {
  valid = d.valid;
  valid_file = d.valid_file;
  saved = λ e.
      Restores-mono now later s.file s.manager.cache s.manager.cache h (λ t j p. refl) (d.saved e);
}

-- What a failed write leaves is no dict with a key twice.
abbrev pub IsSaneOutcome : SaveOutcome → Type 0
IsSaneOutcome (write_failed rest) = IsValidFile rest
IsSaneOutcome _ = Unit

abbrev pub IsSane : Event → Type 0
IsSane (saving _ out) = IsSaneOutcome out
IsSane (cleaning _ _ out) = IsSaneOutcome out
IsSane _ = Unit

save_cache_clean :
    (now : ℕ) (out : SaveOutcome) (m : Manager) (file : CacheFile)
    → m.dirty ≡ false
    → save_cache now out m file ≡ (m, file)
unfolding save_cache
save_cache_clean now out m file e = ground arith

save_cache-IsDurable :
    (now : ℕ) (out : SaveOutcome) (m : Manager) (file : CacheFile)
    → IsSaneOutcome out
    → IsDurable now (record { manager = m; file = file })
    → let (m', f) = save_cache now out m file in IsDurable now (record { manager = m'; file = f })
unfolding save_cache
save_cache-IsDurable now written m file o d = elim (Bool-cases m.dirty) [
  | inl e ↦ rw e (record {
    valid = drop_expired-IsUnique now m.cache d.valid;
    valid_file = drop_expired-IsUnique now m.cache d.valid;
    saved = λ _.
        Restores-pickled now (drop_expired now m.cache) (drop_expired-IsUnique now m.cache d.valid);
  })
  | inr e ↦ rw (save_cache_clean now written m file e) d
]
save_cache-IsDurable now open_failed m file o d = elim (Bool-cases m.dirty) [
  | inl e ↦ rw e (record {
    valid = drop_expired-IsUnique now m.cache d.valid;
    valid_file = d.valid_file;
    saved = λ h. cc;
  })
  | inr e ↦ rw (save_cache_clean now open_failed m file e) d
]
save_cache-IsDurable now (write_failed rest) m file o d = elim (Bool-cases m.dirty) [
  | inl e ↦ rw e (record {
    valid = drop_expired-IsUnique now m.cache d.valid;
    valid_file = o;
    saved = λ h. cc;
  })
  | inr e ↦ rw (save_cache_clean now (write_failed rest) m file e) d
]

get-dirty :
    (now : ℕ) (key : Text) (m : Manager) → (get now key m).0.dirty ≡ false → (get now key m).0 ≡ m
unfolding get
get-dirty now key m h = ground arith

set-dirty :
    (now : ℕ) (key : Text) (v : ℕ) (ttl : Option ℕ) (m : Manager)
    → (set now key v ttl m).dirty ≢ false
unfolding set
set-dirty now key v ttl m h = cc

-- When the last of the calls ends.
abbrev pub finish : ℕ → List Event → ℕ
finish now [] = now
finish now (e ∷ es) = finish (ends e) es

claim_task-dirty :
    (now later : ℕ) (key : Text) (m : Manager)
    → (claim_task now later key m).0.dirty ≡ false
    → (claim_task now later key m).0 ≡ m
unfolding claim_task
claim_task-dirty now later key m h = ground arith

clean_expired-IsDurable :
    (now later : ℕ) (out : SaveOutcome) (m : Manager) (file : CacheFile)
    → now ≤ later
    → IsSaneOutcome out
    → IsDurable now (record { manager = m; file = file })
    → let (m', f) = clean_expired now later out m file in
      IsDurable later (record { manager = m'; file = f })
unfolding clean_expired drop_expired
clean_expired-IsDurable now later out m file h o d =
    elim (Bool-cases (is_empty (keys_where (is_expired now) m.cache))) [
      | inl e ↦ rw e (IsDurable-later (record { manager = m; file = file }) h d)
      | inr e ↦ rw e (
          save_cache-IsDurable later out
            (record m { cache = drop_expired now m.cache; dirty = true }) file o
            (record {
              valid = drop_expired-IsUnique now m.cache d.valid;
              valid_file = d.valid_file;
              saved = λ q. cc;
            }))
    ]

-- A manager that an operation left alone, or marked for the next save.
IsDurable-marked :
    (now : ℕ) (m m' : Manager) (file : CacheFile)
    → IsValid m'
    → (m'.dirty ≡ false → m' ≡ m)
    → IsDurable now (record { manager = m; file = file })
    → IsDurable now (record { manager = m'; file = file })
IsDurable-marked now m m' file u same d = record {
  valid = u;
  valid_file = d.valid_file;
  saved = λ e.
      subst (λ x. Restores now file x.cache) (sym (same e))
        (d.saved (sym (ap (λ (x : Manager). x.dirty) (same e)) ∙ e));
}

step-IsDurable :
    (e : Event) {now : ℕ} (s : State)
    → IsSane e
    → now ≤ starts e
    → starts e ≤ ends e
    → IsDurable now s
    → IsDurable (ends e) (step e s).0
unfolding step claim_task
step-IsDurable (getting now key) s o p q d =
    let d' = IsDurable-later {later = now} s p d in
    IsDurable-marked now s.manager (get now key s.manager).0 s.file
      (get-IsValid now key s.manager d.valid) (get-dirty now key s.manager) d'
step-IsDurable (setting now key v ttl) s o p q d =
    IsDurable-marked now s.manager (set now key v ttl s.manager) s.file
      (set-IsValid now key v ttl s.manager d.valid)
      (λ e. absurd (set-dirty now key v ttl s.manager e)) (IsDurable-later {later = now} s p d)
step-IsDurable (saving now out) s o p q d =
    save_cache-IsDurable now out s.manager s.file o (IsDurable-later {later = now} s p d)
step-IsDurable (cleaning now later out) s o p q d =
    clean_expired-IsDurable now later out s.manager s.file q o (IsDurable-later {later = now} s p d)
step-IsDurable (claiming now later key) s o p q d =
    IsDurable-marked later s.manager (claim_task now later key s.manager).0 s.file
      (claim_status-IsValid later key (get now key s.manager).0 (get now key s.manager).1
        (get-IsValid now key s.manager d.valid))
      (claim_task-dirty now later key s.manager) (IsDurable-later {later = later} s (omega arith) d)

run-IsDurable :
    (es : List Event) (now : ℕ) (s : State)
    → All IsSane es
    → IsOrdered now es
    → IsDurable now s
    → IsDurable (finish now es) (run es s).0
unfolding run
run-IsDurable [] now s o h d = d
run-IsDurable (e ∷ es) now s (o, os) (p, q, r) d =
    run-IsDurable es (ends e) (step e s).0 os r (step-IsDurable e s o p q d)

init-IsDurable :
    (now : ℕ) (file : CacheFile) {m : Manager}
    → IsValidFile file
    → init now file ≡ some m
    → IsDurable now (record { manager = m; file = file })
unfolding init Restores
init-IsDurable now absent u e =
    subst (λ x. IsDurable now (record { manager = x; file = absent })) (some-injective _ _ e)
      (record {
        valid = tt;
        valid_file = tt;
        saved = λ _ start p. (record { cache = []; dirty = false }, refl, λ t j q. refl);
      })
init-IsDurable now (pickled cache) u e =
    subst (λ x. IsDurable now (record { manager = x; file = pickled cache })) (some-injective _ _ e)
      (record {
        valid = drop_expired-IsUnique now cache u;
        valid_file = u;
        saved = λ _.
            Restores-mono now now (pickled cache) cache (drop_expired now cache) (omega arith)
              (λ t j p. live-drop_expired now t j cache u p) (Restores-pickled now cache u);
      })
init-IsDurable now unreadable u e =
    subst (λ x. IsDurable now (record { manager = x; file = unreadable })) (some-injective _ _ e)
      (record {
        valid = tt;
        valid_file = tt;
        saved = λ _ start p. (record { cache = []; dirty = false }, refl, λ t j q. refl);
      })
init-IsDurable now escaping u e = cc

-- A node that starts from its cache file, serves any calls and then saves: at any later start the
-- file brings back what a reader saw before the save, whether or not there was anything to write
-- and whatever earlier writes failed.
pub restart-after_save :
    (es : List Event) (start : ℕ) (file : CacheFile) {m : Manager} (last : ℕ)
    → IsValidFile file
    → init start file ≡ some m
    → All IsSane es
    → IsOrdered start es
    → finish start es ≤ last
    → let s = (run es (record { manager = m; file = file })).0 in
      Restores last (save_cache last written s.manager s.file).1 s.manager.cache
restart-after_save es start file {m} last u e o h p =
    let s = (run es (record { manager = m; file = file })).0 in
    save_cache-Restores last s.manager s.file (
      IsDurable-later s p (
        run-IsDurable es start (record { manager = m; file = file }) o h
          (init-IsDurable start file u e)))

-- What a restart from a cache that was dumped at `now` shows.
pub live-init :
    (now later : ℕ) (key : Text) (cache : Dict Entry) (m : Manager)
    → IsUnique cache
    → now ≤ later
    → init later (pickled (drop_expired now cache)) ≡ some m
    → live later key m.cache ≡ live later key cache
unfolding init
live-init now later key cache m u h e =
    ap (λ (x : Manager). live later key x.cache) (sym (some-injective _ _ e))
    ∙ live-drop_expired later later key (drop_expired now cache) (drop_expired-IsUnique now cache u)
        (omega arith)
    ∙ live-drop_expired now later key cache u h
