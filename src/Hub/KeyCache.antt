-- ===== src/Hub/KeyCache.antt =====
-- `KeyCache` of hub/src/modules/key_cache/main.py: the encryptor of the two key files, kept while
-- their times of modification stay the same.
pub mod Coherent
mod Examples
use prover.Prelude.{ℕ, ◌==◌, ◌&&◌, Bool, true, false, Option, none, some, Text, if◌then◌else◌}

-- How `get_encryptor` ends: a `FileNotFoundError` of a stat or a read, or an exception of
-- `RSAEncryption`, or an encryptor.
pub data Loaded {ℓ} (E : Type ℓ) : Type ℓ where
  loaded : E → Loaded E
  file_not_found : Loaded E
  key_error : Loaded E

-- What the file system says during a call: the times of the two files, and then their contents.
pub record Files : Type 0 where
  pub private_mtime : Option ℕ
  pub public_mtime : Option ℕ
  pub private_text : Option Text
  pub public_text : Option Text

-- The times of the two files, and the encryptor.
abbrev pub Cache {ℓ} : Type ℓ → Type ℓ
Cache E = Option (ℕ × ℕ × E)

abbrev pub is_fresh {ℓ} : {E : Type ℓ} → ℕ → ℕ → Cache E → Bool
is_fresh private_mtime public_mtime none = false
is_fresh private_mtime public_mtime (some (p, q, e)) = p == private_mtime && q == public_mtime

module _ {ℓ} {E : Type ℓ} (rsa_encryption : Text → Text → Option E) where
  abbrev pub keep : ℕ → ℕ → Cache E → Option E → Cache E × Loaded E
  keep private_mtime public_mtime cache none = (cache, key_error)
  keep private_mtime public_mtime cache (some e) = (some (private_mtime, public_mtime, e), loaded e)

  -- The two reads, and the new encryptor.
  unfoldable pub read : Files → ℕ → ℕ → Cache E → Cache E × Loaded E
  read f private_mtime public_mtime cache = elim f.private_text [
    | none ↦ (cache, file_not_found)
    | some private_key ↦ elim f.public_text [
      | none ↦ (cache, file_not_found)
      | some public_key ↦
          keep private_mtime public_mtime cache (rsa_encryption public_key private_key)
    ]
  ]

  unfoldable pub look_up : Files → ℕ → ℕ → Cache E → Cache E × Loaded E
  unfolding read
  look_up f private_mtime public_mtime none = read f private_mtime public_mtime none
  look_up f private_mtime public_mtime (some (p, q, e)) =
      let again = read f private_mtime public_mtime (some (p, q, e)) in
      if is_fresh private_mtime public_mtime (some (p, q, e))
      then (some (p, q, e), loaded e)
      else again

  -- `get_encryptor`, under its lock.
  unfoldable pub get_encryptor : Files → Cache E → Cache E × Loaded E
  unfolding look_up
  get_encryptor f cache = elim f.private_mtime [
    | none ↦ (cache, file_not_found)
    | some private_mtime ↦ elim f.public_mtime [
      | none ↦ (cache, file_not_found)
      | some public_mtime ↦ look_up f private_mtime public_mtime cache
    ]
  ]
