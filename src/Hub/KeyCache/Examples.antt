-- ===== src/Hub/KeyCache/Examples.antt =====
-- A cache whose public key was changed on disk.
use prover.Prelude.{ℕ, ◌≡◌, refl, some, Option, Text, [], ◌∷◌, ◌++◌}
use prover.Hub.KeyCache.{Files, Cache, get_encryptor}
use prover.Hub.KeyCache.Coherent.{encryptor_at, IsCoherent, get_encryptor-IsCoherent}

abbrev both : Text → Text → Option Text
both public_key private_key = some (public_key ++ private_key)

abbrev private_at : ℕ → Text
private_at p = p ∷ []

abbrev public_at : ℕ → Text
public_at q = q ∷ []

abbrev files : Files
files = record {
  private_mtime = some 3;
  public_mtime = some 5;
  private_text = some (private_at 3);
  public_text = some (public_at 5);
}

abbrev cache : Cache Text
cache = some (3, 4, public_at 4 ++ private_at 3)

get_encryptor-IsCoherent_example :
    ((get_encryptor both files cache).1 ≡ encryptor_at both private_at public_at 3 5)
    × IsCoherent both private_at public_at (get_encryptor both files cache).0
get_encryptor-IsCoherent_example =
    get_encryptor-IsCoherent both private_at public_at files 3 5 cache (refl, refl, refl, refl) refl
