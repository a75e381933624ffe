-- ===== src/Hub/KeyCache/Coherent.antt =====
-- The cache of key_cache/main.py is invisible where the times of the files tell their contents.
use prover.Prelude.{
  ℕ, ◌≡◌, ◌==◌, ◌&&◌, Option, none, some, Text, arith, refl, ap₂, ◌∙◌, Bool-cases, inl, inr,
}
use prover.Hub.KeyCache.{
  Loaded, loaded, key_error, Files, Cache, keep, read, look_up, get_encryptor,
}

module _ {ℓ} {E : Type ℓ} (rsa_encryption : Text → Text → Option E)
    (private_at public_at : ℕ → Text) where
  -- The encryptor of the files as they were at these times.
  abbrev pub encryptor_at : ℕ → ℕ → Loaded E
  encryptor_at p q = elim (rsa_encryption (public_at q) (private_at p)) [
    | none ↦ key_error
    | some e ↦ loaded e
  ]

  -- What is kept belongs to the files as they were at the times that are kept with it.
  abbrev pub IsCoherent : Cache E → Type ℓ
  IsCoherent none = Unit {ℓ}
  IsCoherent (some (p, q, e)) = rsa_encryption (public_at q) (private_at p) ≡ some e

  -- The files are there, and are read as they were when their times were read.
  abbrev pub IsAt : ℕ → ℕ → Files → Type 0
  IsAt p q f =
      (f.private_mtime ≡ some p)
      × (f.public_mtime ≡ some q)
      × (f.private_text ≡ some (private_at p))
      × (f.public_text ≡ some (public_at q))

  -- The answer is that of the files, and what is kept is still right.
  abbrev IsRight : ℕ → ℕ → Cache E × Loaded E → Type ℓ
  IsRight p q (cache, answer) = (answer ≡ encryptor_at p q) × IsCoherent cache

  keep-IsRight :
      (p q : ℕ) (cache : Cache E) (o : Option E)
      → rsa_encryption (public_at q) (private_at p) ≡ o
      → IsCoherent cache
      → IsRight p q (keep rsa_encryption p q cache o)
  keep-IsRight p q cache none e c = (rw (e, encryptor_at) refl, c)
  keep-IsRight p q cache (some x) e c = (rw (e, encryptor_at) refl, e)

  read-IsRight :
      (f : Files) (p q : ℕ) (cache : Cache E)
      → IsAt p q f
      → IsCoherent cache
      → IsRight p q (read rsa_encryption f p q cache)
  unfolding read
  read-IsRight f p q cache (a, b, c, d) h =
      rw (c, d) (keep-IsRight p q cache (rsa_encryption (public_at q) (private_at p)) refl h)

  fresh-encryptor_at :
      (p' q' p q : ℕ) (e : E)
      → p' ≡ p
      → q' ≡ q
      → rsa_encryption (public_at q') (private_at p') ≡ some e
      → loaded e ≡ encryptor_at p q
  fresh-encryptor_at p' q' p q e a b h =
      rw (encryptor_at, h) refl ∙ ap₂ (λ x y. encryptor_at x y) a b

  look_up-IsRight :
      (f : Files) (p q : ℕ) (cache : Cache E)
      → IsAt p q f
      → IsCoherent cache
      → IsRight p q (look_up rsa_encryption f p q cache)
  unfolding look_up
  look_up-IsRight f p q none a h = read-IsRight f p q none a h
  look_up-IsRight f p q (some (p', q', e)) a h = elim (Bool-cases (p' == p && q' == q)) [
    | inr n ↦ rw n (read-IsRight f p q (some (p', q', e)) a h)
    | inl y ↦ rw y (fresh-encryptor_at p' q' p q e (ground arith) (ground arith) h, h)
  ]

  -- `get_encryptor` answers as if it read the files each time: if the time of a file determines its
  -- contents and the cache is coherent, the answer is the encryptor of the files as they are, and the
  -- cache is coherent again.
  pub get_encryptor-IsCoherent :
      (f : Files) (p q : ℕ) (cache : Cache E)
      → IsAt p q f
      → IsCoherent cache
      → ((get_encryptor rsa_encryption f cache).1 ≡ encryptor_at p q)
        × IsCoherent (get_encryptor rsa_encryption f cache).0
  unfolding get_encryptor
  get_encryptor-IsCoherent f p q cache (a, b, c, d) h =
      rw (a, b) (look_up-IsRight f p q cache (a, b, c, d) h)
