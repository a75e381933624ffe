-- ===== src/Base85.antt =====
-- The standard library's `base64.b85encode`, with which the second version of the node's HTTP
-- handlers sends bytes.
use prover.Prelude.{
  ℕ, zero, suc, ◌+◌, ◌*◌, ◌/◌, ◌%◌, ◌≡◌, refl, List, [], ◌∷◌, ◌++◌, Text, codes, map, take,
}

abbrev pub alphabet : Text
alphabet =
    codes "0123456789ABCDEFGHIJKLMNOPQRSTUVWXYZabcdefghijklmnopqrstuvwxyz!#$%&()*+-;<=>?@^_`{|}~"

-- The character at an index, which is below 85.
unfoldable pub character : Text → ℕ → ℕ
character [] v = 0
character (c ∷ cs) zero = c
character (c ∷ cs) (suc v) = character cs v

-- The five digits of a word of four bytes, the highest first.
unfoldable pub digits : ℕ → List ℕ
digits word =
    (word / 52200625)
    ∷ ((word / 614125) % 85)
    ∷ ((word / 7225) % 85)
    ∷ ((word / 85) % 85)
    ∷ (word % 85)
    ∷ []

abbrev pub word_of : ℕ → ℕ → ℕ → ℕ → ℕ
word_of a b c d = ((a * 256 + b) * 256 + c) * 256 + d

abbrev pub encode_word : ℕ → ℕ → ℕ → ℕ → Text
encode_word a b c d = map (character alphabet) (digits (word_of a b c d))

-- The last word is filled with zeros, and as many characters are dropped.
unfoldable pub b85encode : List ℕ → Text
unfolding character digits
b85encode [] = []
b85encode (a ∷ []) = take 2 (encode_word a 0 0 0)
b85encode (a ∷ b ∷ []) = take 3 (encode_word a b 0 0)
b85encode (a ∷ b ∷ c ∷ []) = take 4 (encode_word a b c 0)
b85encode (a ∷ b ∷ c ∷ d ∷ rest) = encode_word a b c d ++ b85encode rest

hello : b85encode (codes "hello") ≡ codes "Xk~0{Zv"
unfolding b85encode character digits
hello = refl
