-- ===== src/Node/Project/Decode.antt =====
-- The two forms of a project identifier name the same project.
use prover.Prelude.{
  ℕ, ◌+◌, ◌*◌, ◌/◌, ◌%◌, ◌≡◌, refl, true, some, [], ◌∷◌, Text, length, All, arith, ap, ◌∙◌,
}
use prover.Prelude.Decimal.{is_digit, value_after}
use prover.Prelude.Int.{pos}
use prover.Dict.{Dict}
use prover.PyText.{int_of}
use prover.PyText.Laws.{int_of-digits}
use prover.Node.Project.{Project, decode_id, get_project}

-- The identifier with each digit written as its decimal code.
pub encode_id : Text → Text
encode_id [] = []
encode_id (c ∷ cs) = (48 + c / 10) ∷ (48 + c % 10) ∷ encode_id cs

int_of_code :
    (c : ℕ) → is_digit c ≡ true → int_of ((48 + c / 10) ∷ (48 + c % 10) ∷ []) ≡ some (pos c)
unfolding value_after
int_of_code c h =
    int_of-digits (48 + c / 10) ((48 + c % 10) ∷ []) (ground arith, (ground arith, tt))
    ∙ ap (λ n. some (pos n)) (ground arith)

decode_id-encode_id : (s : Text) → All (λ c. is_digit c ≡ true) s → decode_id (encode_id s) ≡ s
unfolding decode_id encode_id
decode_id-encode_id [] h = refl
decode_id-encode_id (c ∷ cs) (h, hs) =
    rw (int_of_code c h, decode_id-encode_id cs hs) (ground arith)

length-encode_id : (s : Text) → length (encode_id s) ≡ 2 * length s
unfolding encode_id
length-encode_id [] = omega arith
length-encode_id (c ∷ cs) = omega (arith, length-encode_id cs)

-- For an identifier of five digits, a proof that shows the codes of the digits belongs to the same
-- project as one that shows the identifier.
pub get_project-encode_id :
    (s : Text) (projects : Dict Project)
    → All (λ c. is_digit c ≡ true) s
    → length s ≡ 5
    → get_project (encode_id s) projects ≡ get_project s projects
unfolding get_project
get_project-encode_id s projects h l = rw (length-encode_id s, l, decode_id-encode_id s h) refl
