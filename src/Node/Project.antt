-- ===== src/Node/Project.antt =====
-- prover/node/src/modules/project_manager/main.py: the project of a proof, by the identifier that
-- the circuit makes public, plain or as the decimal codes of its digits.
pub mod Decode
mod Examples
use prover.Prelude.{
  ℕ, ◌+◌, ◌%◌, Bool, true, false, ◌&&◌, Option, none, some, List, [], ◌∷◌, Text, codes, leb, ◌==◌,
  if◌then◌else◌, length,
}
use prover.Prelude.Int.{ℤ, pos, negsuc}
use prover.Dict.{Dict, lookup}
use prover.PyText.{int_of}

pub record Project : Type 0 where
  pub project_name : Text
  pub verifiers : List Text

abbrev pub anonymous : Project
anonymous = record { project_name = codes "Anonymous"; verifiers = codes "Unknow" ∷ [] }

-- `self.projects.get(key, anonymous)`
unfoldable pub project_or_anonymous : Text → Dict Project → Project
project_or_anonymous key projects = elim (lookup key projects) [ none ↦ anonymous | some p ↦ p ]

-- `str(int(chr(int(chunk))))`, or nothing where that raises: of the numbers of two digits only the
-- codes of the digits give a digit back.
unfoldable pub decode_chunk : Option ℤ → Text → Text
decode_chunk none rest = rest
decode_chunk (some (negsuc n)) rest = rest
decode_chunk (some (pos v)) rest = if leb 48 v && leb v 57 then v ∷ rest else rest

-- The loop over the chunks of two characters.
unfoldable pub decode_id : Text → Text
unfolding decode_chunk
decode_id [] = []
decode_id (c ∷ []) = decode_chunk (int_of (c ∷ [])) []
decode_id (c ∷ d ∷ rest) = decode_chunk (int_of (c ∷ d ∷ [])) (decode_id rest)

unfoldable pub get_project : Text → Dict Project → Project
unfolding project_or_anonymous decode_id
get_project project_id projects =
    if length project_id == 5
    then project_or_anonymous project_id projects
    else if length project_id % 2 == 0
    then project_or_anonymous (decode_id project_id) projects
    else anonymous

-- `_load_projects`: the projects of the file; `none` is an exception of its reading.
unfoldable pub load_projects : Option (Dict Project) → Dict Project
load_projects none = []
load_projects (some projects) = projects
