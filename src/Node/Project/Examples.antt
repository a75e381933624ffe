-- ===== src/Node/Project/Examples.antt =====
-- The two forms of one identifier.
use prover.Prelude.{◌≡◌, refl, [], ◌∷◌, codes}
use prover.Dict.{Dict}
use prover.Node.Project.{Project, get_project}
use prover.Node.Project.Decode.{encode_id, get_project-encode_id}

abbrev projects : Dict Project
projects = (codes "10235", record { project_name = codes "Fair"; verifiers = codes "v" ∷ [] }) ∷ []

get_project-encode_id_example :
    get_project (encode_id (codes "10235")) projects ≡ get_project (codes "10235") projects
get_project-encode_id_example =
    get_project-encode_id (codes "10235") projects (refl, (refl, (refl, (refl, (refl, tt))))) refl
