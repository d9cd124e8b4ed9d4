-- ===== src/Examples/RelocateExamples.antt =====
-- Tests of crates/zerem-core/src/relocate.rs.
use zerem.Prelude.{true, false, some, none, List, [], ◌∷◌, ◌++◌, All, ◌≡◌, refl}
use zerem.Prelude.Text.{Text}
use zerem.Prelude.Paths.{disk, verbatim_disk, root_dir, normal, FilePath}
use zerem.Relocate.{Step, normalise, plan}
use zerem.Relocate.Destinations.{plan_onto_itself}

abbrev downloads : FilePath
downloads = verbatim_disk 100 ∷ root_dir ∷ normal (100 ∷ 108 ∷ []) ∷ []

abbrev show : Text
show = 115 ∷ 104 ∷ 111 ∷ 119 ∷ []

abbrev episode : FilePath
episode = normal (101 ∷ 49 ∷ []) ∷ []

abbrev kept : FilePath
kept = disk 69 ∷ root_dir ∷ []

-- The verbatim spelling and the case of the drive make no difference.
plan_same_folder :
    plan downloads (episode ∷ []) (disk 68 ∷ root_dir ∷ normal (100 ∷ 108 ∷ []) ∷ []) false ≡ none
unfolding plan normalise
plan_same_folder = refl

planned_folder :
    plan (downloads ++ normal show ∷ []) (episode ∷ []) kept true
    ≡ some (
        record {
          from = disk 68 ∷ root_dir ∷ normal (100 ∷ 108 ∷ []) ∷ normal show ∷ episode;
          to = disk 69 ∷ root_dir ∷ normal show ∷ episode;
        }
        ∷ [])
unfolding plan normalise
planned_folder = refl

normalise-show : normalise (downloads ++ normal show ∷ []) ≡ normalise downloads ++ normal show ∷ []
unfolding normalise
normalise-show = refl

plan_onto_itself_example :
    (planned : List Step) × (plan (downloads ++ normal show ∷ []) (episode ∷ []) downloads true
      ≡ some planned)
    × All {A = Step} (λ s. s.from ≡ s.to) planned
plan_onto_itself_example =
    plan_onto_itself (downloads ++ normal show ∷ []) downloads show (episode ∷ []) normalise-show
      refl

planned_loose :
    plan downloads (episode ∷ []) kept false
    ≡ some (
        record {
          from = disk 68 ∷ root_dir ∷ normal (100 ∷ 108 ∷ []) ∷ episode;
          to = disk 69 ∷ root_dir ∷ episode;
        }
        ∷ [])
unfolding plan normalise
planned_loose = refl
