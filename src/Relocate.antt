-- ===== src/Relocate.antt =====
-- crates/zerem-core/src/relocate.rs: where a finished torrent's files should end up. A path is the list
-- of its components, as `Path::components` gives them out.
pub mod Destinations
use zerem.Prelude.{
  is_nil, Bool, true, false, ◌&&◌, Option, none, some, List, [], ◌∷◌, map, if◌then◌else◌,
}
use zerem.Prelude.Text.{ascii_upper}
use zerem.Prelude.Paths.{
  Component, disk, verbatim_disk, verbatim_unc, unc, normal, FilePath, path_eq, path_starts_with,
  file_name, join,
}

pub record Step : Type 0 where
  pub from : FilePath
  pub to : FilePath

-- One component, spelled the one way that is compared.
pub normalise_part : Component → Component
normalise_part (disk letter) = disk (ascii_upper letter)
normalise_part (verbatim_disk letter) = disk (ascii_upper letter)
normalise_part (verbatim_unc server share) = unc server share
normalise_part other = other

unfoldable pub normalise : FilePath → FilePath
unfolding normalise_part
normalise path = map normalise_part path

-- The folder that the files end up in.
unfoldable pub landing : FilePath → FilePath → Bool → FilePath
landing output destination owns_folder = elim (file_name (normalise output)) [
  | none ↦ normalise destination
  | some name ↦
      if owns_folder then join (normalise destination) (normal name ∷ []) else normalise destination
]

-- The journeys of the files; `landing` reads the normalised paths again.
abbrev pub steps : FilePath → FilePath → List FilePath → List Step
steps from_root carried relative =
    map (λ path. record { from = join from_root path; to = join carried path }) relative

unfoldable pub plan : FilePath → List FilePath → FilePath → Bool → Option (List Step)
unfolding landing
plan output relative destination owns_folder =
    let from_root = normalise output in
    let to_root = normalise destination in
    if is_nil relative
    then none
    else if path_eq from_root to_root
    then none
    else if owns_folder && path_starts_with from_root to_root
    then none
    else some (steps from_root (landing from_root to_root owns_folder) relative)
