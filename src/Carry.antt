-- ===== src/Carry.antt =====
-- crates/zerem-engine/src/relocate.rs: carrying the files of a plan to their destinations.
pub mod Store
pub mod Tracking
pub mod Guarantees
use zerem.Prelude.{
  ℕ, ◌+◌, Bool, true, false, not, ◌&&◌, Option, none, some, List, [], ◌∷◌, ◌++◌, map, find, take,
  length, leb, ltb, ◌==◌, if◌then◌else◌, is_some,
}
use zerem.Prelude.Paths.{FilePath, path_eq, path_leb, parent, dedup}
use zerem.Prelude.Sorting.{sort}
use zerem.Relocate.{Step}

-- What `std::fs` works on: the bytes of each file, and the folders that were asked for and given up.
pub record Disk : Type 0 where
  pub files : FilePath → Option (List ℕ)
  pub made : List FilePath
  pub pruned : List FilePath

-- How a copy of an existing file ends: refused with nothing written, broken off with an error behind
-- so many bytes, or reported as done with so many.
pub data Copying : Type 0 where
  refused : Copying
  broken wrote : ℕ → Copying

-- The answers of the operating system, which may depend on all that is on the disk.
pub record Answers : Type 0 where
  pub mkdir_ok : Disk → FilePath → Bool
  pub rename_ok : Disk → FilePath → FilePath → Bool
  pub copying : Disk → FilePath → FilePath → Copying
  pub stat_ok : Disk → FilePath → Bool
  pub remove_ok : Disk → FilePath → Bool

-- Why a move did not happen, with the path that it names (the system's own message is left out).
pub data Fault : Type 0 where
  folder copy short occupied : FilePath → Fault

abbrev pub exists : Disk → FilePath → Bool
exists d p = is_some (d.files p)

abbrev pub update :
    (FilePath → Option (List ℕ)) → FilePath → Option (List ℕ) → FilePath → Option (List ℕ)
update files p v q = if path_eq p q then v else files q

-- `fs::rename`, its error dropped; a file is put over what is there.
unfoldable pub rename : Answers → Disk → FilePath → FilePath → Option Disk
rename os d from to = elim (d.files from) [
  | none ↦ none
  | some bytes ↦
      if os.rename_ok d from to
      then some (record d { files = update (update d.files from none) to (some bytes) })
      else none
]

-- `let _ = fs::remove_file(p)`.
unfoldable pub remove_file : Answers → Disk → FilePath → Disk
remove_file os d p = if os.remove_ok d p then record d { files = update d.files p none } else d

pub remove_files : Answers → Disk → List FilePath → Disk
remove_files os d [] = d
remove_files os d (p ∷ paths) = remove_files os (remove_file os d p) paths

unfoldable pub copy_one : Answers → Disk → Step → Option Fault × Disk
copy_one os d step = elim (d.files step.from) [
  | none ↦ (some (copy step.from), d)
  | some bytes ↦ elim (os.copying d step.from step.to) [
    | refused ↦ (some (copy step.from), d)
    | broken n ↦
        (some (copy step.from), record d { files = update d.files step.to (some (take n bytes)) })
    | wrote n ↦
        let after = record d { files = update d.files step.to (some (take n bytes)) } in
        if not (os.stat_ok after step.from)
        then (some (copy step.from), after)
        else if n == length bytes
        then (none, after)
        else (some (short step.to), remove_file os after step.to)
  ]
]

-- `done` holds the destinations that were written.
pub copy_all : Answers → List FilePath → List Step → Disk → Option Fault × Disk
copy_all os done [] d = (none, d)
copy_all os done (step ∷ steps) d =
    let skipped = copy_all os done steps d in
    let (fault, after) = copy_one os d step in
    let copied = elim fault as (λ _. Option Fault × Disk) [
      | none ↦ copy_all os (done ++ step.to ∷ []) steps after
      | some why ↦ (some why, remove_files os after done)
    ] in
    if not (exists d step.from) && exists d step.to then skipped else copied

abbrev pub parents : List FilePath → List FilePath
parents [] = []
parents (p ∷ paths) =
    let rest = parents paths in elim (parent p) [ none ↦ rest | some above ↦ above ∷ rest ]

-- Every folder that has to exist before a plan can run, parents first.
unfoldable pub folders : List Step → List FilePath
unfolding sort
folders plan = dedup (sort path_leb (parents (map (λ step. step.to) plan)))

-- The folders that a move may have emptied, deepest first; the second sort is stable.
unfoldable pub emptied : List Step → List FilePath
unfolding sort
emptied plan =
    sort (λ p q. leb (length q) (length p))
      (dedup (sort path_leb (parents (map (λ step. step.from) plan))))

-- `fs::remove_dir` takes an empty folder only, and its error is dropped: no file is touched.
unfoldable pub prune : List Step → Disk → Disk
unfolding emptied
prune plan d = record d { pruned = d.pruned ++ emptied plan }

unfoldable pub copy_and_delete : Answers → List Step → Disk → Option Fault × Disk
unfolding copy_all
copy_and_delete os plan d =
    let (fault, after) = copy_all os [] plan d in
    elim fault as (λ _. Option Fault × Disk) [
      | some why ↦ (some why, after)
      | none ↦ (none, prune plan (remove_files os after (map (λ step. step.from) plan)))
    ]

-- `let _ = fs::rename(&done.to, &done.from)`, for each that was renamed, the first first.
pub undo : Answers → List Step → Disk → Disk
undo os [] d = d
undo os (step ∷ renamed) d = elim (rename os d step.to step.from) [
  | none ↦ undo os renamed d
  | some back ↦ undo os renamed back
]

pub rename_all : Answers → List Step → List Step → List Step → Disk → Option Fault × Disk
rename_all os plan renamed [] d = (none, prune plan d)
rename_all os plan renamed (step ∷ steps) d = elim (rename os d step.from step.to) [
  | none ↦ copy_and_delete os plan (undo os renamed d)
  | some moved ↦ rename_all os plan (renamed ++ step ∷ []) steps moved
]

-- The loop that makes the folders: the first that cannot be made ends it.
pub make_folders : Answers → List FilePath → Disk → Option Fault × Disk
make_folders os [] d = (none, d)
make_folders os (p ∷ paths) d =
    let made = make_folders os paths (record d { made = p ∷ d.made }) in
    if os.mkdir_ok d p then made else (some (folder p), d)

unfoldable pub carry : Answers → List Step → Disk → Option Fault × Disk
unfolding rename_all make_folders undo
carry os plan d = elim (find (λ step. exists d step.to && exists d step.from) plan) [
  | some taken ↦ (some (occupied taken.to), d)
  | none ↦
      let (fault, ready) = make_folders os (folders plan) d in
      elim fault as (λ _. Option Fault × Disk) [
        | some why ↦ (some why, ready)
        | none ↦ rename_all os plan [] plan ready
      ]
]
