-- ===== src/Carry/Store.antt =====
-- What the operations on files keep and change, one path at a time.
use zerem.Prelude.{
  ℕ, true, false, none, some, List, [], ◌∷◌, take, length, ◌≡◌, ◌≢◌, refl, sym, arith, All,
  Bool-cases, inl, inr,
}
use zerem.Prelude.Paths.{FilePath, path_eq, path_eq→eq, path_eq_self}
use zerem.Relocate.{Step}
use zerem.Carry.{
  Disk, Answers, exists, rename, remove_file, remove_files, copy_one, make_folders, prune,
}

pub path_eq-false : (p q : FilePath) → p ≢ q → path_eq p q ≡ false
path_eq-false p q ne = elim (Bool-cases (path_eq p q)) [
  | inl e ↦ absurd (ne (path_eq→eq p q e))
  | inr e ↦ e
]

-- A path that is not touched keeps its file.
pub rename_other :
    (os : Answers) (d moved : Disk) (from to p : FilePath)
    → rename os d from to ≡ some moved
    → from ≢ p
    → to ≢ p
    → moved.files p ≡ d.files p
unfolding rename
rename_other os d moved from to p h a b =
    ground (arith, path_eq-false from p a, path_eq-false to p b)

pub remove_file_other :
    (os : Answers) (d : Disk) (q p : FilePath) → q ≢ p → (remove_file os d q).files p ≡ d.files p
unfolding remove_file
remove_file_other os d q p ne = ground (arith, path_eq-false q p ne)

pub remove_files_other :
    (os : Answers) (d : Disk) (paths : List FilePath) (p : FilePath)
    → All (λ q. q ≢ p) paths
    → (remove_files os d paths).files p ≡ d.files p
unfolding remove_files
remove_files_other os d [] p h = refl
remove_files_other os d (q ∷ paths) p h =
    ground (
      arith,
      remove_files_other os (remove_file os d q) paths p h.1,
      remove_file_other os d q p h.0,
    )

pub copy_one_other :
    (os : Answers) (d : Disk) (step : Step) (p : FilePath)
    → step.to ≢ p
    → (copy_one os d step).1.files p ≡ d.files p
unfolding copy_one remove_file
copy_one_other os d step p ne = ground (arith, path_eq-false step.to p ne)

-- A rename that worked: the file is at the new path, and not at the old one.
pub rename_lem :
    (os : Answers) (d moved : Disk) (from to : FilePath)
    → rename os d from to ≡ some moved
    → from ≢ to
    → (moved.files from ≡ none) × (moved.files to ≡ d.files from) × (exists d from ≡ true)
unfolding rename
rename_lem os d moved from to h ne =
    ground (arith, path_eq_self from, path_eq_self to, path_eq-false to from (λ e. ne (sym e)))

take-length : (bytes : List ℕ) → take (length bytes) bytes ≡ bytes
take-length [] = refl
take-length (b ∷ bytes) = cc (take-length bytes)

-- A copy that was reported whole is whole.
pub copy_one_lem :
    (os : Answers) (d : Disk) (step : Step) (bytes : List ℕ)
    → d.files step.from ≡ some bytes
    → (copy_one os d step).0 ≡ none
    → (copy_one os d step).1.files step.to ≡ some bytes
unfolding copy_one
copy_one_lem os d step bytes e h = ground (arith, path_eq_self step.to, take-length bytes)

pub make_folders-files :
    (os : Answers) (paths : List FilePath) (d : Disk) → (make_folders os paths d).1.files ≡ d.files
unfolding make_folders
make_folders-files os [] d = refl
make_folders-files os (p ∷ paths) d =
    ground (arith, make_folders-files os paths (record d { made = p ∷ d.made }))

pub prune-files : (plan : List Step) (d : Disk) → (prune plan d).files ≡ d.files
unfolding prune
prune-files plan d = refl
