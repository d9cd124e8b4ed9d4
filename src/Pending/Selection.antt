-- ===== src/Pending/Selection.antt =====
-- What the add dialog shows and hands over of a selection.
use zerem.Prelude.{
  ℕ, zero, suc, ◌+◌, ◌≤◌, ◌<◌, true, false, none, some, List, [], ◌∷◌, keep, all, map, length, ◌≡◌,
  refl, arith, get_elem?, sum, Bool-cases, inl, inr, sym, ◌↔◌, get_or,
}
use zerem.Prelude.Words.{u64_max, wrapping_sum-sum}
use zerem.Choice.{flags}
use zerem.Choice.Ticking.{listed, names, get_elem?-flags}
use zerem.Pending.{
  Pending, PendingFile, selected_size, total_size, wanted_from, only_files, is_addable,
}

listed-wanted_from_lt :
    (i j : ℕ) (files : List PendingFile) → j < i → listed j (wanted_from i files) ≡ false
unfolding wanted_from
listed-wanted_from_lt i j [] h = refl
listed-wanted_from_lt i j (f ∷ files) h = ground (arith, listed-wanted_from_lt (i + 1) j files)

listed-wanted_from :
    (i j : ℕ) (files : List PendingFile) {f : PendingFile}
    → get_elem? files j ≡ some f
    → listed (i + j) (wanted_from i files) ≡ f.wanted
unfolding wanted_from
listed-wanted_from i j [] h = cc
listed-wanted_from i zero (g ∷ files) {f} h = ground (arith, listed-wanted_from_lt (i + 1) i files)
listed-wanted_from i (suc j) (g ∷ files) {f} h =
    ground (arith, listed-wanted_from (i + 1) j files {f = f})

all-get :
    (files : List PendingFile) (j : ℕ) {f : PendingFile}
    → all (λ g. g.wanted) files ≡ true
    → get_elem? files j ≡ some f
    → f.wanted ≡ true
all-get [] j h e = cc
all-get (g ∷ files) zero h e = ground arith
all-get (g ∷ files) (suc j) {f} h e = ground (arith, all-get files j {f = f})

get_elem?-lt :
    (files : List PendingFile) (j : ℕ) {f : PendingFile}
    → get_elem? files j ≡ some f
    → j < length files
get_elem?-lt [] j h = cc
get_elem?-lt (g ∷ files) zero h = omega arith
get_elem?-lt (g ∷ files) (suc j) {f} h = omega (arith, get_elem?-lt files j h)

names-only_files :
    (p : Pending) (j : ℕ) {f : PendingFile}
    → get_elem? p.files j ≡ some f
    → names (only_files p) j ≡ f.wanted
unfolding only_files
names-only_files p j {f} h = elim (Bool-cases (all (λ g. g.wanted) p.files)) [
  | inl e ↦ rw e (sym (all-get p.files j e h))
  | inr e ↦ rw e (ground (arith, listed-wanted_from 0 j p.files {f = f} h))
]

-- The engine reads the list that it is handed back as the ticks of the dialog: a file's flag is set
-- exactly when it is wanted.
flags-only_files :
    (p : Pending) (j : ℕ) {f : PendingFile}
    → get_elem? p.files j ≡ some f
    → get_elem? (flags (only_files p) (length p.files)) j ≡ some f.wanted
flags-only_files p j {f} h = ground (
  arith,
  get_elem?-flags (only_files p) (length p.files) j,
  get_elem?-lt p.files j {f = f} h,
  names-only_files p j {f = f} h,
)

sum-keep-le :
    (files : List PendingFile)
    → sum (map (λ f. f.size) (keep (λ f. f.wanted) files)) ≤ sum (map (λ f. f.size) files)
sum-keep-le [] = omega arith
sum-keep-le (f ∷ files) = ground (arith, sum-keep-le files)

-- Where the sizes of all files add up within a u64, neither sum wraps, and the selection is no
-- larger than the torrent.
pub selected-le-total :
    (p : Pending)
    → sum (map (λ f. f.size) p.files) ≤ u64_max
    → (total_size p ≡ sum (map (λ f. f.size) p.files))
      × (selected_size p ≡ sum (map (λ f. f.size) (keep (λ f. f.wanted) p.files)))
      × (selected_size p ≤ total_size p)
unfolding total_size selected_size
selected-le-total p h =
    let le = sum-keep-le p.files in
    let t = wrapping_sum-sum (map (λ f. f.size) p.files) h in
    let s = wrapping_sum-sum (map (λ f. f.size) (keep (λ f. f.wanted) p.files)) (omega arith) in
    (t, s, omega arith)

length-wanted_from :
    (i : ℕ) (files : List PendingFile)
    → length (wanted_from i files) ≡ length (keep (λ f. f.wanted) files)
unfolding wanted_from
length-wanted_from i [] = refl
length-wanted_from i (f ∷ files) = ground (arith, length-wanted_from (i + 1) files)

-- A torrent can be added exactly when it was read without an error, its metadata is there, and the
-- list handed to the engine names a file (or stands for all of at least one).
pub is_addable_lem :
    (p : Pending)
    → (is_addable p ≡ true) ↔ (
        (p.error ≡ none)
        × (p.fetching ≡ false)
        × (0 < length (get_or (only_files p) (wanted_from 0 p.files))))
unfolding is_addable only_files
is_addable_lem p = (
  λ h. (ground arith, ground arith, ground (arith, length-wanted_from 0 p.files)),
  λ h. ground (arith, length-wanted_from 0 p.files),
)
