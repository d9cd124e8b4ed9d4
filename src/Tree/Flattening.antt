-- ===== src/Tree/Flattening.antt =====
-- Which rows the list has.
use zerem.Prelude.{
  zero, suc, not, ◌<◌, All, arith, ℕ, ◌+◌, Bool, false, none, some, List, [], ◌∷◌, ◌++◌, length,
  take, drop, range_from, ◌≡◌, refl, ap, subst, sym, Bool, true, ◌∙◌, append-nil, append_assoc,
  Option-cases, inl, inr,
}
use zerem.Prelude.Text.{Text, split}
use zerem.Prelude.Sorting.{sort-perm, IsOrdered, sort-IsOrdered}
use mathlib.Core.List.{Perm}
use zerem.Detail.{FileRow}
use zerem.Tree.Preceding.{Precedes, Apart, is_above, parts-Precedes, parts-Follows, Precedes-trans}
use zerem.Tree.{
  before_path, Node, Sum, Walk, separators, same_folders, reveal, open_folder, open_folders, leaf,
  place_file, place_all, order_of, flatten, file_at, sums_of,
}

-- The files whose rows are shown, in order.
abbrev pub places : List Node → List ℕ
places [] = []
places (n ∷ nodes) =
    let rest = places nodes in elim (n.at) as (λ _. List ℕ) [ none ↦ rest | some at ↦ at ∷ rest ]

places-append : (xs ys : List Node) → places (xs ++ ys) ≡ places xs ++ places ys
places-append [] ys = refl
places-append (n ∷ xs) ys = elim (Option-cases (n.at)) [
  | inl folder ↦ rw folder (places-append xs ys)
  | inr (at, file) ↦ rw file (ap (λ t. at ∷ t) (places-append xs ys))
]

-- No folder is shut.
abbrev all_open : Text → Bool
all_open folder = false

abbrev IsShown : List ℕ → Walk → Type 0
IsShown shown w = (w.hidden ≡ none) × (places w.out ≡ shown)

folder-IsShown :
    (sums : List (Text × Sum)) (path : Text) (ends : List ℕ) (depth end : ℕ) (w : Walk)
    (shown : List ℕ)
    → IsShown shown w
    → IsShown shown (open_folder all_open sums path ends depth end w)
unfolding open_folder
folder-IsShown sums path ends depth end w shown (clear, same) =
    rw clear (refl, places-append w.out _ ∙ append-nil (places w.out) ∙ same)

folders-IsShown :
    (sums : List (Text × Sum)) (path : Text) (ends : List ℕ) (depth : ℕ) (later : List ℕ) (w : Walk)
    (shown : List ℕ)
    → IsShown shown w
    → IsShown shown (open_folders all_open sums path ends depth later w)
unfolding open_folders
folders-IsShown sums path ends depth [] w shown h = h
folders-IsShown sums path ends depth (end ∷ later) w shown h =
    folders-IsShown sums path ends (depth + 1) later
      (open_folder all_open sums path ends depth end w) shown
      (folder-IsShown sums path ends depth end w shown h)

file-IsShown :
    (sep : ℕ → Bool) (sums : List (Text × Sum)) (f : FileRow) (at : ℕ) (w : Walk) (shown : List ℕ)
    → IsShown shown w
    → IsShown (shown ++ (at ∷ [])) (place_file sep all_open sums f at w)
unfolding place_file
file-IsShown sep sums f at w shown (clear, same) =
    let ends = separators sep f.path in
    let depth = same_folders f.path w.stack ends in
    let ready = record w { stack = take depth w.stack; hidden = reveal w.hidden depth } in
    let opened : reveal w.hidden depth ≡ none = rw clear refl in
    let placed = open_folders all_open sums f.path ends depth (drop depth ends) ready in
    let (still_clear, before) =
      folders-IsShown sums f.path ends depth (drop depth ends) ready shown (opened, same) in
    rw (still_clear, place_file)
      (
        still_clear,
        places-append placed.out (leaf f ends at ∷ []) ∙ ap (λ t. t ++ (at ∷ [])) before,
      )

all-IsShown :
    (sep : ℕ → Bool) (sums : List (Text × Sum)) (files : List FileRow) (order : List ℕ) (w : Walk)
    (shown : List ℕ)
    → IsShown shown w
    → IsShown (shown ++ order) (place_all sep all_open sums files order w)
unfolding place_all
all-IsShown sep sums files [] w shown h = rw append-nil h
all-IsShown sep sums files (at ∷ order) w shown h =
    subst
      (λ t. IsShown t (
        place_all sep all_open sums files order
          (place_file sep all_open sums (file_at files at) at w)))
      (append_assoc shown (at ∷ []) order)
      (all-IsShown sep sums files order (place_file sep all_open sums (file_at files at) at w)
        (shown ++ (at ∷ [])) (file-IsShown sep sums (file_at files at) at w shown h))

-- No file's path is that of a folder which another file is in.
abbrev pub IsTree : (ℕ → Bool) → List FileRow → Type 0
IsTree sep files =
    All (λ f. All (λ g. is_above (split sep f.path) (split sep g.path) ≡ false) files) files

-- The parts of the path of a file.
abbrev pub parts_at : (ℕ → Bool) → List FileRow → ℕ → List Text
parts_at sep files i = split sep (file_at files i).path

All-file_at :
    (Q : FileRow → Type 0) (files : List FileRow) (i : ℕ)
    → All Q files
    → i < length files
    → Q (file_at files i)
All-file_at Q [] i h below = absurd (omega arith)
All-file_at Q (f ∷ files) zero h below = h.0
All-file_at Q (f ∷ files) (suc i) h below = All-file_at Q files i h.1 (omega arith)

files-Apart :
    (sep : ℕ → Bool) (files : List FileRow) (i j : ℕ)
    → IsTree sep files
    → i < length files
    → j < length files
    → Apart (parts_at sep files i) (parts_at sep files j)
files-Apart sep files i j tree hi hj = (one i j hi hj, one j i hj hi)
  where
    one :
        (i j : ℕ)
        → i < length files
        → j < length files
        → is_above (parts_at sep files i) (parts_at sep files j) ≡ false
    one i j hi hj = All-file_at _ files j (All-file_at _ files i tree hi) hj

range_from-All : (first n end : ℕ) → first + n ≡ end → All (λ i. i < end) (range_from first n)
range_from-All first zero end e = tt
range_from-All first (suc n) end e = (omega arith, range_from-All (first + 1) n end (omega arith))

not-true : (b : Bool) → not b ≡ true → b ≡ false
not-true true e = sym e
not-true false e = refl

not-false : (b : Bool) → not b ≡ false → b ≡ true
not-false true e = refl
not-false false e = sym e

-- With every folder open each file has a row and no file has two, and the rows of files are in order from
-- the top: of any two, the path of the upper one precedes that of the lower one, which means that at the
-- first part in which they differ a folder comes before a file, and two folders or two files stand by the
-- folded name, then by the name. It is asked that no path of a file is that of a folder which another
-- file is in (the comparison that the sort is given is not transitive otherwise).
pub flatten-places :
    (sep : ℕ → Bool) (lower : Text → Text) (files : List FileRow)
    → IsTree sep files
    → Perm (places (flatten sep lower (λ folder. false) files)) (range_from 0 (length files))
      × IsOrdered
          (λ i j. Precedes lower (parts_at sep files i) (parts_at sep files j))
          (places (flatten sep lower (λ folder. false) files))
unfolding flatten order_of before_path
flatten-places sep lower files tree =
    let order = order_of sep lower files in
    let shown : places (flatten sep lower (λ folder. false) files) ≡ order =
      (all-IsShown sep (sums_of sep files []) files order
        (record { out = []; stack = []; hidden = none }) [] (refl, refl)).1 in
    rw shown (
      sort-perm _ (range_from 0 (length files)),
      sort-IsOrdered _ (λ i j. Precedes lower (parts_at sep files i) (parts_at sep files j))
          (λ i. i < length files) (λ i j e. parts-Precedes lower _ _ (not-true _ e))
          (λ i j e. parts-Follows lower _ _ (not-false _ e))
          (λ i j k hi hj hk.
            Precedes-trans lower _ _ _ (files-Apart sep files i j tree hi hj)
              (files-Apart sep files j k tree hj hk) (files-Apart sep files i k tree hi hk))
          (range_from 0 (length files))
          (range_from-All 0 (length files) (length files) (omega arith)),
    )
