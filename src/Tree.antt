-- ===== src/Tree.antt =====
-- crates/zerem-core/src/tree.rs: the files of a torrent as an indented list of folders and files. Which
-- code points separate a path, and the folding of case, are arguments. Places in a path count code
-- points, where the source counts bytes.
pub mod Folding
pub mod Preceding
pub mod Flattening
use Prim.Native.Nat.{compare, Ordering}
use zerem.Prelude.{
  ℕ, zero, suc, ◌+◌, ◌-◌, ◌*◌, ◌%◌, ◌^◌, Bool, true, false, not, ◌&&◌, ◌||◌, Option, none, some,
  List, [], ◌∷◌, ◌++◌, length, get_elem?, take, drop, range_from, is_nil, is_some, ltb, leb, ◌==◌,
  if◌then◌else◌, get_or,
}
use zerem.Prelude.Text.{Text, text_eq, text_ltb, split}
use zerem.Prelude.Maps.{lookup, insert}
use zerem.Prelude.Sorting.{sort}
use zerem.Prelude.Words.{checked_div}
use zerem.Detail.{FileRow}

-- `Wanted`: none, part or all of a folder.
pub data Wanted : Type 0 where
  nothing part everything : Wanted

unfoldable pub and_wanted : Wanted → Bool → Wanted
and_wanted everything true = everything
and_wanted everything false = part
and_wanted part wanted = part
and_wanted nothing false = nothing
and_wanted nothing true = part

pub record Node : Type 0 where
  pub depth : ℕ
  pub name : Text
  pub path : Text
  pub at : Option ℕ
  pub files : ℕ
  pub size : ℕ
  pub done : ℕ
  pub wanted : Wanted
  pub first : Bool
  pub is_open : Bool

unfoldable pub is_folder : Node → Bool
is_folder n = not (is_some n.at)

-- Hundredths of a per cent; `done * 10_000` is of u64.
unfoldable pub node_progress_bp : Node → ℕ
node_progress_bp n = get_or (checked_div ((n.done * 10000) % 2 ^ 64) n.size) 0

-- Where the separators stand.
abbrev pub separators_from : (ℕ → Bool) → ℕ → Text → List ℕ
separators_from sep i [] = []
separators_from sep i (c ∷ path) =
    let rest = separators_from sep (i + 1) path in if sep c then i ∷ rest else rest

abbrev pub separators : (ℕ → Bool) → Text → List ℕ
separators sep path = separators_from sep 0 path

abbrev pub cmp_text : Text → Text → Ordering
cmp_text a b =
    if text_ltb a b then Ordering.lt else if text_ltb b a then Ordering.gt else Ordering.eq

-- Two names at the same depth, with whether each is that of a folder: folders first, then by the folded
-- name, then by the name.
abbrev pub before_name : (Text → Text) → Text → Bool → Text → Bool → Ordering
before_name lower one one_folder two two_folder =
    if one_folder && not two_folder
    then Ordering.lt
    else if two_folder && not one_folder
    then Ordering.gt
    else elim (cmp_text (lower one) (lower two)) as (λ _. Ordering) [
      | Ordering.eq ↦ cmp_text one two
      | Ordering.lt ↦ Ordering.lt
      | Ordering.gt ↦ Ordering.gt
    ]

-- The loop over the parts of two paths.
unfoldable pub before_parts : (Text → Text) → List Text → List Text → Ordering
before_parts lower [] [] = Ordering.eq
before_parts lower [] (two ∷ right) = Ordering.lt
before_parts lower (one ∷ left) [] = Ordering.gt
before_parts lower (one ∷ left) (two ∷ right) =
    let deeper = before_parts lower left right in
    if text_eq one two
    then deeper
    else before_name lower one (not (is_nil left)) two (not (is_nil right))

unfoldable pub before_path : (ℕ → Bool) → (Text → Text) → Text → Text → Ordering
unfolding before_parts
before_path sep lower a b = before_parts lower (split sep a) (split sep b)

pub record Sum : Type 0 where
  pub files : ℕ
  pub size : ℕ
  pub done : ℕ
  pub wanted : Option Wanted
  pub first : Bool

abbrev pub no_sum : Sum
no_sum = record { files = 0; size = 0; done = 0; wanted = none; first = false }

abbrev pub wanted_after : Option Wanted → Bool → Wanted
unfolding and_wanted
wanted_after none wanted = if wanted then everything else nothing
wanted_after (some so_far) wanted = and_wanted so_far wanted

-- One file more in a folder; sizes are of u64.
unfoldable pub add_file : FileRow → Sum → Sum
unfolding and_wanted
add_file f s = record {
  files = s.files + 1;
  size = (s.size + f.size) % 2 ^ 64;
  done = (s.done + f.done) % 2 ^ 64;
  wanted = some (wanted_after s.wanted f.wanted);
  first = s.first || f.first;
}

-- The folders of one file, and the sums with that file in each of them.
abbrev pub count_file : FileRow → List ℕ → List (Text × Sum) → List (Text × Sum)
unfolding add_file
count_file f [] sums = sums
count_file f (at ∷ ends) sums =
    let folder = take at f.path in
    count_file f ends (insert folder (add_file f (get_or (lookup folder sums) no_sum)) sums)

unfoldable pub sums_of : (ℕ → Bool) → List FileRow → List (Text × Sum) → List (Text × Sum)
unfolding add_file
sums_of sep [] sums = sums
sums_of sep (f ∷ files) sums = sums_of sep files (count_file f (separators sep f.path) sums)

-- `files[at]`, for a place in range.
abbrev pub no_file : FileRow
no_file = record { path = []; size = 0; done = 0; wanted = false; first = false }

abbrev pub file_at : List FileRow → ℕ → FileRow
file_at files at = get_or (get_elem? files at) no_file

abbrev pub is_gt : Ordering → Bool
is_gt Ordering.gt = true
is_gt Ordering.lt = false
is_gt Ordering.eq = false

-- The places of the files, in the order of their paths; the sort is stable.
unfoldable pub order_of : (ℕ → Bool) → (Text → Text) → List FileRow → List ℕ
unfolding before_path sort
order_of sep lower files =
    sort (λ a b. not (is_gt (before_path sep lower (file_at files a).path (file_at files b).path)))
      (range_from 0 (length files))

-- The rows so far, the folders that are open above the next file, and the depth of one that is shut.
pub record Walk : Type 0 where
  pub out : List Node
  pub stack : List Text
  pub hidden : Option ℕ

-- How many folders of the stack are also those of the path.
abbrev pub same_folders : Text → List Text → List ℕ → ℕ
same_folders path (folder ∷ stack) (end ∷ ends) =
    let deeper = same_folders path stack ends in
    if text_eq folder (take end path) then suc deeper else 0
same_folders path _ _ = 0

abbrev pub reveal : Option ℕ → ℕ → Option ℕ
reveal none same = none
reveal (some depth) same = if leb same depth then none else some depth

abbrev pub start_of : List ℕ → ℕ → ℕ
start_of ends zero = 0
start_of ends (suc depth) = elim (get_elem? ends depth) as (λ _. ℕ) [
  | none ↦ 0
  | some end ↦ end + 1
]

-- One folder that was not open yet.
unfoldable pub open_folder : (Text → Bool) → List (Text × Sum) → Text → List ℕ → ℕ → ℕ → Walk → Walk
open_folder shut sums path ends depth end w =
    let folder = take end path in
    let sum = get_or (lookup folder sums) no_sum in
    let deeper = record w { stack = w.stack ++ (folder ∷ []) } in
    elim (w.hidden) as (λ _. Walk) [
      | some above ↦ deeper
      | none ↦ record deeper {
        out =
            w.out
            ++ (record {
              depth = depth;
              name = drop (start_of ends depth) folder;
              path = folder;
              at = none;
              files = sum.files;
              size = sum.size;
              done = sum.done;
              wanted = get_or sum.wanted nothing;
              first = sum.first;
              is_open = not (shut folder);
            }
                ∷ []);
        hidden = if shut folder then some depth else none;
      }
    ]

-- The folders from a depth on.
pub open_folders : (Text → Bool) → List (Text × Sum) → Text → List ℕ → ℕ → List ℕ → Walk → Walk
unfolding open_folder
open_folders shut sums path ends depth [] w = w
open_folders shut sums path ends depth (end ∷ later) w =
    open_folders shut sums path ends (depth + 1) later (open_folder shut sums path ends depth end w)

abbrev pub leaf : FileRow → List ℕ → ℕ → Node
leaf f ends at = record {
  depth = length ends;
  name = drop (start_of ends (length ends)) f.path;
  path = f.path;
  at = some at;
  files = 0;
  size = f.size;
  done = f.done;
  wanted = if f.wanted then everything else nothing;
  first = f.first;
  is_open = false;
}

-- One file: its folders, and its own row unless a folder above it is shut.
unfoldable pub place_file :
    (ℕ → Bool) → (Text → Bool) → List (Text × Sum) → FileRow → ℕ → Walk → Walk
unfolding open_folders
place_file sep shut sums f at w =
    let ends = separators sep f.path in
    let same = same_folders f.path w.stack ends in
    let ready = record w { stack = take same w.stack; hidden = reveal w.hidden same } in
    let placed = open_folders shut sums f.path ends same (drop same ends) ready in
    elim (placed.hidden) as (λ _. Walk) [
      | some above ↦ placed
      | none ↦ record placed { out = placed.out ++ (leaf f ends at ∷ []) }
    ]

pub place_all : (ℕ → Bool) → (Text → Bool) → List (Text × Sum) → List FileRow → List ℕ → Walk → Walk
unfolding place_file
place_all sep shut sums files [] w = w
place_all sep shut sums files (at ∷ order) w =
    place_all sep shut sums files order (place_file sep shut sums (file_at files at) at w)

unfoldable pub flatten : (ℕ → Bool) → (Text → Text) → (Text → Bool) → List FileRow → List Node
unfolding sums_of order_of place_all
flatten sep lower shut files =
    (place_all sep shut (sums_of sep files []) files (order_of sep lower files)
      (record { out = []; stack = []; hidden = none })).out
