-- ===== src/Prelude/Paths.antt =====
-- Paths as `std::path` gives them out: the list of their components. How a platform cuts a text into
-- components is its own; what the program asks of the components is here.
use Prim.Native.Nat.{ℕ}
use mathlib.Core.Path.{◌≡◌, refl}
use mathlib.Core.Bool.{Bool, true, false, ◌&&◌, ◌||◌}
use mathlib.Core.Option.{Option, none, some}
use mathlib.Core.List.{List, [], ◌∷◌, ◌++◌}
use native.Mathlib.Omega.{arith}
use zerem.Prelude.Tests.{◌==◌, ltb, if◌then◌else◌, ◌>>=◌, &&-true}
use zerem.Prelude.Text.{Text, text_eq, text_eq→eq, text_eq_self, text_ltb, is_empty, rsplit_once}

pub data Component : Type 0 where
  disk verbatim_disk : ℕ → Component
  verbatim_unc unc : Text → Text → Component
  other_prefix : Text → Component
  root_dir cur_dir parent_dir : Component
  normal : Text → Component

abbrev pub FilePath : Type 0
FilePath = List Component

abbrev pub component_eq : Component → Component → Bool
component_eq (disk a) (disk b) = a == b
component_eq (verbatim_disk a) (verbatim_disk b) = a == b
component_eq (verbatim_unc a s) (verbatim_unc b t) = text_eq a b && text_eq s t
component_eq (unc a s) (unc b t) = text_eq a b && text_eq s t
component_eq (other_prefix a) (other_prefix b) = text_eq a b
component_eq root_dir root_dir = true
component_eq cur_dir cur_dir = true
component_eq parent_dir parent_dir = true
component_eq (normal a) (normal b) = text_eq a b
component_eq _ _ = false

abbrev pub path_eq : FilePath → FilePath → Bool
path_eq [] [] = true
path_eq (a ∷ p) (b ∷ q) = component_eq a b && path_eq p q
path_eq _ _ = false

-- `Path::starts_with`: by whole components, the prefix first.
abbrev pub path_starts_with : FilePath → FilePath → Bool
path_starts_with [] p = true
path_starts_with (a ∷ q) [] = false
path_starts_with (a ∷ q) (b ∷ p) = component_eq a b && path_starts_with q p

-- `file_name`: the last component, where it is an ordinary one.
abbrev pub name_of : Component → Option Text
name_of (normal name) = some name
name_of c = none

abbrev pub file_name : FilePath → Option Text
file_name [] = none
file_name (c ∷ []) = name_of c
file_name (c ∷ d ∷ p) = file_name (d ∷ p)

-- All but the last component.
abbrev pub drop_last : FilePath → FilePath
drop_last [] = []
drop_last (c ∷ []) = []
drop_last (c ∷ d ∷ p) = c ∷ drop_last (d ∷ p)

-- The extension of a file's name: behind its last dot, unless nothing stands before that dot.
abbrev pub name_extension : Text → Option Text
name_extension name = do
  (before, after) ← rsplit_once b'.' name
  if is_empty before then none else some after

abbrev pub extension : FilePath → Option Text
extension path = file_name path >>= name_extension

pub component_eq→eq : (a b : Component) → component_eq a b ≡ true → a ≡ b
component_eq→eq (disk a) (disk b) h = ground arith
component_eq→eq (verbatim_disk a) (verbatim_disk b) h = ground arith
component_eq→eq (verbatim_unc a s) (verbatim_unc b t) h =
    let (p, q) = &&-true (text_eq a b) (text_eq s t) h in cc (text_eq→eq a b p, text_eq→eq s t q)
component_eq→eq (unc a s) (unc b t) h =
    let (p, q) = &&-true (text_eq a b) (text_eq s t) h in cc (text_eq→eq a b p, text_eq→eq s t q)
component_eq→eq (other_prefix a) (other_prefix b) h = cc (text_eq→eq a b h)
component_eq→eq root_dir root_dir h = refl
component_eq→eq cur_dir cur_dir h = refl
component_eq→eq parent_dir parent_dir h = refl
component_eq→eq (normal a) (normal b) h = cc (text_eq→eq a b h)
component_eq→eq _ _ h = cc

pub component_eq_self : (a : Component) → component_eq a a ≡ true
component_eq_self (disk a) = ground arith
component_eq_self (verbatim_disk a) = ground arith
component_eq_self (verbatim_unc a s) = rw (text_eq_self a) (text_eq_self s)
component_eq_self (unc a s) = rw (text_eq_self a) (text_eq_self s)
component_eq_self (other_prefix a) = text_eq_self a
component_eq_self root_dir = refl
component_eq_self cur_dir = refl
component_eq_self parent_dir = refl
component_eq_self (normal a) = text_eq_self a

pub path_eq→eq : (p q : FilePath) → path_eq p q ≡ true → p ≡ q
path_eq→eq [] [] h = refl
path_eq→eq (a ∷ p) (b ∷ q) h =
    let (x, y) = &&-true (component_eq a b) (path_eq p q) h in
    cc (component_eq→eq a b x, path_eq→eq p q y)
path_eq→eq _ _ h = cc

pub path_eq_self : (p : FilePath) → path_eq p p ≡ true
path_eq_self [] = refl
path_eq_self (a ∷ p) = rw component_eq_self (path_eq_self p)

pub path_starts_with_append : (p q : FilePath) → path_starts_with p (p ++ q) ≡ true
path_starts_with_append [] q = refl
path_starts_with_append (a ∷ p) q = rw component_eq_self (path_starts_with_append p q)

-- `Path::join`: an absolute path replaces, and a leading `.` goes.
abbrev pub is_absolute : FilePath → Bool
is_absolute [] = false
is_absolute (normal n ∷ p) = false
is_absolute (cur_dir ∷ p) = false
is_absolute (parent_dir ∷ p) = false
is_absolute (c ∷ p) = true

abbrev pub without_dot : FilePath → FilePath
without_dot (cur_dir ∷ q) = q
without_dot q = q

abbrev pub join : FilePath → FilePath → FilePath
join p q = if is_absolute q then q else p ++ without_dot q

-- The order of paths, component by component.
abbrev pub rank : Component → ℕ
rank (verbatim_unc s t) = 1
rank (verbatim_disk a) = 2
rank (other_prefix s) = 3
rank (unc s t) = 4
rank (disk a) = 5
rank root_dir = 6
rank cur_dir = 7
rank parent_dir = 8
rank (normal s) = 9

abbrev pub spelling : Component → Text
spelling (verbatim_unc s t) = s ++ (92 ∷ t)
spelling (verbatim_disk a) = a ∷ []
spelling (other_prefix s) = s
spelling (unc s t) = s ++ (92 ∷ t)
spelling (disk a) = a ∷ []
spelling root_dir = []
spelling cur_dir = []
spelling parent_dir = []
spelling (normal s) = s

abbrev pub component_ltb : Component → Component → Bool
component_ltb a b =
    ltb (rank a) (rank b) || (rank a == rank b && text_ltb (spelling a) (spelling b))

abbrev pub path_leb : FilePath → FilePath → Bool
path_leb [] q = true
path_leb (a ∷ p) [] = false
path_leb (a ∷ p) (b ∷ q) = component_ltb a b || (component_eq a b && path_leb p q)

-- `parent`: all but the last component; the root, a prefix and the empty path have none.
abbrev pub has_parent : FilePath → Bool
has_parent [] = false
has_parent (normal n ∷ []) = true
has_parent (cur_dir ∷ []) = true
has_parent (parent_dir ∷ []) = true
has_parent (c ∷ []) = false
has_parent (c ∷ d ∷ p) = true

abbrev pub parent : FilePath → Option FilePath
parent p = if has_parent p then some (drop_last p) else none

-- `dedup`: of equal neighbours the first stays.
abbrev pub dedup_from : FilePath → List FilePath → List FilePath
dedup_from p [] = p ∷ []
dedup_from p (q ∷ paths) =
    let same = dedup_from p paths in
    let other = p ∷ dedup_from q paths in if path_eq p q then same else other

abbrev pub dedup : List FilePath → List FilePath
dedup [] = []
dedup (p ∷ paths) = dedup_from p paths
