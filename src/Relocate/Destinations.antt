-- ===== src/Relocate/Destinations.antt =====
-- Where the planned steps lead.
use zerem.Prelude.{
  is_nil, ℕ, length, length-append, ◌∙◌, subst, Bool, true, false, some, List, [], ◌∷◌, ◌++◌, ◌≡◌,
  ◌≢◌, refl, sym, ap, arith, All, Option-cases, inl, inr,
}
use zerem.Prelude.Text.{ascii_upper, Text}
use zerem.Prelude.Paths.{
  Component, disk, verbatim_disk, verbatim_unc, normal, FilePath, path_eq, path_starts_with,
  file_name, is_absolute, without_dot, path_eq_self,
}
use zerem.Relocate.{Step, normalise_part, normalise, landing, steps, plan}

ascii_upper_idem : (c : ℕ) → ascii_upper (ascii_upper c) ≡ ascii_upper c
ascii_upper_idem c = ground arith

normalise_part_idem : (c : Component) → normalise_part (normalise_part c) ≡ normalise_part c
unfolding normalise_part
normalise_part_idem (disk letter) = ap disk (ascii_upper_idem letter)
normalise_part_idem (verbatim_disk letter) = ap disk (ascii_upper_idem letter)
normalise_part_idem (verbatim_unc server share) = refl
normalise_part_idem c = refl

-- Normalising a second time changes nothing.
pub normalise_idem : (path : FilePath) → normalise (normalise path) ≡ normalise path
unfolding normalise
normalise_idem [] = refl
normalise_idem (c ∷ path) = cc (normalise_part_idem c, normalise_idem path)

-- The guards of `plan` passed: where every file of the plan is, and where it goes. It is the folder
-- that `landing` names for the same arguments.
pub plan-landing :
    (output : FilePath) (relative : List FilePath) (destination : FilePath) (owns_folder : Bool)
    {planned : List Step}
    → plan output relative destination owns_folder ≡ some planned
    → planned ≡ steps (normalise output) (landing output destination owns_folder) relative
unfolding plan
plan-landing output relative destination owns_folder h =
    let out = normalise_idem output in
    let to = normalise_idem destination in ground (arith, out, to)

file_name-append : (p : FilePath) (n : Text) → file_name (p ++ normal n ∷ []) ≡ some n
file_name-append [] n = refl
file_name-append (c ∷ []) n = refl
file_name-append (c ∷ d ∷ p) n = file_name-append (d ∷ p) n

longer : (p : FilePath) (n : Text) → path_starts_with (p ++ normal n ∷ []) p ≡ false
longer [] n = refl
longer (c ∷ p) n = ground (arith, longer p n)

different : (p : FilePath) (n : Text) → path_eq (p ++ normal n ∷ []) p ≡ false
different [] n = refl
different (c ∷ p) n = ground (arith, different p n)

steps_same :
    (root : FilePath) (relative : List FilePath)
    → All (λ s. s.from ≡ s.to) (steps root root relative)
steps_same root [] = tt
steps_same root (path ∷ relative) = (refl, steps_same root relative)

normalise_append :
    (p : FilePath) (n : Text) → normalise (p ++ normal n ∷ []) ≡ normalise p ++ normal n ∷ []
unfolding normalise
normalise_append [] n = refl
normalise_append (c ∷ p) n = ap (λ q. normalise_part c ∷ q) (normalise_append p n)

landing_inside :
    (to_root : FilePath) (n : Text)
    → to_root ≡ normalise to_root
    → landing (to_root ++ normal n ∷ []) to_root true ≡ to_root ++ normal n ∷ []
unfolding landing
landing_inside to_root n e =
    let kept : normalise (to_root ++ normal n ∷ []) ≡ to_root ++ normal n ∷ [] =
      normalise_append to_root n ∙ ap (λ p. p ++ normal n ∷ []) (sym e) in
    rw (ap file_name kept, file_name-append to_root n, landing)
      (ap (λ p. p ++ normal n ∷ []) (sym e))

-- Where a torrent's own folder already stands in the destination, a move is planned all the same, and
-- every step of it leads from a path to that very path. The module's comment promises `None` for
-- moving to where the files already are.
pub plan_onto_itself :
    (output destination : FilePath) (n : Text) (relative : List FilePath)
    → normalise output ≡ normalise destination ++ normal n ∷ []
    → is_nil relative ≡ false
    → (planned : List Step) × (plan output relative destination true ≡ some planned)
      × All (λ s. s.from ≡ s.to) planned
unfolding plan
plan_onto_itself output destination n relative inside some_file =
    let to_root = normalise destination in
    let from_root = to_root ++ normal n ∷ [] in
    (
      steps from_root from_root relative,
      rw (some_file, inside, different to_root n, longer to_root n)
          (ap (λ c. some (steps from_root c relative))
            (landing_inside to_root n (sym (normalise_idem destination)))),
      steps_same from_root relative,
    )

append_right_injective : (p q r : FilePath) → p ++ r ≡ q ++ r → p ≡ q
append_right_injective [] [] r h = refl
append_right_injective [] (c ∷ q) r h =
    let l = ap length h in let k = length-append q r in absurd (ground arith)
append_right_injective (c ∷ p) [] r h =
    let l = ap length h in let k = length-append p r in absurd (ground arith)
append_right_injective (c ∷ p) (d ∷ q) r h =
    let rest : p ++ r ≡ q ++ r = cc in let same = append_right_injective p q r rest in cc

steps_apart :
    (a b : FilePath) (relative : List FilePath)
    → a ≢ b
    → All (λ path. is_absolute path ≡ false) relative
    → All (λ s. s.from ≢ s.to) (steps a b relative)
steps_apart a b [] apart rel = tt
steps_apart a b (path ∷ relative) apart (r, rel) = (
  λ same. apart (append_right_injective a b (without_dot path) (rw r at same)),
  steps_apart a b relative apart rel,
)

landing_loose :
    (output destination : FilePath) → landing output destination false ≡ normalise destination
unfolding landing
landing_loose output destination = elim (Option-cases (file_name (normalise output))) [
  | inl e ↦ rw (e, landing) refl
  | inr (n, e) ↦ rw (e, landing) refl
]

plan_roots_differ :
    (output : FilePath) (relative : List FilePath) (destination : FilePath) (planned : List Step)
    → plan output relative destination false ≡ some planned
    → normalise output ≢ normalise destination
unfolding plan
plan_roots_differ output relative destination planned h same =
    let equal : path_eq (normalise output) (normalise destination) ≡ true =
      subst (λ p. path_eq (normalise output) p ≡ true) same (path_eq_self (normalise output)) in
    ground arith

-- A move that is planned for a torrent without a folder of its own leads no file onto itself, if the
-- files are named by relative paths.
plan_moves :
    (output : FilePath) (relative : List FilePath) (destination : FilePath) (planned : List Step)
    → plan output relative destination false ≡ some planned
    → All (λ path. is_absolute path ≡ false) relative
    → All (λ s. s.from ≢ s.to) planned
plan_moves output relative destination planned h rel =
    let same =
      plan-landing output relative destination false h
      ∙ ap (λ to. steps (normalise output) to relative) (landing_loose output destination) in
    subst (λ made. All (λ s. s.from ≢ s.to) made) (sym same)
      (steps_apart (normalise output) (normalise destination) relative
        (plan_roots_differ output relative destination planned h) rel)
