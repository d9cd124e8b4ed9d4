-- ===== src/Tree/Folding.antt =====
-- What a folder's tick says of the files in it.
use zerem.Prelude.{
  Bool, true, false, some, List, [], ◌∷◌, all, any, if◌then◌else◌, map, ◌≡◌, refl, ap, ◌∙◌,
}
use zerem.Detail.{FileRow}
use zerem.Tree.{Wanted, nothing, part, everything, and_wanted, Sum, no_sum, add_file, wanted_after}

-- The tick of a folder: all of it, some of it or none.
abbrev pub verdict : List Bool → Wanted
verdict ticks =
    if all (λ t. t) ticks then everything else if any (λ t. t) ticks then part else nothing

-- A folder's sum, with some files put in one after the other.
pub add_files : List FileRow → Sum → Sum
add_files [] s = s
add_files (f ∷ files) s = add_files files (add_file f s)

tick_from : Wanted → List Bool → Wanted
tick_from so_far [] = so_far
tick_from so_far (t ∷ ticks) = tick_from (and_wanted so_far t) ticks

tick_from-part : (ticks : List Bool) → tick_from part ticks ≡ part
unfolding tick_from and_wanted
tick_from-part [] = refl
tick_from-part (t ∷ ticks) = tick_from-part ticks

tick_from-everything :
    (ticks : List Bool)
    → tick_from everything ticks ≡ (if all (λ t. t) ticks then everything else part)
unfolding tick_from and_wanted
tick_from-everything [] = refl
tick_from-everything (true ∷ ticks) = tick_from-everything ticks
tick_from-everything (false ∷ ticks) = tick_from-part ticks

tick_from-nothing :
    (ticks : List Bool) → tick_from nothing ticks ≡ (if any (λ t. t) ticks then part else nothing)
unfolding tick_from and_wanted
tick_from-nothing [] = refl
tick_from-nothing (true ∷ ticks) = tick_from-part ticks
tick_from-nothing (false ∷ ticks) = tick_from-nothing ticks

add_files-tick :
    (files : List FileRow) (s : Sum) (so_far : Wanted)
    → s.wanted ≡ some so_far
    → (add_files files s).wanted ≡ some (tick_from so_far (map (λ f. f.wanted) files))
unfolding add_files add_file tick_from
add_files-tick [] s so_far h = h
add_files-tick (f ∷ files) s so_far h =
    add_files-tick files (add_file f s) (and_wanted so_far f.wanted)
      (ap (λ w. some (wanted_after w f.wanted)) h)

-- The tick of a folder that holds files says whether all of them are fetched, some, or none.
add_files-verdict :
    (f : FileRow) (files : List FileRow)
    → (add_files (f ∷ files) no_sum).wanted ≡ some (verdict (map (λ g. g.wanted) (f ∷ files)))
unfolding add_files
add_files-verdict f files =
    add_files-tick files (add_file f no_sum) (if f.wanted then everything else nothing)
      (unfold add_file in refl)
    ∙ ap some (split f.wanted (map (λ g. g.wanted) files))
  where
    split :
        (t : Bool) (ticks : List Bool)
        → tick_from (if t then everything else nothing) ticks ≡ verdict (t ∷ ticks)
    split true ticks = tick_from-everything ticks
    split false ticks = tick_from-nothing ticks
