-- ===== src/Labels.antt =====
-- crates/zerem-core/src/fmt.rs, the part that computes in integers, and filename.rs. Sizes are printed
-- through floating point, so their print is an argument.
use zerem.Prelude.{
  ℕ, ◌*◌, ◌/◌, ◌%◌, ◌^◌, min, Bool, Option, none, some, List, [], ◌∷◌, ◌++◌, ltb, leb, ◌==◌,
  if◌then◌else◌,
}
use zerem.Prelude.Text.{Text, codes, decimal, split, join}
use zerem.Prelude.Words.{checked_sub}

-- `eta`, for an estimate that there is.
abbrev pub eta_of : ℕ → Text
eta_of s =
    if s == 0
    then codes "—"
    else if ltb s 60
    then decimal s ++ codes "s"
    else if ltb s 3600
    then decimal (s / 60) ++ (codes "m " ++ (decimal (s % 60) ++ codes "s"))
    else if ltb s 86400
    then decimal (s / 3600) ++ (codes "h " ++ (decimal ((s % 3600) / 60) ++ codes "m"))
    else decimal (s / 86400) ++ (codes "d " ++ (decimal ((s % 86400) / 3600) ++ codes "h"))

unfoldable pub eta : Option ℕ → Text
eta none = codes "∞"
eta (some s) = eta_of s

-- `{:02}` of a number below a hundred.
abbrev pub two_digits : ℕ → Text
two_digits n = if ltb n 10 then 48 ∷ decimal n else decimal n

unfoldable pub ratio : ℕ → Text
ratio x100 = decimal (x100 / 100) ++ (codes "." ++ two_digits (x100 % 100))

unfoldable pub peers : ℕ → ℕ → Text
peers connected total = decimal connected ++ (codes " (" ++ (decimal total ++ codes ")"))

-- `done * 100` is of u64.
unfoldable pub percent : ℕ → ℕ → Text
percent done size =
    if size == 0
    then codes "0%"
    else decimal (min (((done * 100) % 2 ^ 64) / size) 100) ++ codes "%"

module _ (bytes : ℕ → Text) where
  unfoldable pub speed : ℕ → Text
  speed bps = if bps == 0 then codes "—" else bytes bps ++ codes "/s"

  unfoldable pub progress : ℕ → ℕ → Text
  unfolding percent
  progress done size =
      if leb size done
      then bytes size
      else bytes done ++ (codes " / " ++ (bytes size ++ (codes " · " ++ percent done size)))

  -- What is missing, for the text that says so.
  unfoldable pub shortfall : (Text → Text) → ℕ → ℕ → Option Text
  shortfall says needed free = elim (checked_sub needed free) as (λ _. Option Text) [
    | none ↦ none
    | some short ↦ if ltb 0 short then some (says (bytes short)) else none
  ]

-- The parts of a path but the last, and the last.
abbrev pub unsnoc : Text → List Text → List Text × Text
unsnoc part [] = ([], part)
unsnoc part (next ∷ parts) = let (folders, name) = unsnoc next parts in (part ∷ folders, name)

-- `filename::split`: the folders with a chevron behind each, and the name.
abbrev pub split_parts : List Text → Text × Text
split_parts [] = ([], [])
split_parts (part ∷ []) = ([], part)
split_parts (part ∷ next ∷ parts) =
    let (folders, name) = unsnoc part (next ∷ parts) in
    (join (codes " › ") folders ++ codes " › ", name)

unfoldable pub split_path : (ℕ → Bool) → Text → Text × Text
split_path sep path = split_parts (split sep path)
