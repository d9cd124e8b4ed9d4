-- ===== src/Choice/Ticking.antt =====
-- What `flags` and `ticked` do to each file.
use zerem.Prelude.{
  ℕ, zero, suc, ◌<◌, Bool, true, false, Option, none, some, List, [], ◌∷◌, keep, length, length-set,
  length-replicate, get_elem?, get_elem?-total, get_elem?-none, get_elem?-replicate, set, replicate,
  any, all, ltb, ◌==◌, if◌then◌else◌, ◌≡◌, refl, arith, Option-cases, inl, inr, is_some, get_or,
}
use zerem.Choice.{raise, flags, tick_each, ticked}

-- Whether an index is on a list.
abbrev pub listed : ℕ → List ℕ → Bool
listed i = any (λ j. j == i)

get_elem?-set_lem :
    (xs : List Bool) (i j : ℕ) (v : Bool)
    → j < length xs
    → get_elem? (set xs i v) j ≡ (if i == j then some v else get_elem? xs j)
get_elem?-set_lem [] i j v h = elim h [ ]
get_elem?-set_lem (x ∷ xs) zero zero v h = refl
get_elem?-set_lem (x ∷ xs) zero (suc j) v h = ground arith
get_elem?-set_lem (x ∷ xs) (suc i) zero v h = ground arith
get_elem?-set_lem (x ∷ xs) (suc i) (suc j) v h = ground (arith, get_elem?-set_lem xs i j v)

listed-keep_below :
    (count j : ℕ) (list : List ℕ)
    → j < count
    → listed j (keep (λ i. ltb i count) list) ≡ listed j list
listed-keep_below count j [] h = refl
listed-keep_below count j (i ∷ list) h = ground (arith, listed-keep_below count j list)

raise-get :
    (marks : List Bool) (list : List ℕ) (j : ℕ)
    → j < length marks
    → get_elem? (raise marks list) j ≡ (if listed j list then some true else get_elem? marks j)
unfolding raise
raise-get marks [] j h = refl
raise-get marks (i ∷ list) j h = ground (
  arith,
  raise-get (set marks i true) list j,
  length-set marks i true,
  get_elem?-set_lem marks i j true,
)

-- Whether a selection names a file; `none` names every file.
abbrev pub names : Option (List ℕ) → ℕ → Bool
names none j = true
names (some list) j = listed j list

-- `flags` sets the flag of a file exactly when the selection names it; an index past the end
-- sets nothing.
pub get_elem?-flags :
    (only : Option (List ℕ)) (count j : ℕ)
    → j < count
    → get_elem? (flags only count) j ≡ some (names only j)
unfolding flags
get_elem?-flags none count j h = get_elem?-replicate count j true h
get_elem?-flags (some list) count j h = ground (
  arith,
  raise-get (replicate count false) (keep (λ i. ltb i count) list) j,
  length-replicate count false,
  get_elem?-replicate count j false,
  listed-keep_below count j list,
)

length-raise : (marks : List Bool) (list : List ℕ) → length (raise marks list) ≡ length marks
unfolding raise
length-raise marks [] = refl
length-raise marks (i ∷ list) =
    omega (arith, length-raise (set marks i true) list, length-set marks i true)

pub length-flags : (only : Option (List ℕ)) (count : ℕ) → length (flags only count) ≡ count
unfolding flags
length-flags none count = length-replicate count true
length-flags (some list) count = omega (
  arith,
  length-raise (replicate count false) (keep (λ i. ltb i count) list),
  length-replicate count false,
)

-- What `ticked` must give: as many flags as before, each of a chosen file set as asked and each
-- other kept.
abbrev pub Ticks : List Bool → Option (List ℕ) → Bool → List Bool → Type 0
Ticks current files wanted next =
    (length next ≡ length current)
    × ((j : ℕ)
        → j < length current
        → get_elem? next j ≡ (if names files j then some wanted else get_elem? current j))

tick_each_lem :
    (next after : List Bool) (chosen : List ℕ) (wanted : Bool)
    → tick_each next chosen wanted ≡ some after
    → Ticks next (some chosen) wanted after
unfolding tick_each
tick_each_lem next after [] wanted h = (ground arith, λ j lt. ground arith)
tick_each_lem next after (i ∷ chosen) wanted h = elim (Option-cases (get_elem? next i)) [
  | inl e ↦ absurd (ground arith)
  | inr (x, e) ↦
      let (len, each) = tick_each_lem (set next i wanted) after chosen wanted (ground arith) in
      (
        omega (arith, length-set next i wanted),
        λ j lt. ground (arith, each j, length-set next i wanted, get_elem?-set_lem next i j wanted),
      )
]

tick_each_some :
    (next : List Bool) (chosen : List ℕ) (wanted : Bool)
    → is_some (tick_each next chosen wanted) ≡ all (λ i. ltb i (length next)) chosen
unfolding tick_each
tick_each_some next [] wanted = refl
tick_each_some next (i ∷ chosen) wanted = elim (Option-cases (get_elem? next i)) [
  | inl e ↦ ground (arith, get_elem?-total next i)
  | inr (x, e) ↦ ground (
    arith,
    tick_each_some (set next i wanted) chosen wanted,
    length-set next i wanted,
    get_elem?-none next i,
  )
]

-- `ticked` fails exactly when it is handed an index past the end.
pub ticked_fails :
    (current : List Bool) (files : Option (List ℕ)) (wanted : Bool)
    → is_some (ticked current files wanted) ≡ all (λ i. ltb i (length current)) (get_or files [])
unfolding ticked
ticked_fails current none wanted = refl
ticked_fails current (some chosen) wanted = tick_each_some current chosen wanted

-- Where `ticked` succeeds, the flags of the chosen files are as asked and the others are kept.
pub ticked-Ticks :
    (current : List Bool) (files : Option (List ℕ)) (wanted : Bool) {next : List Bool}
    → ticked current files wanted ≡ some next
    → Ticks current files wanted next
unfolding ticked
ticked-Ticks current (some chosen) wanted {next} h = tick_each_lem current next chosen wanted h
ticked-Ticks current none wanted h = (
  ground (arith, length-replicate (length current) wanted),
  λ j lt. ground (arith, get_elem?-replicate (length current) j wanted),
)
