-- ===== src/Examples/ChoiceExamples.antt =====
-- Tests of crates/zerem-core/src/choice.rs.
use zerem.Prelude.{
  Bool, true, false, none, some, List, [], ◌∷◌, length, get_elem?, if◌then◌else◌, ◌≡◌, refl, arith,
}
use zerem.Choice.{flags, ticked, to_fetch, is_narrowed, is_pinned, flag_at}
use zerem.Choice.Ticking.{names, get_elem?-flags}
use zerem.Choice.Fetching.{flags-to_fetch}

abbrev wanted_three : List Bool
wanted_three = true ∷ false ∷ true ∷ []

abbrev first_last : List Bool
first_last = false ∷ false ∷ true ∷ []

abbrev complete_none : List Bool
complete_none = false ∷ false ∷ false ∷ []

flags_past_the_end : flags (some (0 ∷ 7 ∷ [])) 3 ≡ true ∷ false ∷ false ∷ []
unfolding flags
flags_past_the_end = refl

ticked_past_the_end : ticked wanted_three (some (1 ∷ 3 ∷ [])) true ≡ none
unfolding ticked
ticked_past_the_end = refl

to_fetch_pinned : to_fetch wanted_three first_last complete_none ≡ some (2 ∷ [])
unfolding to_fetch
to_fetch_pinned = refl

to_fetch_chosen : to_fetch wanted_three first_last first_last ≡ some (0 ∷ 2 ∷ [])
unfolding to_fetch
to_fetch_chosen = refl

to_fetch_all : to_fetch (true ∷ true ∷ []) [] [] ≡ none
unfolding to_fetch
to_fetch_all = refl

ticked_one : ticked wanted_three (some (1 ∷ [])) true ≡ some (true ∷ true ∷ true ∷ [])
unfolding ticked
ticked_one = refl

get_elem?-flags_example :
    get_elem? (flags (some (0 ∷ 7 ∷ [])) 3) 2 ≡ some (names (some (0 ∷ 7 ∷ [])) 2)
get_elem?-flags_example = get_elem?-flags (some (0 ∷ 7 ∷ [])) 3 2 (omega arith)

flags-to_fetch_example :
    get_elem? (flags (to_fetch wanted_three first_last complete_none) (length wanted_three)) 0
    ≡ some (
        if is_narrowed wanted_three first_last complete_none
        then is_pinned wanted_three first_last complete_none 0
        else flag_at wanted_three 0)
flags-to_fetch_example = flags-to_fetch wanted_three first_last complete_none 0 (omega arith)
