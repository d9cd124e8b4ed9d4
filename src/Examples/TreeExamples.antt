-- ===== src/Examples/TreeExamples.antt =====
-- Tests of crates/zerem-core/src/tree.rs.
use zerem.Prelude.{ℕ, Bool, true, false, ◌==◌, [], ◌∷◌, List, length, map, range_from, ◌≡◌, refl}
use zerem.Prelude.Text.{Text, codes, text_eq, to_ascii_lowercase}
use mathlib.Core.List.{Perm}
use zerem.Detail.{FileRow}
use zerem.Tree.{Wanted, part, everything, Node, before_path, before_parts, flatten}
use Prim.Native.Nat.{lt}
use zerem.Prelude.Sorting.{IsOrdered}
use zerem.Tree.Preceding.{Precedes}
use zerem.Tree.Flattening.{places, parts_at, flatten-places}

abbrev file : Text → Bool → FileRow
file path wanted = record { path = path; size = 100; done = 0; wanted = wanted; first = false }

abbrev slash : ℕ → Bool
slash c = c == 47

abbrev record_of_two : List FileRow
record_of_two =
    file (codes "cover") true
    ∷ file (codes "Two/b") false
    ∷ file (codes "one/c") true
    ∷ file (codes "Two/A") true
    ∷ []

abbrev drawn : List Node → List (ℕ × Text × ℕ × Wanted)
drawn nodes = map (λ n. (n.depth, n.name, n.size, n.wanted)) nodes

whole_tree :
    drawn (flatten slash to_ascii_lowercase (λ folder. false) record_of_two)
    ≡ (0, codes "one", 100, everything)
      ∷ (1, codes "c", 100, everything)
      ∷ (0, codes "Two", 200, part)
      ∷ (1, codes "A", 100, everything)
      ∷ (1, codes "b", 100, Wanted.nothing)
      ∷ (0, codes "cover", 100, everything)
      ∷ []
unfolding flatten
whole_tree = refl

shut_folder :
    map
      (λ n. n.name)
      (flatten slash to_ascii_lowercase (λ folder. text_eq folder (codes "Two")) record_of_two)
    ≡ codes "one" ∷ codes "c" ∷ codes "Two" ∷ codes "cover" ∷ []
unfolding flatten
shut_folder = refl

flatten-places_example :
    Perm
      (places (flatten slash to_ascii_lowercase (λ folder. false) record_of_two))
      (range_from 0 (length record_of_two))
    × IsOrdered
        (λ i j.
          Precedes to_ascii_lowercase
            (parts_at slash record_of_two i)
            (parts_at slash record_of_two j))
        (places (flatten slash to_ascii_lowercase (λ folder. false) record_of_two))
flatten-places_example = flatten-places slash to_ascii_lowercase record_of_two (
  (refl, (refl, (refl, (refl, tt)))),
  (
    (refl, (refl, (refl, (refl, tt)))),
    ((refl, (refl, (refl, (refl, tt)))), ((refl, (refl, (refl, (refl, tt)))), tt)),
  ),
)

-- Where the path of one file is that of a folder which another is in, the comparison goes in a circle.
circle :
    (before_path slash to_ascii_lowercase (codes "a") (codes "a/y") ≡ lt)
    × (before_path slash to_ascii_lowercase (codes "a/y") (codes "b/x") ≡ lt)
    × (before_path slash to_ascii_lowercase (codes "b/x") (codes "a") ≡ lt)
unfolding before_path before_parts
circle = (refl, refl, refl)
