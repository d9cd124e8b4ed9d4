-- ===== src/Examples/GeoExamples.antt =====
-- Tests of crates/zerem-core/src/geo.rs.
use zerem.Prelude.{ℕ, zero, suc, ◌+◌, ◌≤◌, ◌<◌, none, some, [], ◌∷◌, List, ◌≡◌, refl, arith}
use zerem.Prelude.Text.{codes}
use zerem.Geo.{
  Family, rows_of, row_key, row_offset, lookup_key, known, decode, decode_from, parse_table,
  country, ipv4, ipv6,
}
use zerem.Geo.Searching.{Rising}
use zerem.Geo.Walking.{last, more, last_at}
use zerem.Geo.Looking.{IsRow, lookup-last_at}

-- Two rows, at the keys 10 and 400; in the stream the ranges from 10, 30, 400 and 405.
abbrev family : Family
family = record {
  shift = 8;
  index = 10 ∷ 0 ∷ 0 ∷ 0 ∷ 0 ∷ 0 ∷ 0 ∷ 0 ∷ 144 ∷ 1 ∷ 0 ∷ 0 ∷ 4 ∷ 0 ∷ 0 ∷ 0 ∷ [];
  stream = 10 ∷ 1 ∷ 20 ∷ 0 ∷ 242 ∷ 2 ∷ 2 ∷ 5 ∷ 1 ∷ [];
}

long_number : decode (242 ∷ 2 ∷ 2 ∷ []) ≡ 370
unfolding decode_from
long_number = refl

starts : row_key family 0 ∷ row_key family 1 ∷ rows_of family ∷ [] ≡ 10 ∷ 400 ∷ 2 ∷ []
unfolding row_key rows_of
starts = refl

below_all : lookup_key family 9 ≡ none
unfolding lookup_key decode_from
below_all = refl

in_front : lookup_key family 29 ≡ some 1
unfolding lookup_key decode_from
in_front = refl

in_a_hole : lookup_key family 399 ≡ none
unfolding lookup_key decode_from
in_a_hole = refl

behind_all : lookup_key family 1000 ≡ some 1
unfolding lookup_key decode_from
behind_all = refl

-- A table of two countries with an empty index for IPv6.
abbrev blob : List ℕ
blob =
    90 ∷ 71 ∷ 69 ∷ 79 ∷ 49 ∷ 2 ∷ 0 ∷ 69 ∷ 83 ∷ 70 ∷ 82 ∷ 8 ∷ 0 ∷ 0 ∷ 0 ∷ 0 ∷ 1 ∷ 0 ∷ 0 ∷ 0 ∷ 10 ∷ 0
    ∷ 0 ∷ 0 ∷ 0 ∷ 0 ∷ 0 ∷ 0 ∷ 4 ∷ 0 ∷ 0 ∷ 0 ∷ 10 ∷ 1 ∷ 20 ∷ 2 ∷ 8 ∷ 0 ∷ 0 ∷ 0 ∷ 0 ∷ 0 ∷ 0 ∷ 0 ∷ 0
    ∷ 0 ∷ 0 ∷ 0 ∷ 0 ∷ []

-- 0.0.10.7 is in Spain, and the mapped address of 0.0.31.0 in France.
abbrev countries : List ℕ → List (List ℕ)
unfolding parse_table country decode_from
countries bytes = elim (parse_table bytes) as (λ _. List (List ℕ)) [
  | none ↦ []
  | some table ↦ elim (country table (ipv4 0 0 10 7)) as (λ _. List (List ℕ)) [
    | none ↦ []
    | some one ↦
        elim (country table
            (ipv6 (0 ∷ 0 ∷ 0 ∷ 0 ∷ 0 ∷ 0 ∷ 0 ∷ 0 ∷ 0 ∷ 0 ∷ 255 ∷ 255 ∷ 0 ∷ 0 ∷ 31 ∷ 0 ∷ [])))
          as (λ _. List (List ℕ)) [ none ↦ one ∷ [] | some two ↦ one ∷ two ∷ [] ]
  ]
]

looked_up : countries blob ≡ codes "ES" ∷ codes "FR" ∷ []
unfolding countries
looked_up = refl

no_magic : countries (codes "ZGEO2") ≡ []
unfolding countries
no_magic = refl

family-Rising : Rising (row_key family) (rows_of family)
unfolding row_key rows_of
family-Rising zero zero le lt = omega arith
family-Rising zero (suc zero) le lt = omega arith
family-Rising (suc zero) (suc zero) le lt = omega arith
family-Rising (suc i) zero le lt = absurd (omega arith)
family-Rising (suc (suc i)) (suc zero) le lt = absurd (omega arith)
family-Rising i (suc (suc j)) le lt = absurd (omega arith)

second-IsRow : IsRow family 1 370 2 ((5, 1) ∷ [])
unfolding row_offset row_key
second-IsRow = record {
  bs = 242 ∷ 2 ∷ [];
  tail = 5 ∷ 1 ∷ [];
  number = more 370 242 114 2 (2 ∷ []) (omega arith) refl refl (last 2 (omega arith));
  behind = (5 ∷ [], [], last 5 (omega arith), refl, refl);
  there = refl;
  small = (omega arith, tt);
}

inside : 1 < rows_of family
unfolding rows_of
inside = omega arith

not_above : row_key family 1 ≤ 404
unfolding row_key
not_above = omega arith

no_next : 1 + 1 < rows_of family → 404 < row_key family (1 + 1)
unfolding rows_of
no_next h = absurd (omega arith)

lookup-last_at_example :
    lookup_key family 404 ≡ known (last_at 404 (row_key family 1) 2 ((5, 1) ∷ []))
lookup-last_at_example =
    lookup-last_at family 404 1 370 2 ((5, 1) ∷ []) family-Rising inside not_above no_next
      second-IsRow
