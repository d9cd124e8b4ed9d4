-- ===== src/Geo/Looking.antt =====
-- The lookup of a key in a family of ranges.
use zerem.Prelude.{
  ℕ, suc, ◌+◌, ◌≤◌, ◌<◌, Option, none, some, List, ◌∷◌, ◌++◌, length, drop, ltb, ◌>>=◌, ◌≡◌, refl,
  ap, ◌∙◌, arith, Bool-cases, inl, inr,
}
use zerem.Prelude.Words.{checked_sub}
use zerem.Geo.{Family, rows_of, row_key, row_offset, seek, walk, first_country, known, lookup_key}
use zerem.Geo.Searching.{Rising, Parts, seek-Parts}
use zerem.Geo.Walking.{Varint, Encodes, Fits, last_at, walk-last_at, first-encoded}

found : (f : Family) → ℕ → ℕ
found f key = seek (row_key f) key (rows_of f) 0 (rows_of f)

found-Parts :
    (f : Family) (key : ℕ)
    → Rising (row_key f) (rows_of f)
    → Parts (row_key f) key 0 (rows_of f) (found f key)
unfolding found
found-Parts f key rising =
    seek-Parts (row_key f) key (rows_of f) rising (rows_of f) 0 (rows_of f) (omega arith)
      (omega arith) (omega arith)

-- What a row of the index stands for: at its offset the stream holds a range that starts at its key, and
-- the ranges behind it, none of which starts past 64 bits.
pub record IsRow (f : Family) (row d c : ℕ) (ranges : List (ℕ × ℕ)) : Type 0 where
  pub bs : List ℕ
  pub tail : List ℕ
  pub number : Varint d bs
  pub behind : Encodes ranges tail
  pub there : drop (row_offset f row) f.stream ≡ bs ++ (c ∷ tail)
  pub small : Fits (row_key f row) ranges

lookup-steps :
    (f : Family) (key row c found_country : ℕ) (tail : List ℕ)
    → found f key ≡ suc row
    → first_country (drop (row_offset f row) f.stream) ≡ some (c, tail)
    → walk (length tail) key (row_key f row) c tail ≡ some found_country
    → lookup_key f key ≡ known found_country
unfolding lookup_key found
lookup-steps f key row c found_country tail at first walked =
    let before : checked_sub (found f key) 1 ≡ some row = unfold found in rw at (ground arith) in
    let step = λ (r : Option ℕ). r >>= (λ row'.
      first_country (drop (row_offset f row') f.stream)
      >>= (λ p. walk (length p.1) key (row_key f row') p.0 p.1 >>= known)) in
    let one : lookup_key f key ≡ step (some row) = unfold lookup_key found in ap step before in
    one ∙ rw first (rw walked refl)

-- The country of a key is that of the last range of the whole table that starts no later: the row is the
-- last whose key is not above it, and from its offset the ranges are gone through. It is asked that the
-- keys of the rows do not fall, that the row stands for ranges, that its key is not above the key, and
-- that the next row's is.
pub lookup-last_at :
    (f : Family) (key row d c : ℕ) (ranges : List (ℕ × ℕ))
    → Rising (row_key f) (rows_of f)
    → row < rows_of f
    → row_key f row ≤ key
    → (row + 1 < rows_of f → key < row_key f (row + 1))
    → IsRow f row d c ranges
    → lookup_key f key ≡ known (last_at key (row_key f row) c ranges)
lookup-last_at f key row d c ranges rising inside low next r =
    let (p, q, front, back) = found-Parts f key rising in
    let past : row < found f key = elim (Bool-cases (ltb row (found f key))) [
      | inl h ↦ ground arith
      | inr h ↦ let above = back row (ground arith) inside in absurd (omega arith)
    ] in
    let here : found f key ≤ row + 1 = elim (Bool-cases (ltb (row + 1) (found f key))) [
      | inr h ↦ ground arith
      | inl h ↦
          let under = front (row + 1) (omega arith) (ground arith) in
          let over = next (ground arith) in absurd (omega arith)
    ] in
    let at : found f key ≡ suc row = omega arith in
    lookup-steps f key row c (last_at key (row_key f row) c ranges) r.tail at
      (ap first_country r.there ∙ first-encoded d c r.bs r.tail r.number)
      (walk-last_at (length r.tail) key (row_key f row) c ranges r.tail r.behind r.small
        (omega arith))

-- A key below every row has no country.
pub lookup_below :
    (f : Family) (key : ℕ)
    → Rising (row_key f) (rows_of f)
    → (0 < rows_of f → key < row_key f 0)
    → lookup_key f key ≡ none
unfolding lookup_key found
lookup_below f key rising below =
    let (p, q, front, back) = found-Parts f key rising in
    let none_found : seek (row_key f) key (rows_of f) 0 (rows_of f) ≡ 0 =
      elim (Bool-cases (ltb 0 (found f key))) [
        | inr h ↦ unfold found in ground arith
        | inl h ↦
            let under = front 0 (omega arith) (ground arith) in
            let over = below (ground arith) in absurd (omega arith)
      ] in
    rw (none_found, lookup_key) refl
