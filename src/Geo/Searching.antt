-- ===== src/Geo/Searching.antt =====
-- The binary search over the rows of the index.
use zerem.Prelude.{
  ℕ, zero, suc, ◌+◌, ◌-◌, ◌/◌, ◌≤◌, ◌<◌, true, false, ltb, leb, ◌≡◌, arith, Bool-cases, inl, inr,
  ltb→lt, leb→le,
}
use zerem.Geo.{seek}

-- The keys of so many rows do not fall.
abbrev pub Rising : (ℕ → ℕ) → ℕ → Type 0
Rising keys n = (i j : ℕ) → i ≤ j → j < n → keys i ≤ keys j

-- A place that parts the rows of a stretch: those in front are not above the key, the others are.
abbrev pub Parts : (ℕ → ℕ) → ℕ → ℕ → ℕ → ℕ → Type 0
Parts keys key lo hi r =
    (lo ≤ r)
    × (r ≤ hi)
    × ((i : ℕ) → lo ≤ i → i < r → keys i ≤ key)
    × ((i : ℕ) → r ≤ i → i < hi → key < keys i)

middle : (lo hi : ℕ) → lo < hi → (lo ≤ lo + (hi - lo) / 2) × (lo + (hi - lo) / 2 < hi)
middle lo hi h = omega arith

module _ (keys : ℕ → ℕ) (key n : ℕ) (rising : Rising keys n) (mid : ℕ) where
  front_low :
      (r i : ℕ)
      → mid < n
      → leb (keys mid) key ≡ true
      → ((j : ℕ) → mid + 1 ≤ j → j < r → keys j ≤ key)
      → i < r
      → keys i ≤ key
  front_low r i inside low front lt = elim (Bool-cases (leb i mid)) [
    | inl near ↦ let step = rising i mid (leb→le i mid near) inside in ground arith
    | inr far ↦ front i (ground arith) lt
  ]

  back_high :
      (r i : ℕ)
      → leb (keys mid) key ≡ false
      → ((j : ℕ) → r ≤ j → j < mid → key < keys j)
      → r ≤ i
      → i < n
      → key < keys i
  back_high r i high back le lt = elim (Bool-cases (ltb i mid)) [
    | inl near ↦ back i le (ltb→lt i mid near)
    | inr far ↦ let step = rising mid i (ground arith) lt in ground arith
  ]

-- With as many rounds as there are rows in the stretch, the search ends at the place that parts them.
pub seek-Parts :
    (keys : ℕ → ℕ) (key n : ℕ)
    → Rising keys n
    → (rounds lo hi : ℕ) → hi - lo ≤ rounds
    → lo ≤ hi
    → hi ≤ n
    → Parts keys key lo hi (seek keys key rounds lo hi)
unfolding seek
seek-Parts keys key n rising zero lo hi enough ordered inside =
    (omega arith, omega arith, λ i a b. absurd (omega arith), λ i a b. absurd (omega arith))
seek-Parts keys key n rising (suc rounds) lo hi enough ordered inside =
    elim (Bool-cases (ltb lo hi)) [
      | inr empty ↦
          rw (empty, seek)
            (
              ground arith,
              ground arith,
              λ i a b. absurd (ground arith),
              λ i a b. absurd (ground arith),
            )
      | inl more ↦
          let mid = lo + (hi - lo) / 2 in
          let (above, below) = middle lo hi (ltb→lt lo hi more) in
          elim (Bool-cases (leb (keys mid) key)) [
            | inl low ↦
                let (p, q, front, back) =
                  seek-Parts keys key n rising rounds (mid + 1) hi (omega arith) (omega arith)
                    inside in
                rw (more, seek)
                  (rw (low, seek)
                    (
                      omega arith,
                      q,
                      λ i a b.
                          front_low keys key n rising mid (seek keys key rounds (mid + 1) hi) i
                            (omega arith) low front b,
                      back,
                    ))
            | inr high ↦
                let (p, q, front, back) =
                  seek-Parts keys key n rising rounds lo mid (omega arith) above (omega arith) in
                rw (more, seek)
                  (rw (high, seek)
                    (
                      p,
                      omega arith,
                      front,
                      λ i a b.
                          back_high keys key n rising mid (seek keys key rounds lo mid) i high back
                            a (omega arith),
                    ))
          ]
    ]
