-- ===== src/History/Plot.antt =====
-- What the sparkline draws.
use zerem.Prelude.{
  ℕ, ◌+◌, ◌*◌, ◌/◌, ◌%◌, ◌^◌, ◌≤◌, ◌<◌, max, ◌≡◌, arith, none, some, List, [], ◌∷◌, All, ltb, ◌==◌,
  if◌then◌else◌, Bool, ◌||◌, subst, is_some, not, any, ◌&&◌, ◌>>=◌,
}
use native.Mathlib.Nat.{div-lt_iff_lt-mul, mul-div_cancel_left, zero-div}
use zerem.Prelude.Words.{u64_max}
use zerem.History.{History, Spark, height, top, scale_of, level, series, spark}

quotient-le : (scale rate : ℕ) → 0 < scale → rate ≤ scale → (rate * height) / scale ≤ height
quotient-le scale rate pos h =
    let below : (rate * height) / scale < 101 =
      (div-lt_iff_lt-mul {k = scale} {x = rate * height} {y = 101} pos).1 (omega arith) in
    omega arith

le-top : (best : ℕ) (samples : List (ℕ × ℕ)) → best ≤ top best samples
le-top best [] = omega arith
le-top best ((down, up) ∷ samples) = omega (arith, le-top (max best (max down up)) samples)

-- Every rate of the samples is within the scale.
abbrev pub Within : ℕ → List (ℕ × ℕ) → Type 0
Within scale samples = All (λ s. (s.0 ≤ scale) × (s.1 ≤ scale)) samples

top-Within : (best : ℕ) (samples : List (ℕ × ℕ)) → Within (top best samples) samples
top-Within best [] = tt
top-Within best ((down, up) ∷ samples) =
    let le = le-top (max best (max down up)) samples in
    ((omega arith, omega arith), top-Within (max best (max down up)) samples)

level_lem :
    (scale rate : ℕ)
    → 0 < scale
    → rate ≤ scale
    → scale * height ≤ u64_max
    → level scale rate + (rate * height) / scale ≡ height
unfolding level
level_lem scale rate pos h small =
    let e : (rate * height) % 2 ^ 64 ≡ rate * height = omega arith in
    rw e (omega (arith, quotient-le scale rate pos h))

-- What the drawing needs of the scale: both rates of every sample are within it, and no product wraps.
pub scale_of-Within :
    (samples : List (ℕ × ℕ)) {scale : ℕ} → scale_of samples ≡ some scale → Within scale samples
scale_of-Within [] h = cc
scale_of-Within ((down, up) ∷ samples) {scale} h =
    let e : top (max down up) samples ≡ scale = ground arith in
    let le = le-top (max down up) samples in
    subst (λ t. Within t ((down, up) ∷ samples)) e
      ((omega arith, omega arith), top-Within (max down up) samples)

-- The height of a point, for a positive scale that no rate exceeds and whose product with the height of
-- the picture fits in 64 bits: it lies within the picture, the zero rate is drawn on its lower edge and the
-- largest rate on its upper one.
pub level_bounds :
    (scale rate : ℕ)
    → 0 < scale
    → rate ≤ scale
    → scale * height ≤ u64_max
    → (level scale rate ≤ height) × (level scale 0 ≡ height) × (level scale scale ≡ 0)
level_bounds scale rate pos h small = (
  omega (arith, level_lem scale rate pos h small),
  omega (arith, level_lem scale 0 pos (omega arith) small, zero-div scale),
  omega (arith, level_lem scale scale pos (omega arith) small, full_quotient),
)
  where
    full_quotient : (scale * height) / scale ≡ height
    full_quotient = mul-div_cancel_left height pos

abbrev pub moving : ℕ × ℕ → Bool
moving s = ltb 0 (max s.0 s.1)

top_zero :
    (best : ℕ) (samples : List (ℕ × ℕ))
    → (top best samples == 0) ≡ ((best == 0) && not (any moving samples))
top_zero best [] = ground arith
top_zero best ((down, up) ∷ samples) = ground (arith, top_zero (max best (max down up)) samples)

drawn_some :
    (samples : List (ℕ × ℕ)) (few : Bool) (f : ℕ → Spark)
    → is_some (scale_of samples >>= λ scale. if few || scale == 0 then none else some (f scale))
      ≡ (not few && any moving samples)
drawn_some [] few f = ground arith
drawn_some ((down, up) ∷ samples) few f = ground (arith, top_zero (max down up) samples)

-- There is a sparkline exactly when there are two samples and one of them moved a byte.
pub spark_some : (h : History) → is_some (spark h) ≡ (not (ltb h.len 2) && any moving (series h))
unfolding spark
spark_some h = drawn_some (series h) (ltb h.len 2) _
