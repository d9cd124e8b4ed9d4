-- ===== src/Geo/Walking.antt =====
-- The walk over the ranges of a stream.
use zerem.Prelude.{
  ℕ, zero, suc, ◌+◌, ◌-◌, ◌*◌, ◌%◌, ◌^◌, ◌≤◌, ◌<◌, true, false, some, List, [], ◌∷◌, ◌++◌, length,
  length-append, ltb, leb, if◌then◌else◌, ◌≡◌, refl, ap, ◌∙◌, arith, Bool-cases, inl, inr,
}
use native.Mathlib.Numerals.{towards_suc}
use zerem.Geo.{skip_varint, decode_from, walk, first_country}

-- The bytes of a number: seven bits in each, the low ones first, the top bit set in all but the last.
pub data Varint : ℕ → List ℕ → Type 0 where
  last : (b : ℕ) → b < 128 → Varint b (b ∷ [])
  more :
      (n c b q : ℕ) (bs : List ℕ)
      → b < 128
      → c ≡ 128 + b
      → n ≡ b + q * 128
      → Varint q bs
      → Varint n (c ∷ bs)

-- The bytes of ranges: for each the distance from the range before it, and its country.
abbrev pub Encodes : List (ℕ × ℕ) → List ℕ → Type 0
Encodes [] bytes = bytes ≡ []
Encodes ((d, c) ∷ ranges) bytes =
    (bs : List ℕ) × (tail : List ℕ) × Varint d bs × Encodes ranges tail × (bytes ≡ bs ++ (c ∷ tail))

-- Each range starts at a key of 64 bits.
abbrev pub Fits : ℕ → List (ℕ × ℕ) → Type 0
Fits current [] = Unit
Fits current ((d, c) ∷ ranges) = (current + d < 2 ^ 64) × Fits (current + d) ranges

-- The country of the last range that starts no later than the key, with the ranges given by distances.
pub last_at : ℕ → ℕ → ℕ → List (ℕ × ℕ) → ℕ
last_at key current country [] = country
last_at key current country ((d, c) ∷ ranges) =
    let rest = last_at key (current + d) c ranges in if ltb key (current + d) then country else rest

skip-Varint : (n : ℕ) (bs rest : List ℕ) → Varint n bs → skip_varint (bs ++ rest) ≡ some rest
unfolding skip_varint
skip-Varint n bs rest (last b small) = let stop : leb 128 b ≡ false = ground arith in rw stop refl
skip-Varint n bs rest (more m c b q cs small e em v) =
    let on : leb 128 c ≡ true = ground arith in rw on (skip-Varint q cs rest v)

pow7 : (s : ℕ) → 2 ^ (s + 7) ≡ 128 * 2 ^ s
pow7 s = simp towards_suc (omega arith)

exact : (x : ℕ) → x < 2 ^ 64 → x % 2 ^ 64 ≡ x
exact x h = omega arith

decode-Varint :
    (n : ℕ) (bs rest : List ℕ) (value shift : ℕ)
    → Varint n bs
    → value + n * 2 ^ shift < 2 ^ 64
    → decode_from value shift (bs ++ rest) ≡ value + n * 2 ^ shift
unfolding decode_from
decode-Varint n bs rest value shift (last b small) fits =
    let stop : ltb b 128 ≡ true = ground arith in
    let low : b % 128 ≡ b = omega arith in rw stop (rw low (exact (value + b * 2 ^ shift) fits))
decode-Varint n bs rest value shift (more m c b q cs small e em v) fits =
    let on : ltb c 128 ≡ false = ground arith in
    let low : c % 128 ≡ b = omega arith in
    let parts : n * 2 ^ shift ≡ b * 2 ^ shift + q * (128 * 2 ^ shift) = rw em (grind arith) in
    let here : (value + b * 2 ^ shift) % 2 ^ 64 ≡ value + b * 2 ^ shift =
      small_enough (value + b * 2 ^ shift) (q * (128 * 2 ^ shift)) (omega arith) in
    let later =
      decode-Varint q cs rest (value + b * 2 ^ shift) (shift + 7) v
        (rw (pow7 shift) (omega arith)) in
    rw on (rw low (rw here (later ∙ rw (pow7 shift) (omega arith))))
  where
    small_enough : (x y : ℕ) → x + y < 2 ^ 64 → x % 2 ^ 64 ≡ x
    small_enough x y h = omega arith

no_bytes : {rest : List ℕ} → skip_varint [] ≡ some rest → ⊥
unfolding skip_varint
no_bytes h = cc

module _ (key current country d c : ℕ) (ranges : List (ℕ × ℕ)) (tail : List ℕ) where
  walk_step :
      (rounds : ℕ) (bytes : List ℕ)
      → current + d < 2 ^ 64
      → decode_from 0 0 bytes ≡ d
      → skip_varint bytes ≡ some (c ∷ tail)
      → walk rounds key (current + d) c tail ≡ some (last_at key (current + d) c ranges)
      → walk (suc rounds) key current country bytes
        ≡ some (last_at key current country ((d, c) ∷ ranges))
  unfolding walk last_at
  walk_step rounds [] fits number skipped ih = absurd (no_bytes skipped)
  walk_step rounds (b ∷ bytes) fits number skipped ih =
      let next : (current + decode_from 0 0 (b ∷ bytes)) % 2 ^ 64 ≡ current + d =
        ap (λ x. (current + x) % 2 ^ 64) number ∙ exact (current + d) fits in
      rw (skipped, walk)
        (rw next (elim (Bool-cases (ltb key (current + d))) [
          | inl over ↦ rw over refl
          | inr under ↦ rw under (rw next ih)
        ]))

-- Over the bytes of some ranges the walk ends with the country of the last range that starts no later
-- than the key, if it has as many rounds as there are bytes and
-- no key goes past 64 bits.
pub walk-last_at :
    (rounds key current country : ℕ) (ranges : List (ℕ × ℕ)) (bytes : List ℕ)
    → Encodes ranges bytes
    → Fits current ranges
    → length bytes ≤ rounds
    → walk rounds key current country bytes ≡ some (last_at key current country ranges)
unfolding walk last_at
walk-last_at zero key current country [] bytes e small enough = refl
walk-last_at (suc rounds) key current country [] bytes e small enough = rw e refl
walk-last_at rounds key current country ((d, c) ∷ ranges) bytes (bs, tail, v, rest, e) small
      enough =
    let size : length bytes ≡ length bs + suc (length tail) =
      ap length e ∙ length-append bs (c ∷ tail) in
    let number : decode_from 0 0 bytes ≡ d =
      ap (decode_from 0 0) e
      ∙ decode-Varint d bs (c ∷ tail) 0 0 v (omega (arith, small.0))
      ∙ (omega arith) in
    let skipped = ap skip_varint e ∙ skip-Varint d bs (c ∷ tail) v in
    let fewer : rounds ≡ suc (rounds - 1) = omega arith in
    rw fewer (
      walk_step key current country d c ranges tail (rounds - 1) bytes small.0 number skipped
        (walk-last_at (rounds - 1) key (current + d) c ranges tail rest small.1 (omega arith)))

pub first-encoded :
    (d c : ℕ) (bs tail : List ℕ) → Varint d bs → first_country (bs ++ (c ∷ tail)) ≡ some (c, tail)
first-encoded d c bs tail v = rw (skip-Varint d bs (c ∷ tail) v, first_country) refl
