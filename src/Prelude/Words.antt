-- ===== src/Prelude/Words.antt =====
-- Bounds of the machine integers, and saturating and checked operations on them.
use Prim.Native.Nat.{ℕ, ◌+◌, ◌-◌, ◌*◌, ◌/◌, ◌^◌, min}
use mathlib.Core.Option.{Option, none, some}
use mathlib.Core.Path.{◌≡◌, refl, ap, ◌∙◌}
use mathlib.Core.List.{List, [], ◌∷◌}
use native.Mathlib.Omega.{arith}
use Prim.Native.Nat.{◌≤◌, ◌<◌, ◌%◌, zero, suc}
use zerem.Prelude.Lists.{sum}
use zerem.Prelude.Tests.{if◌then◌else◌, ltb, ◌==◌}

abbrev pub u8_max : ℕ
u8_max = 2 ^ 8 - 1

abbrev pub u32_max : ℕ
u32_max = 2 ^ 32 - 1

abbrev pub u64_max : ℕ
u64_max = 2 ^ 64 - 1

-- `checked_sub`.
abbrev pub checked_sub : ℕ → ℕ → Option ℕ
checked_sub a b = if ltb a b then none else some (a - b)

-- `checked_div`.
abbrev pub checked_div : ℕ → ℕ → Option ℕ
checked_div a b = if b == 0 then none else some (a / b)

-- `saturating_add` and `saturating_mul` of a width.
abbrev pub saturating_add : ℕ → ℕ → ℕ → ℕ
saturating_add top a b = min top (a + b)

abbrev pub saturating_mul : ℕ → ℕ → ℕ → ℕ
saturating_mul top a b = min top (a * b)

-- `sum` in u64, which wraps.
abbrev pub wrapping_sum : List ℕ → ℕ
wrapping_sum [] = 0
wrapping_sum (x ∷ xs) = (x + wrapping_sum xs) % 2 ^ 64

-- Where the true sum fits, nothing wraps.
pub wrapping_sum-sum : (xs : List ℕ) → sum xs ≤ u64_max → wrapping_sum xs ≡ sum xs
wrapping_sum-sum [] h = refl
wrapping_sum-sum (x ∷ xs) h = omega (arith, wrapping_sum-sum xs (omega arith))

-- Exclusive or of the lowest `n` binary digits.
abbrev pub xor_bits : ℕ → ℕ → ℕ → ℕ
xor_bits zero a b = 0
xor_bits (suc n) a b = xor_bits n (a / 2) (b / 2) * 2 + (a % 2 + b % 2) % 2

unfoldable pub xor_u8 : ℕ → ℕ → ℕ
xor_u8 a b = xor_bits 8 a b

xor_bits_bound : (n a b : ℕ) → xor_bits n a b < 2 ^ n
xor_bits_bound zero a b = omega arith
xor_bits_bound (suc n) a b = let ih = xor_bits_bound n (a / 2) (b / 2) in ground arith

xor_bits_twice : (n a b : ℕ) → a < 2 ^ n → xor_bits n (xor_bits n a b) b ≡ a
xor_bits_twice zero a b h = omega arith
xor_bits_twice (suc n) a b h =
    let ih = xor_bits_twice n (a / 2) (b / 2) (ground arith) in
    let rest = xor_bits n (a / 2) (b / 2) in
    let half : (rest * 2 + (a % 2 + b % 2) % 2) / 2 ≡ rest = omega arith in
    let back = ap (λ r. xor_bits n r (b / 2)) half ∙ ih in omega arith

pub xor_u8_twice : (a b : ℕ) → a < 256 → xor_u8 (xor_u8 a b) b ≡ a
unfolding xor_u8
xor_u8_twice a b h = xor_bits_twice 8 a b h

pub xor_u8_bound : (a b : ℕ) → xor_u8 a b < 256
unfolding xor_u8
xor_u8_bound a b = xor_bits_bound 8 a b

-- Inclusive or of the lowest `n` binary digits.
abbrev pub or_bits : ℕ → ℕ → ℕ → ℕ
or_bits zero a b = 0
or_bits (suc n) a b = or_bits n (a / 2) (b / 2) * 2 + (a % 2 + b % 2 + 1) / 2

unfoldable pub or_u8 : ℕ → ℕ → ℕ
or_u8 a b = or_bits 8 a b

or_bits_zero : (n a b : ℕ) → or_bits n a b ≡ 0 → a < 2 ^ n → b < 2 ^ n → (a ≡ 0) × (b ≡ 0)
or_bits_zero zero a b e ha hb = (omega arith, omega arith)
or_bits_zero (suc n) a b e ha hb =
    let (x, y) = or_bits_zero n (a / 2) (b / 2) (omega arith) (omega arith) (omega arith) in
    (omega arith, omega arith)

or_bits_bound : (n a b : ℕ) → or_bits n a b < 2 ^ n
or_bits_bound zero a b = omega arith
or_bits_bound (suc n) a b = let ih = or_bits_bound n (a / 2) (b / 2) in omega arith

xor_bits_zero : (n a b : ℕ) → xor_bits n a b ≡ 0 → a < 2 ^ n → b < 2 ^ n → a ≡ b
xor_bits_zero zero a b e ha hb = omega arith
xor_bits_zero (suc n) a b e ha hb =
    let ih = xor_bits_zero n (a / 2) (b / 2) (omega arith) (omega arith) (omega arith) in
    omega arith

xor_bits_self : (n a : ℕ) → xor_bits n a a ≡ 0
xor_bits_self zero a = refl
xor_bits_self (suc n) a = let ih = xor_bits_self n (a / 2) in omega arith

pub xor_u8_self : (a : ℕ) → xor_u8 a a ≡ 0
unfolding xor_u8
xor_u8_self a = xor_bits_self 8 a

pub xor_u8_zero : (a b : ℕ) → xor_u8 a b ≡ 0 → a < 256 → b < 256 → a ≡ b
unfolding xor_u8
xor_u8_zero a b e ha hb = xor_bits_zero 8 a b e ha hb

pub or_u8_zero : (a b : ℕ) → or_u8 a b ≡ 0 → a < 256 → b < 256 → (a ≡ 0) × (b ≡ 0)
unfolding or_u8
or_u8_zero a b e ha hb = or_bits_zero 8 a b e ha hb

pub or_u8_bound : (a b : ℕ) → or_u8 a b < 256
unfolding or_u8
or_u8_bound a b = or_bits_bound 8 a b
