-- ===== src/Prelude/Printing.antt =====
-- What is printed can be read back: decimals, words of a line, and lines.
use Prim.Native.Nat.{ℕ, zero, suc, ◌+◌, ◌/◌, ◌%◌, ◌≤◌, ◌<◌}
use mathlib.Core.Path.{◌≡◌, refl, ap, ◌∙◌}
use mathlib.Core.Bool.{true, false, not}
use mathlib.Core.Logic.{inl, inr}
use mathlib.Core.Option.{some}
use mathlib.Core.List.{List, [], ◌∷◌, ◌++◌, reverse, append-nil, append_assoc, reverse-append}
use native.Mathlib.Omega.{arith}
use zerem.Prelude.Tests.{Bool-cases, ◌==◌}
use zerem.Prelude.Lists.{All, keep}
use zerem.Prelude.Text.{
  Text, parse_digits, parse_uint, decimal, decimal_go, is_digit, split_go, is_whitespace, is_empty,
  split_whitespace, end_line, lines, lines_go,
}

parse_digits-decimal_go :
    (top fuel n : ℕ) (out : Text)
    → n ≤ fuel
    → n ≤ top
    → parse_digits top 0 (decimal_go fuel n out) ≡ parse_digits top n out
parse_digits-decimal_go top zero n out h fits = let e : n ≡ 0 = omega arith in rw e refl
parse_digits-decimal_go top (suc fuel) n out h fits =
    ground (arith, parse_digits-decimal_go top fuel (n / 10) ((48 + n % 10) ∷ out))

-- The first code point of a decimal is a digit.
abbrev StartsWithDigit : Text → Type 0
StartsWithDigit [] = ⊥
StartsWithDigit (c ∷ s) = is_digit c ≡ true

decimal_go-StartsWithDigit :
    (fuel n : ℕ) (out : Text) → StartsWithDigit out → StartsWithDigit (decimal_go fuel n out)
decimal_go-StartsWithDigit zero n out h = h
decimal_go-StartsWithDigit (suc fuel) n out h = elim (Bool-cases (n == 0)) [
  | inl e ↦ rw e h
  | inr e ↦ rw e (decimal_go-StartsWithDigit fuel (n / 10) ((48 + n % 10) ∷ out) (ground arith))
]

decimal-StartsWithDigit : (n : ℕ) → StartsWithDigit (decimal n)
decimal-StartsWithDigit zero = refl
decimal-StartsWithDigit (suc n) =
    let some_digits : (suc n == 0) ≡ false = ground arith in
    rw (some_digits)
      (decimal_go-StartsWithDigit n (suc n / 10) ((48 + suc n % 10) ∷ []) (ground arith))

parse_uint-parse_digits :
    (top : ℕ) (s : Text) → StartsWithDigit s → parse_uint top s ≡ parse_digits top 0 s
parse_uint-parse_digits top [] h = absurd h
parse_uint-parse_digits top (c ∷ []) h = refl
parse_uint-parse_digits top (c ∷ d ∷ s) h =
    let no_plus : (c == 43) ≡ false = ground arith in rw no_plus refl

parse_digits-decimal : (top n : ℕ) → n ≤ top → parse_digits top 0 (decimal n) ≡ some n
parse_digits-decimal top n fits = elim (Bool-cases (n == 0)) [
  | inl e ↦ rw e (ground arith)
  | inr e ↦ rw e (parse_digits-decimal_go top n n [] (omega arith) fits)
]

-- A number that fits is read back from its decimal print.
pub parse_uint-decimal : (top n : ℕ) → n ≤ top → parse_uint top (decimal n) ≡ some n
parse_uint-decimal top n fits =
    parse_uint-parse_digits top (decimal n) (decimal-StartsWithDigit n)
    ∙ parse_digits-decimal top n fits

-- A code point that does not separate words.
abbrev pub IsInk : ℕ → Type 0
IsInk c = is_whitespace c ≡ false

abbrev pub IsWord : Text → Type 0
IsWord s = (is_empty s ≡ false) × All IsInk s

decimal_go-All :
    (P : ℕ → Type 0)
    → ((d : ℕ) → d < 10 → P (48 + d))
    → (fuel n : ℕ) (out : Text) → All P out
    → All P (decimal_go fuel n out)
decimal_go-All P digits zero n out h = h
decimal_go-All P digits (suc fuel) n out h = elim (Bool-cases (n == 0)) [
  | inl e ↦ rw e h
  | inr e ↦ rw e (
      decimal_go-All P digits fuel (n / 10) ((48 + n % 10) ∷ out)
        (digits (n % 10) (omega arith), h))
]

-- What holds of every digit holds of what a decimal is printed as.
pub decimal-All : (P : ℕ → Type 0) → ((d : ℕ) → d < 10 → P (48 + d)) → (n : ℕ) → All P (decimal n)
decimal-All P digits n = elim (Bool-cases (n == 0)) [
  | inl e ↦ rw e (digits 0 (omega arith), tt)
  | inr e ↦ rw e (decimal_go-All P digits n n [] tt)
]

pub decimal-IsWord : (n : ℕ) → IsWord (decimal n)
decimal-IsWord n =
    (not_empty (decimal n) (decimal-StartsWithDigit n), decimal-All IsInk (λ d h. ground arith) n)
  where
    not_empty : (s : Text) → StartsWithDigit s → is_empty s ≡ false
    not_empty [] h = absurd h
    not_empty (c ∷ s) h = refl

-- Words behind spaces.
abbrev pub spaced : List Text → Text
spaced [] = []
spaced (w ∷ ws) = 32 ∷ w ++ spaced ws

split_go-spaced :
    (cur : Text) (s : Text) (ws : List Text)
    → All IsInk s
    → All IsWord ws
    → split_go is_whitespace cur (s ++ spaced ws) ≡ (reverse cur ++ s) ∷ ws
split_go-spaced cur [] [] h hs = rw append-nil refl
split_go-spaced cur [] (w ∷ ws) h hs =
    rw append-nil (ap (λ t. reverse cur ∷ t) (split_go-spaced [] w ws hs.0.1 hs.1))
split_go-spaced cur (c ∷ s) ws h hs =
    rw (h.0, split_go)
      (split_go-spaced (c ∷ cur) s ws h.1 hs
        ∙ ap (λ t. t ∷ ws)
            (ap (λ t. t ++ s) (reverse-append (c ∷ []) cur)
              ∙ append_assoc (reverse cur) (c ∷ []) s))

keep-words : (ws : List Text) → All IsWord ws → keep (λ w. not (is_empty w)) ws ≡ ws
keep-words [] h = refl
keep-words (w ∷ ws) h = rw h.0.0 (ap (λ t. w ∷ t) (keep-words ws h.1))

-- The words of a line are read back.
pub split_whitespace-spaced :
    (w : Text) (ws : List Text) → All IsWord (w ∷ ws) → split_whitespace (w ++ spaced ws) ≡ w ∷ ws
split_whitespace-spaced w ws h =
    ap (keep (λ v. not (is_empty v))) (split_go-spaced [] w ws h.0.1 h.1) ∙ keep-words (w ∷ ws) h

-- A code point that does not end a line, and is not taken off its end.
abbrev pub IsInline : ℕ → Type 0
IsInline c = ((c == 10) ≡ false) × ((c == 13) ≡ false)

end_line-reverse : (cur : Text) → All IsInline cur → end_line cur ≡ reverse cur
end_line-reverse [] h = refl
end_line-reverse (c ∷ cur) h = rw (h.0.1) refl

lines_go-line :
    (cur s rest : Text)
    → All IsInline cur
    → All IsInline s
    → lines_go cur (s ++ (10 ∷ rest)) ≡ (reverse cur ++ s) ∷ lines rest
lines_go-line [] [] rest hc h = refl
lines_go-line (b ∷ cur) [] rest hc h =
    rw append-nil (ap (λ t. t ∷ lines rest) (end_line-reverse (b ∷ cur) hc))
lines_go-line [] (c ∷ s) rest hc h =
    rw (h.0.0, lines_go) (lines_go-line (c ∷ []) s rest (h.0, tt) h.1)
lines_go-line (b ∷ cur) (c ∷ s) rest hc h =
    rw (h.0.0, lines_go)
      (lines_go-line (c ∷ b ∷ cur) s rest (h.0, hc) h.1
        ∙ ap (λ t. t ∷ lines rest)
            (ap (λ t. t ++ s) (reverse-append (c ∷ []) (b ∷ cur))
              ∙ append_assoc (reverse (b ∷ cur)) (c ∷ []) s))

-- A line is read back, and what follows it is read as lines.
pub lines-line : (s rest : Text) → All IsInline s → lines (s ++ (10 ∷ rest)) ≡ s ∷ lines rest
lines-line s rest h = lines_go-line [] s rest tt h

pub Ink-Inline : (c : ℕ) → IsInk c → IsInline c
Ink-Inline c h = ground arith
