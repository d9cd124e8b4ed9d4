-- ===== src/Prelude/Text.antt =====
-- Texts as lists of code points, and the `str` methods that the program calls.
use Prim.Native.Nat.{ℕ, zero, suc, ◌+◌, ◌-◌, ◌*◌, ◌/◌, ◌%◌}
use Prim.Native.Char.{code}
use Prim.Native.String.{String}
use mathlib.Core.Path.{◌≡◌, refl}
use mathlib.Core.Bool.{Bool, true, false, ◌&&◌, ◌||◌, not}
use mathlib.Core.Option.{Option, none, some}
use mathlib.Core.List.{List, [], ◌∷◌, ◌++◌, map, reverse}
use zerem.Prelude.Tests.{ltb, ◌==◌, leb, if◌then◌else◌, ==→eq, ==-self, &&-true}
use zerem.Prelude.Lists.{keep}

abbrev pub Text : Type 0
Text = List ℕ

-- The code points of a literal.
abbrev pub codes : String → Text
codes String.[] = []
codes (String.◌∷◌ c s) = code c ∷ codes s

abbrev pub text_eq : Text → Text → Bool
text_eq [] [] = true
text_eq [] (b ∷ t) = false
text_eq (a ∷ s) [] = false
text_eq (a ∷ s) (b ∷ t) = (a == b) && text_eq s t

pub text_eq→eq : (s t : Text) → text_eq s t ≡ true → s ≡ t
text_eq→eq [] [] h = refl
text_eq→eq [] (b ∷ t) h = cc
text_eq→eq (a ∷ s) [] h = cc
text_eq→eq (a ∷ s) (b ∷ t) h =
    let (p, q) = &&-true (a == b) (text_eq s t) h in cc (==→eq a b p, text_eq→eq s t q)

pub text_eq_self : (s : Text) → text_eq s s ≡ true
text_eq_self [] = refl
text_eq_self (a ∷ s) = rw (==-self a) (text_eq_self s)

-- `strip_prefix`, with the prefix first.
abbrev pub strip_prefix : Text → Text → Option Text
strip_prefix [] s = some s
strip_prefix (p ∷ ps) [] = none
strip_prefix (p ∷ ps) (c ∷ s) = if p == c then strip_prefix ps s else none

abbrev pub starts_with : Text → Text → Bool
starts_with [] s = true
starts_with (p ∷ ps) [] = false
starts_with (p ∷ ps) (c ∷ s) = (p == c) && starts_with ps s

abbrev pub ends_with : Text → Text → Bool
ends_with p s = starts_with (reverse p) (reverse s)

-- `contains`.
abbrev pub contains : Text → Text → Bool
contains p [] = starts_with p []
contains p (c ∷ s) = starts_with p (c ∷ s) || contains p s

-- `split_once` at a separator of one code point.
abbrev pub split_once : ℕ → Text → Option (Text × Text)
split_once sep [] = none
split_once sep (c ∷ s) = elim (c == sep) [
  | true ↦ some ([], s)
  | false ↦ elim (split_once sep s) [ none ↦ none | some (a, b) ↦ some (c ∷ a, b) ]
]

-- `split` at every code point that passes the test; there is always one part.
abbrev pub split_go : (ℕ → Bool) → Text → Text → List Text
split_go sep cur [] = reverse cur ∷ []
split_go sep cur (c ∷ s) = elim (sep c) [
  | true ↦ reverse cur ∷ split_go sep [] s
  | false ↦ split_go sep (c ∷ cur) s
]

abbrev pub split : (ℕ → Bool) → Text → List Text
split sep s = split_go sep [] s

-- `char::is_whitespace`: the code points with the property White_Space.
abbrev pub is_whitespace : ℕ → Bool
is_whitespace c =
    (leb 9 c && leb c 13)
    || c == 32
    || c == 0x85
    || c == 0xA0
    || c == 0x1680
    || (leb 0x2000 c && leb c 0x200A)
    || c == 0x2028
    || c == 0x2029
    || c == 0x202F
    || c == 0x205F
    || c == 0x3000

abbrev pub is_empty : Text → Bool
is_empty [] = true
is_empty (c ∷ s) = false

abbrev pub split_whitespace : Text → List Text
split_whitespace s = keep (λ w. not (is_empty w)) (split is_whitespace s)

abbrev pub trim_start : Text → Text
trim_start [] = []
trim_start (c ∷ s) = if is_whitespace c then trim_start s else c ∷ s

abbrev pub trim : Text → Text
trim s = reverse (trim_start (reverse (trim_start s)))

abbrev pub join : Text → List Text → Text
join sep [] = []
join sep (w ∷ []) = w
join sep (w ∷ v ∷ ws) = w ++ (sep ++ join sep (v ∷ ws))

-- `to_ascii_lowercase` and `to_ascii_uppercase` of one code point.
abbrev pub ascii_lower : ℕ → ℕ
ascii_lower c = if leb 65 c && leb c 90 then c + 32 else c

abbrev pub ascii_upper : ℕ → ℕ
ascii_upper c = if leb 97 c && leb c 122 then c - 32 else c

abbrev pub to_ascii_lowercase : Text → Text
to_ascii_lowercase = map ascii_lower

abbrev pub eq_ignore_ascii_case : Text → Text → Bool
eq_ignore_ascii_case a b = text_eq (to_ascii_lowercase a) (to_ascii_lowercase b)

abbrev pub is_digit : ℕ → Bool
is_digit c = leb 48 c && leb c 57

-- The digits of `str::parse` for an unsigned integer up to `top`: an overflow is an error.
abbrev pub parse_digits : ℕ → ℕ → Text → Option ℕ
parse_digits top n [] = some n
parse_digits top n (c ∷ s) =
    let rest = parse_digits top (n * 10 + (c - 48)) s in
    if is_digit c && leb (n * 10 + (c - 48)) top then rest else none

-- `str::parse`: a leading plus is allowed, no digit at all is an error.
abbrev pub parse_uint : ℕ → Text → Option ℕ
parse_uint top [] = none
parse_uint top (c ∷ []) = parse_digits top 0 (c ∷ [])
parse_uint top (c ∷ d ∷ s) =
    let plain = parse_digits top 0 (c ∷ d ∷ s) in
    let signed = parse_digits top 0 (d ∷ s) in if c == 43 then signed else plain

-- `rsplit_once` at a separator of one code point.
abbrev pub rsplit_once : ℕ → Text → Option (Text × Text)
rsplit_once sep s = elim (split_once sep (reverse s)) [
  | none ↦ none
  | some (after, before) ↦ some (reverse before, reverse after)
]

-- The decimal print of a number: a digit for each round, the last first.
abbrev pub decimal_go : ℕ → ℕ → Text → Text
decimal_go zero n out = out
decimal_go (suc fuel) n out =
    let rest = decimal_go fuel (n / 10) ((48 + n % 10) ∷ out) in if n == 0 then out else rest

-- Every round divides by ten, so a number's own size is fuel enough.
abbrev pub decimal : ℕ → Text
decimal n = if n == 0 then 48 ∷ [] else decimal_go n n []

-- The order of `str`: by code points, which is that of the UTF-8 bytes.
abbrev pub text_ltb : Text → Text → Bool
text_ltb s [] = false
text_ltb [] (b ∷ t) = true
text_ltb (a ∷ s) (b ∷ t) = ltb a b || (a == b && text_ltb s t)

-- `lines`: a line ends with a line feed, and a carriage return before that does not count.
abbrev pub end_line : Text → Text
end_line [] = []
end_line (c ∷ cur) = if c == 13 then reverse cur else reverse (c ∷ cur)

-- What follows the last line feed is a line unless it is empty.
abbrev pub last_line : Text → List Text
last_line [] = []
last_line (c ∷ cur) = reverse (c ∷ cur) ∷ []

abbrev pub lines_go : Text → Text → List Text
lines_go cur [] = last_line cur
lines_go cur (c ∷ s) = elim (c == 10) [
  | true ↦ end_line cur ∷ lines_go [] s
  | false ↦ lines_go (c ∷ cur) s
]

abbrev pub lines : Text → List Text
lines s = lines_go [] s
