-- ===== src/Prelude/Trimming.antt =====
-- Trimming a text does not change its words.
use Prim.Native.Nat.{ℕ}
use mathlib.Core.Path.{◌≡◌, refl, sym, ap, subst, ◌∙◌}
use mathlib.Core.Logic.{inl, inr}
use mathlib.Core.Bool.{true, false, not}
use mathlib.Core.List.{List, [], ◌∷◌, ◌++◌, append-nil, reverse, reverse-append, reverse-reverse}
use zerem.Prelude.Lists.{All, keep, keep-append}
use zerem.Prelude.Tests.{Bool-cases}
use zerem.Prelude.Text.{Text, is_empty, is_whitespace, split_go, split_whitespace, trim, trim_start}

abbrev words : List Text → List Text
words = keep (λ w. not (is_empty w))

abbrev IsBlank : Text → Type 0
IsBlank s = All (λ c. is_whitespace c ≡ true) s

-- What the split does at a blank, and at any other code point.
blank_step :
    (cur : Text) (c : ℕ) (s : Text)
    → is_whitespace c ≡ true
    → split_go is_whitespace cur (c ∷ s) ≡ reverse cur ∷ split_go is_whitespace [] s
blank_step cur c s e = rw (e, split_go) refl

ink_step :
    (cur : Text) (c : ℕ) (s : Text)
    → is_whitespace c ≡ false
    → split_go is_whitespace cur (c ∷ s) ≡ split_go is_whitespace (c ∷ cur) s
ink_step cur c s e = rw (e, split_go) refl

words-trim_start : (s : Text) → split_whitespace (trim_start s) ≡ split_whitespace s
words-trim_start [] = refl
words-trim_start (c ∷ s) = elim (Bool-cases (is_whitespace c)) [
  | inl e ↦
      let gone : trim_start (c ∷ s) ≡ trim_start s = rw (e, trim_start) refl in
      ap split_whitespace gone ∙ words-trim_start s ∙ sym (ap words (blank_step [] c s e))
  | inr e ↦
      let kept : trim_start (c ∷ s) ≡ c ∷ s = rw (e, trim_start) refl in ap split_whitespace kept
]

words_blank : (s : Text) → IsBlank s → words (split_go is_whitespace [] s) ≡ []
words_blank [] h = refl
words_blank (c ∷ s) h = ap words (blank_step [] c s h.0) ∙ words_blank s h.1

words-cons : (w : Text) (ws : List Text) → words (w ∷ ws) ≡ words (w ∷ []) ++ words ws
words-cons w ws = keep-append (λ v. not (is_empty v)) (w ∷ []) ws

words-append :
    (cur s blank : Text)
    → IsBlank blank
    → words (split_go is_whitespace cur (s ++ blank)) ≡ words (split_go is_whitespace cur s)
words-append cur [] [] h = refl
words-append cur [] (c ∷ blank) h =
    ap words (blank_step cur c blank h.0)
    ∙ words-cons (reverse cur) (split_go is_whitespace [] blank)
    ∙ ap (λ t. words (reverse cur ∷ []) ++ t) (words_blank blank h.1)
    ∙ append-nil (words (reverse cur ∷ []))
words-append cur (c ∷ s) blank h = elim (Bool-cases (is_whitespace c)) [
  | inl e ↦
      ap words (blank_step cur c (s ++ blank) e)
      ∙ words-cons (reverse cur) (split_go is_whitespace [] (s ++ blank))
      ∙ ap (λ t. words (reverse cur ∷ []) ++ t) (words-append [] s blank h)
      ∙ sym (words-cons (reverse cur) (split_go is_whitespace [] s))
      ∙ sym (ap words (blank_step cur c s e))
  | inr e ↦
      ap words (ink_step cur c (s ++ blank) e)
      ∙ words-append (c ∷ cur) s blank h
      ∙ sym (ap words (ink_step cur c s e))
]

All-snoc : (s : Text) (c : ℕ) → IsBlank s → is_whitespace c ≡ true → IsBlank (s ++ (c ∷ []))
All-snoc [] c h e = (e, tt)
All-snoc (x ∷ s) c h e = (h.0, All-snoc s c h.1 e)

reverse-IsBlank : (s : Text) → IsBlank s → IsBlank (reverse s)
reverse-IsBlank [] h = tt
reverse-IsBlank (c ∷ s) h =
    subst IsBlank (sym (reverse-append (c ∷ []) s))
      (All-snoc (reverse s) c (reverse-IsBlank s h.1) h.0)

-- What is trimmed at the front is blank.
trimmed : (s : Text) → (blank : Text) × IsBlank blank × (s ≡ blank ++ trim_start s)
trimmed [] = ([], tt, refl)
trimmed (c ∷ s) = elim (Bool-cases (is_whitespace c)) [
  | inl e ↦
      let (blank, h, same) = trimmed s in
      let gone : trim_start (c ∷ s) ≡ trim_start s = rw (e, trim_start) refl in
      (c ∷ blank, (e, h), ap (λ t. c ∷ t) same ∙ ap (λ t. c ∷ (blank ++ t)) (sym gone))
  | inr e ↦ let kept : trim_start (c ∷ s) ≡ c ∷ s = rw (e, trim_start) refl in ([], tt, sym kept)
]

-- The blanks at the ends of a text make no difference to its words.
pub words-trim : (s : Text) → split_whitespace (trim s) ≡ split_whitespace s
words-trim s =
    let front = trim_start s in
    let (blank, h, same) = trimmed (reverse front) in
    let apart : front ≡ reverse (trim_start (reverse front)) ++ reverse blank =
      sym (reverse-reverse front)
      ∙ ap reverse same
      ∙ reverse-append blank (trim_start (reverse front)) in
    sym (
      words-append [] (reverse (trim_start (reverse front))) (reverse blank)
        (reverse-IsBlank blank h))
    ∙ sym (ap split_whitespace apart)
    ∙ words-trim_start s
