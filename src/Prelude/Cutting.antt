-- ===== src/Prelude/Cutting.antt =====
-- What a text that is cut apart was: the parts make it up, and what holds of its code points holds of
-- theirs.
use Prim.Native.Nat.{ℕ}
use mathlib.Core.Path.{◌≡◌, sym, subst}
use mathlib.Core.Logic.{inl, inr}
use mathlib.Core.Bool.{Bool, not}
use mathlib.Core.Option.{some}
use mathlib.Core.List.{[], ◌∷◌, ◌++◌, reverse, reverse-append}
use zerem.Prelude.Lists.{All, All-append, All-left, All-keep}
use zerem.Prelude.Tests.{◌==◌, ==→eq, Bool-cases, Option-cases}
use zerem.Prelude.Text.{
  Text, strip_prefix, split_once, split_go, split_whitespace, is_whitespace, is_empty,
}

pub strip_prefix-All :
    (P : ℕ → Type 0) (p s : Text) {rest : Text}
    → strip_prefix p s ≡ some rest
    → All P s
    → All P rest
strip_prefix-All P [] s h all_s = subst (All P) (cc h) all_s
strip_prefix-All P (p ∷ ps) [] h all_s = cc
strip_prefix-All P (p ∷ ps) (c ∷ s) {rest} h all_s = elim (Bool-cases (p == c)) [
  | inl e ↦ strip_prefix-All P ps s (rw (e, strip_prefix) at h) all_s.1
  | inr e ↦ let w = rw (e, strip_prefix) at h in cc
]

pub strip_prefix-append : (p s : Text) {rest : Text} → strip_prefix p s ≡ some rest → s ≡ p ++ rest
strip_prefix-append [] s h = cc
strip_prefix-append (p ∷ ps) [] h = cc
strip_prefix-append (p ∷ ps) (c ∷ s) {rest} h = elim (Bool-cases (p == c)) [
  | inl e ↦
      let same = ==→eq p c e in
      let later = strip_prefix-append ps s (rw (e, strip_prefix) at h) in cc
  | inr e ↦ let w = rw (e, strip_prefix) at h in cc
]

pub split_once-append :
    (sep : ℕ) (s : Text) {before behind : Text}
    → split_once sep s ≡ some (before, behind)
    → s ≡ before ++ (sep ∷ behind)
split_once-append sep [] h = cc
split_once-append sep (c ∷ s) {before} {behind} h = elim (Bool-cases (c == sep)) [
  | inl e ↦
      let same = ==→eq c sep e in
      let w = rw (e, split_once) at h in
      let none_before : [] ≡ before = cc in
      let rest : s ≡ behind = cc in subst (λ t. c ∷ s ≡ t ++ (sep ∷ behind)) none_before cc
  | inr e ↦ elim (Option-cases (split_once sep s)) [
    | inl absent ↦ let w = rw absent at (rw (e, split_once) at h) in cc
    | inr ((a, b), there) ↦
        let w = rw there at (rw (e, split_once) at h) in
        let later = split_once-append sep s there in
        let first : c ∷ a ≡ before = cc in
        let rest : b ≡ behind = cc in
        subst (λ t. c ∷ s ≡ t ++ (sep ∷ behind)) first (cc (later, rest))
  ]
]

module _ (P : ℕ → Type 0) where
  pub split_once-All :
      (sep : ℕ) (s : Text) {before behind : Text}
      → split_once sep s ≡ some (before, behind)
      → All P s
      → All P before
  split_once-All sep s {before} {behind} h all_s =
      All-left P before (sep ∷ behind) (subst (All P) (split_once-append sep s h) all_s)

  reverse-All : (s : Text) → All P s → All P (reverse s)
  reverse-All [] h = tt
  reverse-All (c ∷ s) h =
      subst (All P) (sym (reverse-append (c ∷ []) s))
        (All-append P (reverse s) (c ∷ []) (reverse-All s h.1) (h.0, tt))

  split_go-All :
      (sep : ℕ → Bool) (cur s : Text) → All P cur → All P s → All (All P) (split_go sep cur s)
  split_go-All sep cur [] hc hs = (reverse-All cur hc, tt)
  split_go-All sep cur (c ∷ s) hc hs = elim (Bool-cases (sep c)) [
    | inl e ↦ rw (e, split_go) (reverse-All cur hc, split_go-All sep [] s tt hs.1)
    | inr e ↦ rw (e, split_go) (split_go-All sep (c ∷ cur) s (hs.0, hc) hs.1)
  ]

  pub split_whitespace-All : (s : Text) → All P s → All (All P) (split_whitespace s)
  split_whitespace-All s h =
      All-keep (All P) (λ w. not (is_empty w)) (split_go is_whitespace [] s)
        (split_go-All is_whitespace [] s tt h)
