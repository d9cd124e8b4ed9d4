-- ===== src/Prelude/Maps.antt =====
-- Maps with texts for keys, as association lists.
use mathlib.Core.Path.{◌≡◌, refl, subst, sym}
use mathlib.Core.Bool.{true, false}
use mathlib.Core.Logic.{inl, inr}
use mathlib.Core.Option.{Option, none, some}
use mathlib.Core.List.{List, [], ◌∷◌}
use native.Mathlib.Omega.{arith}
use zerem.Prelude.Lists.{All}
use zerem.Prelude.Tests.{if◌then◌else◌, Bool-cases}
use zerem.Prelude.Text.{Text, text_eq, text_eq→eq, text_eq_self}

differ : (i k : Text) → text_eq i k ≡ false → text_eq k i ≡ true → ⊥
differ i k e e' = let same = text_eq→eq k i e' in cc (same, text_eq_self k)

text_eq_sym_false : (i k : Text) → text_eq i k ≡ false → text_eq k i ≡ false
text_eq_sym_false i k e = elim (Bool-cases (text_eq k i)) [
  | inl e' ↦ absurd (differ i k e e')
  | inr e' ↦ e'
]

module _ {ℓ} {V : Type ℓ} where
  abbrev pub lookup : Text → List (Text × V) → Option V
  lookup k [] = none
  lookup k ((j, v) ∷ m) = if text_eq j k then some v else lookup k m

  abbrev pub insert : Text → V → List (Text × V) → List (Text × V)
  insert k v [] = (k, v) ∷ []
  insert k v ((j, w) ∷ m) = if text_eq j k then (k, v) ∷ m else (j, w) ∷ insert k v m

  abbrev pub remove : Text → List (Text × V) → List (Text × V)
  remove k [] = []
  remove k ((j, w) ∷ m) = let rest = remove k m in if text_eq j k then rest else (j, w) ∷ rest

  -- No key twice.
  abbrev pub IsMap : List (Text × V) → Type ℓ
  IsMap [] = Unit
  IsMap ((k, v) ∷ m) = (lookup k m ≡ none) × IsMap m

  pub lookup-insert :
      (k j : Text) (v : V) (m : List (Text × V))
      → lookup j (insert k v m) ≡ (if text_eq k j then some v else lookup j m)
  lookup-insert k j v [] = refl
  lookup-insert k j v ((i, w) ∷ m) = elim (Bool-cases (text_eq i k)) [
    | inl e ↦ rw (text_eq→eq i k e) (ground (arith, text_eq_self k))
    | inr e ↦ elim (Bool-cases (text_eq i j)) [
      | inl e' ↦ rw (sym (text_eq→eq i j e')) (elim (Bool-cases (text_eq k i)) [
        | inl e'' ↦ absurd (differ i k e e'')
        | inr e'' ↦ rw (e, e'', text_eq_self i) refl
      ])
      | inr e' ↦ ground (arith, lookup-insert k j v m)
    ]
  ]

  pub lookup-remove :
      (k j : Text) (m : List (Text × V))
      → lookup j (remove k m) ≡ (if text_eq k j then none else lookup j m)
  lookup-remove k j [] = ground arith
  lookup-remove k j ((i, w) ∷ m) = elim (Bool-cases (text_eq i k)) [
    | inl e ↦ rw (text_eq→eq i k e) (ground (arith, text_eq_self k, lookup-remove k j m))
    | inr e ↦ elim (Bool-cases (text_eq i j)) [
      | inl e' ↦ rw (sym (text_eq→eq i j e')) (elim (Bool-cases (text_eq k i)) [
        | inl e'' ↦ absurd (differ i k e e'')
        | inr e'' ↦ rw (e, e'', text_eq_self i) refl
      ])
      | inr e' ↦ ground (arith, lookup-remove k j m)
    ]
  ]

  pub insert-IsMap : (k : Text) (v : V) (m : List (Text × V)) → IsMap m → IsMap (insert k v m)
  insert-IsMap k v [] h = (refl, tt)
  insert-IsMap k v ((j, w) ∷ m) h = elim (Bool-cases (text_eq j k)) [
    | inl e ↦ rw e (subst (λ t. lookup t m ≡ none) (text_eq→eq j k e) h.0, h.1)
    | inr e ↦
        rw e (rw (lookup-insert k j v m) (rw (text_eq_sym_false j k e) h.0), insert-IsMap k v m h.1)
  ]

  pub remove-IsMap : (k : Text) (m : List (Text × V)) → IsMap m → IsMap (remove k m)
  remove-IsMap k [] h = tt
  remove-IsMap k ((j, w) ∷ m) h = elim (Bool-cases (text_eq j k)) [
    | inl e ↦ rw e (remove-IsMap k m h.1)
    | inr e ↦
        rw e (rw (lookup-remove k j m) (rw (text_eq_sym_false j k e) h.0), remove-IsMap k m h.1)
  ]

  pub insert-All {κ} :
      (P : Text × V → Type κ) (k : Text) (v : V) (m : List (Text × V))
      → P (k, v)
      → All P m
      → All P (insert k v m)
  insert-All P k v [] p h = (p, tt)
  insert-All P k v ((j, w) ∷ m) p h = elim (Bool-cases (text_eq j k)) [
    | inl e ↦ rw e (p, h.1)
    | inr e ↦ rw e (h.0, insert-All P k v m p h.1)
  ]

  pub remove-All {κ} :
      (P : Text × V → Type κ) (k : Text) (m : List (Text × V)) → All P m → All P (remove k m)
  remove-All P k [] h = tt
  remove-All P k ((j, w) ∷ m) h = elim (Bool-cases (text_eq j k)) [
    | inl e ↦ rw e (remove-All P k m h.1)
    | inr e ↦ rw e (h.0, remove-All P k m h.1)
  ]
