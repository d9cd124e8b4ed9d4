-- ===== src/Prelude/Sorting.antt =====
-- The sorts of the standard library, by a Boolean `le` that is read as "may stand before".
use mathlib.Core.Path.{◌≡◌, refl}
use mathlib.Core.Logic.{◌⊎◌, inl, inr}
use mathlib.Core.Bool.{Bool, true, false}
use mathlib.Core.List.{List, [], ◌∷◌, Perm}
use mathlib.Core.List.Perm
use zerem.Prelude.Tests.{if◌then◌else◌, Bool-cases}
use native.Mathlib.Omega.{arith}
use zerem.Prelude.Lists.{All, All-keep, keep, length}

-- Every element stands in a relation to all that follow it.
abbrev pub IsOrdered {ℓ} : {A : Type ℓ} → (A → A → Type 0) → List A → Type 0
IsOrdered R [] = Unit
IsOrdered R (x ∷ xs) = All (R x) xs × IsOrdered R xs

module _ {ℓ} {A : Type ℓ} (le : A → A → Bool) where
  pub insert : A → List A → List A
  insert a [] = a ∷ []
  insert a (x ∷ xs) = if le a x then a ∷ x ∷ xs else x ∷ insert a xs

  unfoldable pub sort : List A → List A
  unfolding insert
  sort [] = []
  sort (x ∷ xs) = insert x (sort xs)

  -- Every element may stand before all that follow it.
  abbrev pub IsSorted : List A → Type 0
  IsSorted [] = Unit
  IsSorted (x ∷ xs) = All (λ y. le x y ≡ true) xs × IsSorted xs

  insert-perm : (a : A) (xs : List A) → Perm (insert a xs) (a ∷ xs)
  unfolding insert
  insert-perm a [] = Perm.refl _
  insert-perm a (x ∷ xs) = elim (Bool-cases (le a x)) [
    | inl e ↦ rw e (Perm.refl _)
    | inr e ↦ rw e (Perm.trans (Perm.cons x (insert-perm a xs)) (Perm.swap a x xs))
  ]

  pub sort-perm : (xs : List A) → Perm (sort xs) xs
  unfolding sort
  sort-perm [] = Perm.refl _
  sort-perm (x ∷ xs) = Perm.trans (insert-perm x (sort xs)) (Perm.cons x (sort-perm xs))

  insert-All {κ} : (P : A → Type κ) (a : A) (xs : List A) → P a → All P xs → All P (insert a xs)
  unfolding insert
  insert-All P a [] pa h = (pa, tt)
  insert-All P a (x ∷ xs) pa h = elim (Bool-cases (le a x)) [
    | inl e ↦ rw e (pa, h)
    | inr e ↦ rw e (h.0, insert-All P a xs pa h.1)
  ]

  pub sort-All {κ} : (P : A → Type κ) (xs : List A) → All P xs → All P (sort xs)
  unfolding sort
  sort-All P [] h = tt
  sort-All P (x ∷ xs) h = insert-All P x (sort xs) h.0 (sort-All P xs h.1)

  length-keep-insert :
      (p : A → Bool) (a : A) (xs : List A)
      → length (keep p (insert a xs)) ≡ length (keep p (a ∷ xs))
  unfolding insert
  length-keep-insert p a [] = refl
  length-keep-insert p a (x ∷ xs) = ground (arith, length-keep-insert p a xs)

  -- A sort keeps how many elements pass a test.
  pub length-keep-sort :
      (p : A → Bool) (xs : List A) → length (keep p (sort xs)) ≡ length (keep p xs)
  unfolding sort
  length-keep-sort p [] = refl
  length-keep-sort p (x ∷ xs) =
      ground (arith, length-keep-insert p x (sort xs), length-keep-sort p xs)

  module _ (total : (a b : A) → (le a b ≡ true) ⊎ (le b a ≡ true))
      (le_trans : (a b c : A) → le a b ≡ true → le b c ≡ true → le a c ≡ true) where
    All-le_trans :
        (a x : A) (xs : List A)
        → le a x ≡ true
        → All (λ y. le x y ≡ true) xs
        → All (λ y. le a y ≡ true) xs
    All-le_trans a x [] h t = tt
    All-le_trans a x (y ∷ ys) h t = (le_trans a x y h t.0, All-le_trans a x ys h t.1)

    before_of_not : (a x : A) → le a x ≡ false → le x a ≡ true
    before_of_not a x e = elim (total a x) [ inl h ↦ cc | inr h ↦ h ]

    insert-IsSorted : (a : A) (xs : List A) → IsSorted xs → IsSorted (insert a xs)
    unfolding insert
    insert-IsSorted a [] h = (tt, tt)
    insert-IsSorted a (x ∷ xs) h = elim (Bool-cases (le a x)) [
      | inl e ↦ rw e ((e, All-le_trans a x xs e h.0), h)
      | inr e ↦
          rw e (
            insert-All (λ y. le x y ≡ true) a xs (before_of_not a x e) h.0,
            insert-IsSorted a xs h.1,
          )
    ]

    pub sort-IsSorted : (xs : List A) → IsSorted (sort xs)
    unfolding sort
    sort-IsSorted [] = tt
    sort-IsSorted (x ∷ xs) = insert-IsSorted x (sort xs) (sort-IsSorted xs)

  -- A sort is in the order of any relation that the test decides one way or the other, and that is
  -- transitive among the elements at hand.
  module _ (R : A → A → Type 0) (P : A → Type 0) (before : (a b : A) → le a b ≡ true → R a b)
      (after : (a b : A) → le a b ≡ false → R b a)
      (R_trans : (a b c : A) → P a → P b → P c → R a b → R b c → R a c) where
    All-R_trans :
        (a x : A) (xs : List A) → P a → P x → All P xs → R a x → All (R x) xs → All (R a) xs
    All-R_trans a x [] pa px h r t = tt
    All-R_trans a x (y ∷ ys) pa px h r t =
        (R_trans a x y pa px h.0 r t.0, All-R_trans a x ys pa px h.1 r t.1)

    insert-IsOrdered :
        (a : A) (xs : List A) → P a → All P xs → IsOrdered R xs → IsOrdered R (insert a xs)
    unfolding insert
    insert-IsOrdered a [] pa h o = (tt, tt)
    insert-IsOrdered a (x ∷ xs) pa h o = elim (Bool-cases (le a x)) [
      | inl e ↦ rw e ((before a x e, All-R_trans a x xs pa h.0 h.1 (before a x e) o.0), o)
      | inr e ↦ rw e (insert-All (R x) a xs (after a x e) o.0, insert-IsOrdered a xs pa h.1 o.1)
    ]

    pub sort-IsOrdered : (xs : List A) → All P xs → IsOrdered R (sort xs)
    unfolding sort
    sort-IsOrdered [] h = tt
    sort-IsOrdered (x ∷ xs) h =
        insert-IsOrdered x (sort xs) h.0 (sort-All P xs h.1) (sort-IsOrdered xs h.1)

  -- What is in order already stays as it is.
  pub sort-sorted : (xs : List A) → IsSorted xs → sort xs ≡ xs
  unfolding sort
  sort-sorted [] h = refl
  sort-sorted (x ∷ xs) h = rw (sort-sorted xs h.1) (insert-first x xs h.0)
    where
      insert-first : (x : A) (xs : List A) → All (λ y. le x y ≡ true) xs → insert x xs ≡ x ∷ xs
      insert-first x [] h = refl
      insert-first x (y ∷ ys) h = rw h.0 refl

  pub keep-IsSorted : (p : A → Bool) (xs : List A) → IsSorted xs → IsSorted (keep p xs)
  keep-IsSorted p [] h = tt
  keep-IsSorted p (x ∷ xs) h = elim (Bool-cases (p x)) [
    | inl e ↦ rw e (All-keep (λ y. le x y ≡ true) p xs h.0, keep-IsSorted p xs h.1)
    | inr e ↦ rw e (keep-IsSorted p xs h.1)
  ]
