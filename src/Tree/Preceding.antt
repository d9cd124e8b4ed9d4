-- ===== src/Tree/Preceding.antt =====
-- The order of the paths of a torrent.
use zerem.Prelude.{
  Bool, true, false, not, ◌&&◌, List, [], ◌∷◌, ◌≡◌, ◌≢◌, ◌⊎◌, refl, arith, Bool-cases, inl, inr,
  is_nil, subst, sym, ◌∙◌,
}
use zerem.Prelude.Text.{Text, text_eq, text_eq→eq, text_eq_self, text_ltb}
use zerem.Tree.{is_gt, before_name, before_parts}

text_ltb_irrefl : (s : Text) → text_ltb s s ≡ false
text_ltb_irrefl [] = refl
text_ltb_irrefl (a ∷ s) = ground (arith, text_ltb_irrefl s)

text_ltb_trans : (s t u : Text) → text_ltb s t ≡ true → text_ltb t u ≡ true → text_ltb s u ≡ true
text_ltb_trans s t [] h k = cc
text_ltb_trans s [] (c ∷ u) h k = cc
text_ltb_trans [] (b ∷ t) (c ∷ u) h k = refl
text_ltb_trans (a ∷ s) (b ∷ t) (c ∷ u) h k = ground (arith, text_ltb_trans s t u)

text_ltb_connected : (s t : Text) → text_ltb s t ≡ false → text_ltb t s ≡ false → s ≡ t
text_ltb_connected [] [] h k = refl
text_ltb_connected [] (b ∷ t) h k = cc
text_ltb_connected (a ∷ s) [] h k = cc
text_ltb_connected (a ∷ s) (b ∷ t) h k =
    let same_head : a ≡ b = ground arith in
    let low : text_ltb s t ≡ false = ground arith in
    let high : text_ltb t s ≡ false = ground arith in
    cc (same_head, text_ltb_connected s t low high)

module _ (lower : Text → Text) where
  -- One name comes before another: by the folded names, and by the names where those are equal.
  abbrev pub IsBelow : Text → Text → Type 0
  IsBelow x y =
      (text_ltb (lower x) (lower y) ≡ true) ⊎ ((lower x ≡ lower y) × (text_ltb x y ≡ true))

  -- A folder comes before a file, and two folders or two files stand by their names.
  abbrev pub IsAhead : Text → Bool → Text → Bool → Type 0
  IsAhead x x_folder y y_folder =
      ((x_folder ≡ true) × (y_folder ≡ false)) ⊎ ((x_folder ≡ y_folder) × IsBelow x y)

  -- The first parts that differ decide, where a part that is not the last is a folder.
  abbrev pub Precedes : List Text → List Text → Type 0
  Precedes [] right = Unit
  Precedes (x ∷ left) [] = true ≡ false
  Precedes (x ∷ left) (y ∷ right) =
      ((x ≡ y) × Precedes left right)
      ⊎ ((x ≢ y) × IsAhead x (not (is_nil left)) y (not (is_nil right)))

  IsBelow-trans : (x y z : Text) → IsBelow x y → IsBelow y z → IsBelow x z
  IsBelow-trans x y z (inl h) (inl k) = inl (text_ltb_trans (lower x) (lower y) (lower z) h k)
  IsBelow-trans x y z (inl h) (inr (e, k)) = inl (rw (sym e) h)
  IsBelow-trans x y z (inr (e, h)) (inl k) = inl (rw e k)
  IsBelow-trans x y z (inr (e, h)) (inr (e', k)) = inr (cc, text_ltb_trans x y z h k)

  IsBelow-irrefl : (x : Text) → IsBelow x x → true ≡ false
  IsBelow-irrefl x (inl h) = let no = text_ltb_irrefl (lower x) in cc
  IsBelow-irrefl x (inr (e, h)) = let no = text_ltb_irrefl x in cc

  IsAhead-trans :
      (x y z : Text) (p q r : Bool) → IsAhead x p y q → IsAhead y q z r → IsAhead x p z r
  IsAhead-trans x y z p q r (inl (h, k)) (inl (h', k')) = inl (h, k')
  IsAhead-trans x y z p q r (inl (h, k)) (inr (e, b)) = inl (h, cc)
  IsAhead-trans x y z p q r (inr (e, b)) (inl (h, k)) = inl (cc, k)
  IsAhead-trans x y z p q r (inr (e, b)) (inr (e', b')) = inr (cc, IsBelow-trans x y z b b')

  IsAhead-irrefl : (x : Text) (p : Bool) → IsAhead x p x p → true ≡ false
  IsAhead-irrefl x p (inl (h, k)) = cc
  IsAhead-irrefl x p (inr (e, b)) = IsBelow-irrefl x b

  name-IsBelow :
      (x y : Text) → x ≢ y → is_gt (before_name lower x true y true) ≡ false → IsBelow x y
  name-IsBelow x y ne h = elim (Bool-cases (text_ltb (lower x) (lower y))) [
    | inl lt ↦ inl lt
    | inr ge ↦ elim (Bool-cases (text_ltb (lower y) (lower x))) [
      | inl gt ↦ let no = rw (ge, gt) at h in cc
      | inr le ↦ elim (Bool-cases (text_ltb x y)) [
        | inl lt ↦ inr (text_ltb_connected (lower x) (lower y) ge le, lt)
        | inr ge' ↦ elim (Bool-cases (text_ltb y x)) [
          | inl gt ↦ let no = rw (ge, le, ge', gt) at h in cc
          | inr le' ↦ absurd (ne (text_ltb_connected x y ge' le'))
        ]
      ]
    ]
  ]

  name-IsBelow_flip : (x y : Text) → is_gt (before_name lower x true y true) ≡ true → IsBelow y x
  name-IsBelow_flip x y h = elim (Bool-cases (text_ltb (lower x) (lower y))) [
    | inl lt ↦ let no = rw lt at h in cc
    | inr ge ↦ elim (Bool-cases (text_ltb (lower y) (lower x))) [
      | inl gt ↦ inl gt
      | inr le ↦ elim (Bool-cases (text_ltb x y)) [
        | inl lt ↦ let no = rw (ge, le, lt) at h in cc
        | inr ge' ↦ elim (Bool-cases (text_ltb y x)) [
          | inl gt ↦ inr (sym (text_ltb_connected (lower x) (lower y) ge le), gt)
          | inr le' ↦ let no = rw (ge, le, ge', le') at h in cc
        ]
      ]
    ]
  ]

  name-IsAhead :
      (x y : Text) (p q : Bool)
      → x ≢ y
      → is_gt (before_name lower x p y q) ≡ false
      → IsAhead x p y q
  name-IsAhead x y true true ne h = inr (refl, name-IsBelow x y ne h)
  name-IsAhead x y true false ne h = inl (refl, refl)
  name-IsAhead x y false true ne h = cc
  name-IsAhead x y false false ne h = inr (refl, name-IsBelow x y ne h)

  name-IsAhead_flip :
      (x y : Text) (p q : Bool) → is_gt (before_name lower x p y q) ≡ true → IsAhead y q x p
  name-IsAhead_flip x y true true h = inr (refl, name-IsBelow_flip x y h)
  name-IsAhead_flip x y true false h = cc
  name-IsAhead_flip x y false true h = inl (refl, refl)
  name-IsAhead_flip x y false false h = inr (refl, name-IsBelow_flip x y h)

  text_ne : (x y : Text) → text_eq x y ≡ false → x ≢ y
  text_ne x y differ e =
      let self = text_eq_self x in let other = subst (λ t. text_eq x t ≡ false) (sym e) differ in cc

  -- Where the comparison does not say greater, the first path precedes the second.
  pub parts-Precedes :
      (left right : List Text) → is_gt (before_parts lower left right) ≡ false → Precedes left right
  unfolding before_parts
  parts-Precedes [] right h = tt
  parts-Precedes (x ∷ left) [] h = h
  parts-Precedes (x ∷ left) (y ∷ right) h = elim (Bool-cases (text_eq x y)) [
    | inl same ↦ inl (text_eq→eq x y same, parts-Precedes left right (rw same at h))
    | inr differ ↦
        let ne = text_ne x y differ in
        inr (ne, name-IsAhead x y (not (is_nil left)) (not (is_nil right)) ne (rw differ at h))
  ]

  -- Where it says greater, the second path precedes the first.
  pub parts-Follows :
      (left right : List Text) → is_gt (before_parts lower left right) ≡ true → Precedes right left
  unfolding before_parts
  parts-Follows [] [] h = tt
  parts-Follows [] (y ∷ right) h = cc
  parts-Follows (x ∷ left) [] h = tt
  parts-Follows (x ∷ left) (y ∷ right) h = elim (Bool-cases (text_eq x y)) [
    | inl same ↦ inl (sym (text_eq→eq x y same), parts-Follows left right (rw same at h))
    | inr differ ↦ inr (
      λ e. text_ne x y differ (sym e),
      name-IsAhead_flip x y (not (is_nil left)) (not (is_nil right)) (rw differ at h),
    )
  ]

-- The parts of one path are the first of another's, which has more.
abbrev pub is_above : List Text → List Text → Bool
is_above [] [] = false
is_above [] (y ∷ right) = true
is_above (x ∷ left) [] = false
is_above (x ∷ left) (y ∷ right) = text_eq x y && is_above left right

-- Neither path is a folder of the other.
abbrev pub Apart : List Text → List Text → Type 0
Apart left right = (is_above left right ≡ false) × (is_above right left ≡ false)

above_tail :
    (x y : Text) (left right : List Text)
    → x ≡ y
    → is_above (x ∷ left) (y ∷ right) ≡ false
    → is_above left right ≡ false
above_tail x y left right e h =
    let one : text_eq x y ≡ true = subst (λ t. text_eq x t ≡ true) e (text_eq_self x) in rw one at h

Apart-tail :
    (x y : Text) (left right : List Text) → x ≡ y → Apart (x ∷ left) (y ∷ right) → Apart left right
Apart-tail x y left right e (down, up) =
    (above_tail x y left right e down, above_tail y x right left (sym e) up)

-- Paths that are apart end together.
Apart-nil : (left right : List Text) → Apart left right → is_nil left ≡ is_nil right
Apart-nil [] [] h = refl
Apart-nil [] (y ∷ right) h = cc
Apart-nil (x ∷ left) [] h = cc
Apart-nil (x ∷ left) (y ∷ right) h = refl

module _ (lower : Text → Text) where
  -- Among paths of which none is a folder of another, the order is transitive.
  pub Precedes-trans :
      (a b c : List Text)
      → Apart a b
      → Apart b c
      → Apart a c
      → Precedes lower a b
      → Precedes lower b c
      → Precedes lower a c
  Precedes-trans [] b c ab bc ac h k = tt
  Precedes-trans (x ∷ a) [] c ab bc ac h k = cc
  Precedes-trans (x ∷ a) (y ∷ b) [] ab bc ac h k = k
  Precedes-trans (x ∷ a) (y ∷ b) (z ∷ c) ab bc ac (inl (e, h)) (inl (e', k)) = inl (
    e ∙ e',
    Precedes-trans a b c (Apart-tail x y a b e ab) (Apart-tail y z b c e' bc)
        (Apart-tail x z a c (e ∙ e') ac) h k,
  )
  Precedes-trans (x ∷ a) (y ∷ b) (z ∷ c) ab bc ac (inl (e, h)) (inr (ne, k)) =
      let flags = Apart-nil a b (Apart-tail x y a b e ab) in
      inr (λ e'. ne (sym e ∙ e'), rw (e, flags) k)
  Precedes-trans (x ∷ a) (y ∷ b) (z ∷ c) ab bc ac (inr (ne, h)) (inl (e, k)) =
      let flags = Apart-nil b c (Apart-tail y z b c e bc) in
      inr (λ e'. ne (e' ∙ sym e), rw (sym e, sym flags) h)
  Precedes-trans (x ∷ a) (y ∷ b) (z ∷ c) ab bc ac (inr (ne, h)) (inr (ne', k)) =
      let far = IsAhead-trans lower x y z (not (is_nil a)) (not (is_nil b)) (not (is_nil c)) h k in
      inr (
        λ e.
            let flags = Apart-nil a c (Apart-tail x z a c e ac) in
            let round : IsAhead lower x (not (is_nil a)) x (not (is_nil a)) =
              rw (sym e, sym flags) at far in
            let no = IsAhead-irrefl lower x (not (is_nil a)) round in cc,
        far,
      )
