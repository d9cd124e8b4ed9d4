-- ===== src/Window/Narrowing.antt =====
-- What narrowing the view does to the selection.
use zerem.Prelude.{
  ℕ, zero, suc, ◌+◌, ◌<◌, Bool, true, false, List, [], ◌∷◌, length, map, keep, keep-All, All,
  range_from, ◌==◌, ◌≡◌, inl, inr, refl, arith, Bool-cases, ==→eq,
}
use zerem.Prelude.Sorting.{sort-All}
use zerem.Prelude.Text.{Text}
use zerem.Snapshot.{Snapshot}
use zerem.View.{Shown, filter_new, shown_matches, order, at_index}
use zerem.Table.{has, row_at}
use zerem.Window.{
  UiState, shows_state, shows_category, shows_text, rebuild_order, visible, set_filter, set_shown,
}

keep_out : (p : ℕ → Bool) (xs : List ℕ) (at : ℕ) → p at ≡ false → has (keep p xs) at ≡ false
keep_out p [] at h = refl
keep_out p (x ∷ xs) at h = elim (Bool-cases (p x)) [
  | inr e ↦ rw e (keep_out p xs at h)
  | inl e ↦ elim (Bool-cases (x == at)) [
    | inl same ↦ let here = ==→eq x at same in cc
    | inr other ↦ rw e (rw other (keep_out p xs at h))
  ]
]

keep_absent : (p : ℕ → Bool) (xs : List ℕ) (at : ℕ) → has xs at ≡ false → has (keep p xs) at ≡ false
keep_absent p [] at h = refl
keep_absent p (x ∷ xs) at h = ground (arith, keep_absent p xs at)

range-All : (start n limit : ℕ) → start + n ≡ limit → All (λ i. i < limit) (range_from start n)
range-All start zero limit h = tt
range-All start (suc n) limit h = (omega arith, range-All (start + 1) n limit (omega arith))

-- A row of the snapshot that the view shows has this id.
pub record IsVisible (lower : Text → Text) (snapshot : Snapshot) (s : UiState) (id : ℕ)
    : Type 0 where
  pub at : ℕ
  pub inside : at < length snapshot.torrents
  pub same : (row_at snapshot.torrents at).id ≡ id
  pub state : shows_state lower s (row_at snapshot.torrents at) ≡ true
  pub shelf : shows_category lower s (row_at snapshot.torrents at) ≡ true
  pub words : shows_text lower s (row_at snapshot.torrents at) ≡ true

module _ (lower : Text → Text) (snapshot : Snapshot) (s : UiState) where
  sorted_inside : All (λ i. i < length snapshot.torrents) (order snapshot.torrents s.sort)
  unfolding order
  sorted_inside =
      sort-All (at_index snapshot.torrents s.sort) (λ i. i < length snapshot.torrents)
        (range_from 0 (length snapshot.torrents))
        (range-All 0 (length snapshot.torrents) (length snapshot.torrents) (omega arith))

-- Three filters one after the other.
three_filters :
    (P : ℕ → Type 0) (a b c : ℕ → Bool) (xs : List ℕ)
    → All P xs
    → All (λ i. P i × (a i ≡ true) × (b i ≡ true) × (c i ≡ true)) (keep c (keep b (keep a xs)))
three_filters P a b c [] h = tt
three_filters P a b c (x ∷ xs) h = elim (Bool-cases (a x)) [
  | inr e ↦ rw e (three_filters P a b c xs h.1)
  | inl e ↦ elim (Bool-cases (b x)) [
    | inr f ↦ rw e (rw f (three_filters P a b c xs h.1))
    | inl f ↦ elim (Bool-cases (c x)) [
      | inr g ↦ rw e (rw f (rw g (three_filters P a b c xs h.1)))
      | inl g ↦ rw e (rw f (rw g ((h.0, e, f, g), three_filters P a b c xs h.1)))
    ]
  ]
]

found :
    (P : ℕ → Type 0) (f : ℕ → ℕ) (id : ℕ) (xs : List ℕ)
    → All P xs
    → has (map f xs) id ≡ true
    → (at : ℕ) × P at × (f at ≡ id)
found P f id [] h there = cc
found P f id (x ∷ xs) h there = elim (Bool-cases (f x == id)) [
  | inl e ↦ (x, h.0, ==→eq (f x) id e)
  | inr e ↦ found P f id xs h.1 (rw e at there)
]

visible-IsVisible :
    (lower : Text → Text) (snapshot : Snapshot) (s : UiState) (id : ℕ)
    → has (visible lower snapshot (rebuild_order lower snapshot s)) id ≡ true
    → IsVisible lower snapshot (rebuild_order lower snapshot s) id
unfolding rebuild_order visible shows_state shows_category shows_text
visible-IsVisible lower snapshot s id there =
    let rows = snapshot.torrents in
    let (at, (inside, by_state, by_shelf, by_words), same) =
      found _ (λ i. (row_at rows i).id) id (rebuild_order lower snapshot s).order
        (three_filters (λ i. i < length rows) (λ i. shows_state lower s (row_at rows i))
          (λ i. shows_category lower s (row_at rows i)) (λ i. shows_text lower s (row_at rows i))
          (order rows s.sort) (sorted_inside lower snapshot s))
        there in
    record {
      at = at;
      inside = inside;
      same = same;
      state = by_state;
      shelf = by_shelf;
      words = by_words;
    }

weaken_All : {P Q : ℕ → Type 0} (xs : List ℕ) → ((x : ℕ) → P x → Q x) → All P xs → All Q xs
weaken_All [] f h = tt
weaken_All (x ∷ xs) f h = (f x h.0, weaken_All xs f h.1)

-- After a search no torrent is selected that the list does not show: each selected one is a row of the
-- snapshot that the state, the shelf and the words let through.
pub set_filter-IsVisible :
    (lower : Text → Text) (query : Text) (snapshot : Snapshot) (s : UiState)
    → All
        (IsVisible lower snapshot (set_filter lower query snapshot s))
        (set_filter lower query snapshot s).selected
unfolding set_filter visible shows_state shows_category shows_text
set_filter-IsVisible lower query snapshot s =
    let narrowed = record s { filter = filter_new lower query } in
    weaken_All (set_filter lower query snapshot s).selected
      (λ id there. same_filters id (visible-IsVisible lower snapshot narrowed id there))
      (keep-All (has (visible lower snapshot (rebuild_order lower snapshot narrowed))) s.selected)
  where
    same_filters :
        (id : ℕ)
        → IsVisible lower snapshot
            (rebuild_order lower snapshot (record s { filter = filter_new lower query }))
            id
        → IsVisible lower snapshot (set_filter lower query snapshot s) id
    same_filters id v = record {
      at = v.at;
      inside = v.inside;
      same = v.same;
      state = v.state;
      shelf = v.shelf;
      words = v.words;
    }

-- A choice of a state to show leaves the selection alone: a selected torrent whose state it hides is no
-- longer in the list and stays selected.
pub set_shown-hidden :
    (lower : Text → Text) (shown : Shown) (snapshot : Snapshot) (s : UiState) (at : ℕ)
    → shown_matches shown (row_at snapshot.torrents at).state ≡ false
    → has s.selected (row_at snapshot.torrents at).id ≡ true
    → (has (set_shown lower shown snapshot s).order at ≡ false)
      × (has (set_shown lower shown snapshot s).selected (row_at snapshot.torrents at).id ≡ true)
unfolding set_shown rebuild_order shows_state
set_shown-hidden lower shown snapshot s at hidden chosen =
    let s' = record s { shown = shown } in
    let rows = snapshot.torrents in
    let by_state = λ (i : ℕ). shows_state lower s' (row_at rows i) in
    let by_shelf = λ (i : ℕ). shows_category lower s' (row_at rows i) in
    let sorted = order rows s.sort in
    (
      keep_absent (λ i. shows_text lower s' (row_at rows i)) (keep by_shelf (keep by_state sorted))
          at (keep_absent by_shelf (keep by_state sorted) at (keep_out by_state sorted at hidden)),
      chosen,
    )
