-- ===== src/Window/Drawing.antt =====
-- What the table draws after a snapshot.
use mathlib.Core.Logic.{ite}
use zerem.Prelude.{
  ℕ, ◌+◌, ◌<◌, Bool, true, false, not, List, [], ◌∷◌, length, keep, All, leb, ◌==◌, ◌≡◌, ◌≢◌, ◌⊎◌,
  inl, inr, refl, sym, ap, subst, ◌∙◌, arith, Bool-cases, ==→eq,
}
use zerem.Torrent.{TorrentRow}
use zerem.Snapshot.{Snapshot}
use zerem.Table.{
  Drawn, Row-discrete, same_bool, is_drawn, row_at, has, draw, diff, rebuild, apply_rows,
}
use zerem.Window.{Guess, UiState}
use zerem.Window.Acting.{settle, guessed, going, apply}

-- From a place on, two tables differ at these places and at no others.
abbrev pub Changed : ℕ → List Drawn → List Drawn → List ℕ → Type 0
Changed i (x ∷ xs) (y ∷ ys) dirty =
    ((x ≡ y) × Changed (i + 1) xs ys dirty)
    ⊎ ((x ≢ y) × ((rest : List ℕ) × (dirty ≡ i ∷ rest) × Changed (i + 1) xs ys rest))
Changed i _ _ dirty = dirty ≡ []

same_bool_refl : (b : Bool) → same_bool b b ≡ true
same_bool_refl true = refl
same_bool_refl false = refl

same_bool→eq : (a b : Bool) → same_bool a b ≡ true → a ≡ b
same_bool→eq true true h = refl
same_bool→eq true false h = cc
same_bool→eq false true h = cc
same_bool→eq false false h = refl

is_drawn→eq : (x y : Drawn) → is_drawn x y ≡ true → x ≡ y
unfolding is_drawn
is_drawn→eq x y h = rows_same (Row-discrete x.src y.src) h
  where
    rows_same :
        (d : Dec (x.src ≡ y.src)) → ite d (same_bool x.selected y.selected) false ≡ true → x ≡ y
    rows_same (yes e) h = let marks = same_bool→eq x.selected y.selected h in cc
    rows_same (no n) h = cc

is_drawn_refl : (x : Drawn) → is_drawn x x ≡ true
unfolding is_drawn
is_drawn_refl x = rows_same (Row-discrete x.src x.src)
  where
    rows_same : (d : Dec (x.src ≡ x.src)) → ite d (same_bool x.selected x.selected) false ≡ true
    rows_same (yes e) = same_bool_refl x.selected
    rows_same (no n) = absurd (n refl)

is_drawn-false : (x y : Drawn) → is_drawn x y ≡ false → x ≢ y
is_drawn-false x y h e = let same = subst (λ t. is_drawn x t ≡ true) e (is_drawn_refl x) in cc

-- The rows drawn anew are those of a list made from nothing, and the places told are those that changed.
diff-rebuild :
    (rows : List TorrentRow) (selected : List ℕ) (i : ℕ) (entries : List Drawn) (order : List ℕ)
    → length entries ≡ length order
    → ((diff rows selected i entries order).0 ≡ rebuild rows selected order)
      × Changed i entries (rebuild rows selected order) (diff rows selected i entries order).1
unfolding diff rebuild
diff-rebuild rows selected i [] [] h = (refl, refl)
diff-rebuild rows selected i [] (at ∷ order) h = absurd (omega arith)
diff-rebuild rows selected i (old ∷ entries) [] h = absurd (omega arith)
diff-rebuild rows selected i (old ∷ entries) (at ∷ order) h =
    let (same, told) = diff-rebuild rows selected (i + 1) entries order (omega arith) in
    elim (Bool-cases (is_drawn old (draw rows selected at))) [
      | inl e ↦
          let kept = is_drawn→eq old (draw rows selected at) e in
          rw (e, diff) (cc, inl (kept, told))
      | inr e ↦
          rw (e, diff)
            (
              cc,
              inr (
                is_drawn-false old (draw rows selected at) e,
                ((diff rows selected (i + 1) entries order).1, refl, told),
              ),
            )
    ]

-- The table comes to what it would be if it was made from nothing, and the view is told either that the
-- list is new, or of each row that changed and of no other.
apply_rows-rebuild :
    (rows : List TorrentRow) (order selected : List ℕ) (entries : List Drawn)
    → ((apply_rows rows order selected entries).0 ≡ rebuild rows selected order)
      × (((apply_rows rows order selected entries).1.reset ≡ true)
          ⊎ Changed 0 entries
              (apply_rows rows order selected entries).0
              (apply_rows rows order selected entries).1.dirty)
unfolding apply_rows
apply_rows-rebuild rows order selected entries =
    elim (Bool-cases (length entries == length order)) [
      | inl e ↦
          let (same, told) =
            diff-rebuild rows selected 0 entries order (==→eq (length entries) (length order) e) in
          rw (e, apply_rows)
            (
              same,
              inr (
                  subst (λ t. Changed 0 entries t (diff rows selected 0 entries order).1) (sym same)
                    told),
            )
      | inr e ↦ rw (e, apply_rows) (refl, inl refl)
    ]

answered :
    (seq : ℕ) (pending : List (ℕ × Guess))
    → All (λ p. p.1.seq < seq) pending
    → keep (λ p. leb seq p.1.seq) pending ≡ []
answered seq [] h = refl
answered seq (p ∷ pending) h =
    let off : leb seq p.1.seq ≡ false = ground arith in rw off (answered seq pending h.1)

none_going :
    (rows : List TorrentRow) (order : List ℕ)
    → keep (λ i. not (has [] (row_at rows i).id)) order ≡ order
none_going rows [] = refl
none_going rows (at ∷ order) = ap (λ t. at ∷ t) (none_going rows order)

-- The first snapshot behind every command that was sent is drawn as it is: each row of the table is the
-- snapshot's, in the order kept, marked by the selection, and the view is told that the list is new or
-- which rows changed. No guess is left.
pub apply-rebuild :
    (snapshot : Snapshot) (s : UiState)
    → All (λ p. p.1.seq < snapshot.seq) s.pending
    → ((apply snapshot s).0.model ≡ rebuild snapshot.torrents s.selected s.order)
      × ((apply snapshot s).0.pending ≡ [])
      × (((apply snapshot s).1.reset ≡ true)
          ⊎ Changed 0 s.model (apply snapshot s).0.model (apply snapshot s).1.dirty)
unfolding apply settle guessed
apply-rebuild snapshot s h =
    let rows = snapshot.torrents in
    let cleared = answered snapshot.seq s.pending h in
    let drawn = λ (p : List (ℕ × Guess)).
      apply_rows (guessed p rows)
        (keep (λ i. not (has (going p) (row_at (guessed p rows) i).id)) s.order) s.selected
        s.model in
    let plain : drawn (settle snapshot s).pending ≡ apply_rows rows s.order s.selected s.model =
      ap drawn cleared ∙ ap (λ o. apply_rows rows o s.selected s.model) (none_going rows s.order) in
    let (model, told) =
      subst
        (λ r.
          (r.0 ≡ rebuild rows s.selected s.order)
          × ((r.1.reset ≡ true) ⊎ Changed 0 s.model r.0 r.1.dirty))
        (sym plain) (apply_rows-rebuild rows s.order s.selected s.model) in
    (model, cleared, told)
