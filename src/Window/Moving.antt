-- ===== src/Window/Moving.antt =====
-- Where the arrow keys land.
use zerem.Prelude.{
  ℕ, ◌-◌, ◌≤◌, ◌<◌, Bool, false, some, [], ◌∷◌, length, get_elem?-total, ltb, ◌≡◌, inl, inr, refl,
  subst, arith, Bool-cases, Option-cases,
}
use zerem.Prelude.Int.{ℤ, pos, negsuc}
use zerem.Table.{id_at}
use zerem.Window.{UiState}
use zerem.Window.Acting.{shifted, focus_row, select, focus_to, move_focus}

shifted-le : (current : ℕ) (delta : ℤ) (last : ℕ) → shifted current delta last ≤ last
shifted-le current (pos d) last = omega arith
shifted-le current (negsuc d) last = omega arith

-- A row of the table has the keyboard, and without shift it alone is selected.
abbrev pub Lands : UiState → Bool → UiState → ℕ → Type 0
Lands s extend s' row =
    (row < length s.model)
    × ((id : ℕ) × (id_at s.model row ≡ some id)
        × (s'.focused ≡ some id)
        × (extend ≡ false → s'.selected ≡ id ∷ []))

focus_to-Lands :
    (row : ℕ) (extend : Bool) (s : UiState)
    → row < length s.model
    → Lands s extend (focus_to row extend s) row
unfolding focus_to select id_at
focus_to-Lands row extend s inside =
    let (e, there) = get_elem?-total s.model row inside in
    let named : id_at s.model row ≡ some e.src.id = rw (there, id_at) refl in
    (inside, (e.src.id, named, named, λ plain. rw plain (rw (named, select) refl)))

landed :
    (s : UiState) (extend : Bool) (next row : ℕ)
    → next < length s.model
    → some next ≡ some row
    → Lands s extend (focus_to next extend s) row
landed s extend next row inside h =
    let same : next ≡ row = cc in
    subst (λ r. Lands s extend (focus_to next extend s) r) same
      (focus_to-Lands next extend s inside)

-- An arrow lands on a row of the table, whatever the distance, and says which: that row has the keyboard,
-- and without shift it alone is selected.
pub move_focus-Lands :
    (delta : ℤ) (extend : Bool) (s : UiState) (row : ℕ)
    → (move_focus delta extend s).1 ≡ some row
    → Lands s extend (move_focus delta extend s).0 row
unfolding move_focus
move_focus-Lands delta extend s row h = elim (Bool-cases (ltb (length s.model) 1)) [
  | inl empty ↦ let nowhere = rw (empty, move_focus) at h in cc
  | inr filled ↦
      let last = length s.model - 1 in
      elim (Option-cases (focus_row s)) [
        | inl unfocused ↦
            rw (filled, move_focus)
              (rw unfocused (
                landed s extend 0 row (ground arith)
                  (rw unfocused at (rw (filled, move_focus) at h))))
        | inr (current, here) ↦
            let near = shifted-le current delta last in
            rw (filled, move_focus)
              (rw here (
                landed s extend (shifted current delta last) row (ground arith)
                  (rw here at (rw (filled, move_focus) at h))))
      ]
]
