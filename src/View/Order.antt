-- ===== src/View/Order.antt =====
-- The order of the rows.
use mathlib.Core.List.{Perm}
use zerem.Prelude.{
  ℕ, Bool, true, false, not, List, length, ◌==◌, ==-self, range_from, ◌≡◌, refl, ap,
}
use zerem.Prelude.Sorting.{sort-perm}
use zerem.Torrent.{TorrentRow}
use zerem.View.{Sort, first_click, clicked, at_index, order}

-- Every row is displayed once, whatever the column and the direction.
pub order-perm :
    (rows : List TorrentRow) (s : Sort) → Perm (order rows s) (range_from 0 (length rows))
unfolding order
order-perm rows s = sort-perm (at_index rows s) (range_from 0 (length rows))

not_twice : (b : Bool) → not (not b) ≡ b
not_twice true = refl
not_twice false = refl

-- Clicking the active column turns the direction round, twice gives it back, and a click on another
-- column takes that column's own direction: descending for all but the name.
pub clicked_lem :
    (s : Sort) (col : ℕ)
    → (clicked (clicked s s.col) s.col ≡ s)
      × ((s.col == col) ≡ false → clicked s col ≡ record { col = col; desc = not (col == 0) })
unfolding clicked first_click
clicked_lem s col =
    let here = ==-self s.col in
    (
      rw here (rw here (ap (λ d. record { col = s.col; desc = d }) (not_twice s.desc))),
      λ other. rw other refl,
    )
