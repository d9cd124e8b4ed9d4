-- ===== src/Queue.antt =====
-- crates/zerem-core/src/queue.rs: how many torrents download at once, and which ones.
pub mod Admission
use zerem.Prelude.{
  ℕ, ◌+◌, ◌%◌, ◌^◌, Bool, ◌&&◌, ◌||◌, List, [], ◌∷◌, keep, ltb, leb, ◌==◌, if◌then◌else◌,
}
use zerem.Prelude.Int.{ℤ, ltb_ℤ, eqb_ℤ}
use zerem.Prelude.Sorting.{sort}

pub record Waiting : Type 0 where
  pub id : ℕ
  pub position : ℤ
  pub wanted : Bool
  pub complete : Bool

-- The order of the key `(w.position, w.id)`.
abbrev pub in_turn : Waiting → Waiting → Bool
in_turn a b = ltb_ℤ a.position b.position || (eqb_ℤ a.position b.position && leb a.id b.id)

abbrev pub queue_order : List Waiting → List Waiting
queue_order waiting = sort in_turn (keep (λ w. w.wanted) waiting)

-- The loop over the order, with the counter `downloading`, a u32.
pub admit_loop : ℕ → ℕ → List Waiting → List ℕ
admit_loop limit downloading [] = []
admit_loop limit downloading (w ∷ order) =
    let waits = admit_loop limit downloading order in
    let starts = admit_loop limit ((downloading + 1) % 2 ^ 32) order in
    if w.complete
    then w.id ∷ waits
    else if limit == 0 || ltb downloading limit
    then w.id ∷ starts
    else waits

-- `limit` of zero is no limit.
unfoldable pub admit : List Waiting → ℕ → List ℕ
unfolding admit_loop sort
admit waiting limit = admit_loop limit 0 (queue_order waiting)
