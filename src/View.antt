-- ===== src/View.antt =====
-- crates/zerem-core/src/filter.rs and sort.rs: which rows the view shows, and in what order.
pub mod Order
pub mod Narrowing
use zerem.Prelude.{
  ℕ, zero, suc, ◌+◌, ◌^◌, ◌-◌, Bool, true, false, not, ◌&&◌, ◌||◌, Option, none, some, List, [],
  ◌∷◌, map, all, keep, length, ltb, ◌==◌, if◌then◌else◌, get_elem?, range_from,
}
use zerem.Prelude.Text.{Text, contains, split_whitespace, text_ltb, text_eq}
use zerem.Prelude.Int.{ℤ, pos, negsuc}
use zerem.Prelude.Sorting.{sort}
use zerem.Prelude.Words.{u32_max}
use zerem.Torrent.{State, TorrentRow, paused, checking, downloading, seeding, error, queued, kind}

pub record Filter : Type 0 where
  pub tokens : List Text

-- A query, its words in lower case: `lower` is `str::to_lowercase`.
unfoldable pub filter_new : (Text → Text) → Text → Filter
filter_new lower query = record { tokens = map lower (split_whitespace query) }

unfoldable pub filter_is_empty : Filter → Bool
filter_is_empty filter = length filter.tokens == 0

unfoldable pub filter_matches : Filter → TorrentRow → Bool
filter_matches filter row = all (λ token. contains token row.name_key) filter.tokens

pub data Shown : Type 0 where
  all_rows only_downloading only_seeding only_queued only_paused only_failed : Shown

unfoldable pub index : Shown → ℤ
index all_rows = pos 0
index only_downloading = pos 1
index only_seeding = pos 2
index only_queued = pos 3
index only_paused = pos 4
index only_failed = pos 5

unfoldable pub from_index : ℤ → Shown
from_index (pos n) =
    if n == 1
    then only_downloading
    else if n == 2
    then only_seeding
    else if n == 3
    then only_queued
    else if n == 4
    then only_paused
    else if n == 5
    then only_failed
    else all_rows
from_index (negsuc n) = all_rows

unfoldable pub shown_matches : Shown → State → Bool
shown_matches all_rows state = true
shown_matches only_downloading downloading = true
shown_matches only_downloading checking = true
shown_matches only_seeding seeding = true
shown_matches only_queued queued = true
shown_matches only_paused paused = true
shown_matches only_failed error = true
shown_matches _ _ = false

pub record Sort : Type 0 where
  pub col : ℕ
  pub desc : Bool

unfoldable pub first_click : ℕ → Sort
first_click col = record { col = col; desc = not (col == 0) }

unfoldable pub clicked : Sort → ℕ → Sort
unfolding first_click
clicked s col = if s.col == col then record { col = col; desc = not s.desc } else first_click col

unfoldable pub is_volatile : Sort → Bool
is_volatile s = not (s.col == 0 || s.col == 1)

-- No estimate stands below every estimate.
abbrev pub eta_key : TorrentRow → ℕ
eta_key row = elim (row.eta) as (λ _. ℕ) [ none ↦ u32_max | some secs ↦ secs ]

-- The key of a numeric column.
abbrev pub number_key : TorrentRow → ℕ → ℕ
number_key row col =
    if col == 1
    then row.size
    else if col == 2
    then kind row.state
    else if col == 3
    then row.down_bps
    else if col == 4
    then row.up_bps
    else if col == 5
    then row.peers_connected
    else if col == 6
    then eta_key row
    else row.ratio_x100

-- `cmp_by` is `Less`.
unfoldable pub less_by : TorrentRow → TorrentRow → ℕ → Bool
less_by a b col =
    if col == 0 then text_ltb a.name_key b.name_key else ltb (number_key a col) (number_key b col)

-- The comparison of `order` does not come out as `Greater`. The id breaks a tie, ascending under
-- either direction.
unfoldable pub stands_before : Sort → TorrentRow → TorrentRow → Bool
unfolding less_by
stands_before s a b =
    let less = if s.desc then less_by b a s.col else less_by a b s.col in
    let greater = if s.desc then less_by a b s.col else less_by b a s.col in
    less || (not greater && not (ltb b.id a.id))

abbrev pub at_index : List TorrentRow → Sort → ℕ → ℕ → Bool
at_index rows s a b = elim (get_elem? rows a) as (λ _. Bool) [
  | none ↦ false
  | some x ↦ elim (get_elem? rows b) as (λ _. Bool) [ none ↦ false | some y ↦ stands_before s x y ]
]

-- The indices of the rows, in display order. All of them are in range.
unfoldable pub order : List TorrentRow → Sort → List ℕ
unfolding sort stands_before
order rows s = sort (at_index rows s) (range_from 0 (length rows))
