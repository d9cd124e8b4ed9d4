-- ===== src/Window.antt =====
-- src/state.rs: what the window keeps of the view. Sets of torrents are lists of their ids.
pub mod Acting
pub mod Drawing
pub mod Moving
pub mod Narrowing
use mathlib.Core.Logic.{ite}
use native.Mathlib.Decide.{ℕ_discrete}
use zerem.Prelude.{
  ℕ, zero, suc, ◌+◌, ◌-◌, ◌≤◌, min, max, Bool, true, false, not, ◌&&◌, ◌||◌, Option, none, some,
  List, [], ◌∷◌, length, get_elem?, take, drop, keep, map, any, is_nil, is_some, all, replicate,
  set, ltb, leb, ◌==◌, if◌then◌else◌, get_or, position_from, find,
}
use zerem.Prelude.Int.{ℤ, pos, negsuc}
use zerem.Prelude.Text.{Text, codes, text_eq, decimal}
use zerem.Prelude.Maps.{lookup, remove}
use zerem.Torrent.{State, Stall, TorrentRow, shared, is_active}
use zerem.Content.{Content}
use zerem.Snapshot.{Snapshot}
use zerem.View.{
  Filter, filter_new, filter_is_empty, filter_matches, Shown, all_rows, index, shown_matches, Sort,
  clicked, is_volatile, order,
}
use zerem.Category.{Shelves, key}
use zerem.Table.{
  Row-discrete, Drawn, row_at, has, draw, same_bool, is_drawn, diff, rebuild, Told, apply_rows,
  id_at, all_running,
}

-- A command that was sent and is not in a snapshot yet.
pub data Optimistic : Type 0 where
  started paused removed : Optimistic

-- `Pending` of src/state.rs.
pub record Guess : Type 0 where
  pub action : Optimistic
  pub seq : ℕ

pub record UiState : Type 0 where
  pub model : List Drawn
  pub columns : List Bool
  pub order : List ℕ
  pub filter : Filter
  pub shown : Shown
  pub category : Option Text
  pub assigned : List (Text × Text)
  pub shelves : List Text
  pub built_for : ℕ
  pub selected : List ℕ
  pub anchor : ℕ
  pub sort : Sort
  pub generation : ℕ
  pub pending : List (ℕ × Guess)
  pub local_notice : Option (Text × ℕ)
  pub focused : Option ℕ
  pub remove_target : List ℕ

abbrev pub columns_count : ℕ
columns_count = 8

-- Milliseconds.
abbrev pub notice_for : ℕ
notice_for = 6000

unfoldable pub new_state : UiState
new_state = record {
  model = [];
  columns = replicate columns_count true;
  order = [];
  filter = record { tokens = [] };
  shown = all_rows;
  category = none;
  assigned = [];
  shelves = [];
  built_for = 0;
  selected = [];
  anchor = 0;
  sort = record { col = 0; desc = false };
  generation = 0;
  pending = [];
  local_notice = none;
  focused = none;
  remove_target = [];
}

-- The name is forced back on.
abbrev pub shown_columns : List Bool → List Bool
shown_columns [] = []
shown_columns (first ∷ visible) = true ∷ visible

-- `restore_view`, less the widths.
unfoldable pub restore_view : Sort → List Bool → UiState → UiState
restore_view kept visible s = record s {
  sort = record { col = min kept.col (columns_count - 1); desc = kept.desc };
  columns = if length visible == columns_count then shown_columns visible else s.columns;
}

unfoldable pub toggle_column : ℕ → UiState → UiState
toggle_column col s = elim (get_elem? s.columns col) as (λ _. UiState) [
  | none ↦ s
  | some shown ↦ record s { columns = set s.columns col (not shown) }
]

module _ (lower : Text → Text) where
  abbrev pub on_shelf : UiState → Text → TorrentRow → Bool
  on_shelf s wanted row = elim (lookup row.info_hash s.assigned) as (λ _. Bool) [
    | none ↦ false
    | some name ↦ text_eq (key lower name) (key lower wanted)
  ]

  -- Whether the three filters let a row through.
  unfoldable pub shows_state : UiState → TorrentRow → Bool
  unfolding shown_matches index
  shows_state s row = shown_matches s.shown row.state

  unfoldable pub shows_category : UiState → TorrentRow → Bool
  unfolding key
  shows_category s row = elim (s.category) as (λ _. Bool) [
    | none ↦ true
    | some wanted ↦ on_shelf s wanted row
  ]

  unfoldable pub shows_text : UiState → TorrentRow → Bool
  unfolding filter_matches filter_is_empty
  shows_text s row = filter_is_empty s.filter || filter_matches s.filter row

  -- Sort everything, then drop what the filters exclude; every row passes `Shown::All`.
  unfoldable pub rebuild_order : Snapshot → UiState → UiState
  unfolding order shows_state shows_category shows_text row_at
  rebuild_order snapshot s =
      let rows = snapshot.torrents in
      let sorted = order rows s.sort in
      let by_state = keep (λ i. shows_state s (row_at rows i)) sorted in
      let by_category = keep (λ i. shows_category s (row_at rows i)) by_state in
      record s {
        order = keep (λ i. shows_text s (row_at rows i)) by_category;
        generation = snapshot.generation;
        built_for = length rows;
      }

  unfoldable pub set_sort : ℕ → Snapshot → UiState → UiState
  unfolding rebuild_order clicked
  set_sort col snapshot s = rebuild_order snapshot (record s { sort = clicked s.sort col })

  unfoldable pub refresh_order : Snapshot → UiState → UiState
  unfolding rebuild_order is_volatile
  refresh_order snapshot s =
      let stale =
        not (s.generation == snapshot.generation)
        || not (s.built_for == length snapshot.torrents) in
      if stale || is_volatile s.sort then rebuild_order snapshot s else s

  -- The ids of the rows in the display order.
  abbrev pub visible : Snapshot → UiState → List ℕ
  unfolding row_at
  visible snapshot s = map (λ i. (row_at snapshot.torrents i).id) s.order

  unfoldable pub set_filter : Text → Snapshot → UiState → UiState
  unfolding filter_new rebuild_order visible
  set_filter query snapshot s =
      let s' = rebuild_order snapshot (record s { filter = filter_new lower query }) in
      record s' { selected = keep (has (visible snapshot s')) s'.selected }

  unfoldable pub show_all : Snapshot → UiState → UiState
  unfolding filter_new rebuild_order
  show_all snapshot s =
      rebuild_order snapshot
        (record s { filter = filter_new lower []; shown = all_rows; category = none })

  unfoldable pub set_category : Option Text → Snapshot → UiState → UiState
  unfolding rebuild_order
  set_category name snapshot s = rebuild_order snapshot (record s { category = name })

  unfoldable pub set_shown : Shown → Snapshot → UiState → UiState
  unfolding rebuild_order
  set_shown shown snapshot s = rebuild_order snapshot (record s { shown = shown })

unfoldable pub adopt_shelves : List (Text × Text) → Shelves → UiState → UiState
adopt_shelves assigned categories s = record s {
  assigned = assigned;
  shelves = map (λ c. c.0) categories;
}

abbrev pub without : List Text → List (Text × Text) → List (Text × Text)
without [] assigned = assigned
without (hash ∷ gone) assigned = without gone (remove hash assigned)

-- The assignments left in the window, and those left in the settings.
unfoldable pub forget_assigned :
    List ℕ → Snapshot → List (Text × Text) → UiState → UiState × List (Text × Text)
forget_assigned ids snapshot stored s =
    let gone = map (λ row. row.info_hash) (keep (λ row. has ids row.id) snapshot.torrents) in
    if is_nil gone
    then (s, stored)
    else (record s { assigned = without gone s.assigned }, without gone stored)

unfoldable pub select_all : UiState → UiState
select_all s = record s { selected = map (λ e. e.src.id) s.model }

abbrev pub is_all : Shown → Bool
is_all all_rows = true
is_all _ = false

unfoldable pub is_filtering : UiState → Bool
unfolding filter_is_empty
is_filtering s = not (filter_is_empty s.filter) || (not (is_all s.shown) || is_some s.category)
