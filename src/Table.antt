-- ===== src/Table.antt =====
-- src/model.rs: the table that the window draws. A row's texts are a function of the row, so a drawn row
-- is the row and whether it is selected. Sets of torrents are lists of their ids.
use mathlib.Core.Logic.{ite}
use native.Mathlib.Decide.{ℕ_discrete}
use zerem.Prelude.{
  ℕ, ◌+◌, Bool, true, false, not, ◌&&◌, Option, none, some, List, [], ◌∷◌, length, get_elem?, keep,
  map, any, is_nil, all, ◌==◌, if◌then◌else◌, get_or,
}
use zerem.Torrent.{TorrentRow, shared, is_active}
use zerem.View.{order}

-- `==` of two rows, derived by the compiler.
pub Row-discrete : Discrete TorrentRow
Row-discrete = hlevel (ℕ_discrete)

-- `Entry` of the table.
pub record Drawn : Type 0 where
  pub src : TorrentRow
  pub selected : Bool

-- A row, for a place in range.
unfoldable pub row_at : List TorrentRow → ℕ → TorrentRow
unfolding shared
row_at rows at = get_or (get_elem? rows at) (shared 0 [] [] 0)

abbrev pub has : List ℕ → ℕ → Bool
has ids id = any (λ i. i == id) ids

abbrev pub draw : List TorrentRow → List ℕ → ℕ → Drawn
unfolding row_at
draw rows selected at = record { src = row_at rows at; selected = has selected (row_at rows at).id }

abbrev pub same_bool : Bool → Bool → Bool
same_bool true b = b
same_bool false b = not b

-- `entry.src == *next && entry.view.selected == is_selected`.
unfoldable pub is_drawn : Drawn → Drawn → Bool
is_drawn old new = ite (Row-discrete old.src new.src) (same_bool old.selected new.selected) false

-- The rows drawn anew where they changed, and the places of those.
unfoldable pub diff : List TorrentRow → List ℕ → ℕ → List Drawn → List ℕ → List Drawn × List ℕ
unfolding is_drawn draw
diff rows selected i (old ∷ entries) (at ∷ order) =
    let (later, dirty) = diff rows selected (i + 1) entries order in
    let new = draw rows selected at in
    if is_drawn old new then (old ∷ later, dirty) else (new ∷ later, i ∷ dirty)
diff rows selected i entries _ = (entries, [])

unfoldable pub rebuild : List TorrentRow → List ℕ → List ℕ → List Drawn
unfolding draw
rebuild rows selected order = map (draw rows selected) order

-- What the view is told: that the list is new, or which rows changed.
pub record Told : Type 0 where
  pub reset : Bool
  pub changed : ℕ
  pub dirty : List ℕ

-- `TorrentModel::apply`.
unfoldable pub apply_rows : List TorrentRow → List ℕ → List ℕ → List Drawn → List Drawn × Told
unfolding diff rebuild
apply_rows rows order selected entries =
    let (later, dirty) = diff rows selected 0 entries order in
    if length entries == length order
    then (later, record { reset = false; changed = length dirty; dirty = dirty })
    else (rebuild rows selected order, record { reset = true; changed = length order; dirty = [] })

unfoldable pub id_at : List Drawn → ℕ → Option ℕ
id_at model at = elim (get_elem? model at) as (λ _. Option ℕ) [
  | none ↦ none
  | some e ↦ some e.src.id
]

-- `all_running`.
unfoldable pub all_running : List ℕ → List Drawn → Bool
unfolding is_active
all_running selected model =
    not (is_nil selected) && all (λ e. is_active e.src) (keep (λ e. has selected e.src.id) model)
