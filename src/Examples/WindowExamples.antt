-- ===== src/Examples/WindowExamples.antt =====
-- Tests of src/state.rs, src/model.rs and crates/zerem-core/src/category.rs.
use zerem.Prelude.{
  ℕ, ◌<◌, true, false, some, [], ◌∷◌, List, map, All, if◌then◌else◌, ◌≡◌, ◌⊎◌, refl, arith,
}
use zerem.Prelude.Int.{pos, negsuc}
use zerem.Prelude.Text.{Text, codes, text_eq, to_ascii_lowercase}
use zerem.Torrent.{State, TorrentRow, shared, is_active}
use zerem.Snapshot.{Snapshot, new_snapshot}
use zerem.View.{only_seeding, shown_matches}
use zerem.Table.{row_at, rebuild, has}
use zerem.Window.{UiState, Optimistic, new_state, rebuild_order, set_filter, set_shown, select_all}
use zerem.Window.Acting.{apply, expect, select, move_focus, confirm_question, begin_remove}
use zerem.Window.Drawing.{Changed, apply-rebuild}
use zerem.Window.Narrowing.{IsVisible, set_filter-IsVisible, set_shown-hidden}
use zerem.Window.Moving.{Lands, move_focus-Lands}
use zerem.Category.{Shelves, key, folder_of, is_named, remember, forget}
use zerem.Category.Shelving.{remember-folder_of}

abbrev row : ℕ → Text → TorrentRow
unfolding shared
row id name = record (shared id name (to_ascii_lowercase name) 1000) {
  info_hash = name;
  state = State.downloading;
}

abbrev two_rows : List TorrentRow
unfolding row
two_rows = row 7 (codes "Zebra") ∷ record (row 8 (codes "apple")) { state = State.seeding } ∷ []

abbrev snapshot : Snapshot
unfolding new_snapshot two_rows
snapshot = new_snapshot 4 1 two_rows

-- The list drawn once, both rows selected.
abbrev shown_all : UiState
unfolding new_state rebuild_order select_all apply snapshot
shown_all = select_all (apply snapshot (rebuild_order to_ascii_lowercase snapshot new_state)).0

drawn_names : map (λ e. e.src.name) shown_all.model ≡ codes "apple" ∷ codes "Zebra" ∷ []
unfolding shown_all
drawn_names = refl

both_selected : shown_all.selected ≡ 8 ∷ 7 ∷ []
unfolding shown_all
both_selected = refl

searched : (set_filter to_ascii_lowercase (codes "APP") snapshot shown_all).selected ≡ 8 ∷ []
unfolding set_filter shown_all
searched = refl

set_filter-IsVisible_example :
    All
      (IsVisible to_ascii_lowercase snapshot
        (set_filter to_ascii_lowercase (codes "APP") snapshot shown_all))
      (set_filter to_ascii_lowercase (codes "APP") snapshot shown_all).selected
set_filter-IsVisible_example =
    set_filter-IsVisible to_ascii_lowercase (codes "APP") snapshot shown_all

first_hidden : shown_matches only_seeding (row_at snapshot.torrents 0).state ≡ false
unfolding shown_matches snapshot row_at
first_hidden = refl

first_selected : has shown_all.selected (row_at snapshot.torrents 0).id ≡ true
unfolding shown_all snapshot row_at
first_selected = refl

set_shown-hidden_example :
    (has (set_shown to_ascii_lowercase only_seeding snapshot shown_all).order 0 ≡ false)
    × (has
          (set_shown to_ascii_lowercase only_seeding snapshot shown_all).selected
          (row_at snapshot.torrents 0).id
        ≡ true)
set_shown-hidden_example =
    set_shown-hidden to_ascii_lowercase only_seeding snapshot shown_all 0 first_hidden
      first_selected

-- A torrent that was paused is drawn so at once.
paused_at_once :
    map
      (λ e. is_active e.src)
      (apply snapshot (expect 8 Optimistic.paused 4 (record shown_all { model = [] }))).0.model
    ≡ false ∷ true ∷ []
unfolding apply expect shown_all is_active
paused_at_once = refl

removed_at_once :
    map (λ e. e.src.id) (apply snapshot (expect 8 Optimistic.removed 4 shown_all)).0.model ≡ 7 ∷ []
unfolding apply expect shown_all
removed_at_once = refl

abbrev guessing : UiState
unfolding expect shown_all
guessing = expect 8 Optimistic.removed 3 shown_all

guess_older : All (λ p. p.1.seq < snapshot.seq) guessing.pending
unfolding guessing snapshot
guess_older = (omega arith, tt)

apply-rebuild_example :
    ((apply snapshot guessing).0.model ≡ rebuild snapshot.torrents guessing.selected guessing.order)
    × ((apply snapshot guessing).0.pending ≡ [])
    × (((apply snapshot guessing).1.reset ≡ true)
        ⊎ Changed 0 guessing.model
            (apply snapshot guessing).0.model
            (apply snapshot guessing).1.dirty)
apply-rebuild_example = apply-rebuild snapshot guessing guess_older

-- A first arrow lands at the top, the next one below, and at the end it stays.
abbrev at_top : UiState
unfolding move_focus shown_all
at_top = (move_focus (pos 1) false shown_all).0

moved : (move_focus (pos 1) false at_top).1 ≡ some 1
unfolding move_focus at_top
moved = refl

stays : (move_focus (negsuc 4) false at_top).1 ≡ some 0
unfolding move_focus at_top
stays = refl

move_focus-Lands_example : Lands at_top false (move_focus (pos 1) false at_top).0 1
move_focus-Lands_example = move_focus-Lands (pos 1) false at_top 1 moved

extended : (select 1 false true (select 0 false false shown_all)).selected ≡ 8 ∷ 7 ∷ []
unfolding select shown_all
extended = refl

toggled_off :
    (select 1 true false (select 1 true false (select 0 false false shown_all))).selected ≡ 8 ∷ []
unfolding select shown_all
toggled_off = refl

asked : confirm_question snapshot (begin_remove (7 ∷ []) shown_all).0 ≡ codes "Remove “Zebra”?"
unfolding confirm_question begin_remove shown_all snapshot
asked = refl

asked_many :
    confirm_question snapshot (begin_remove (7 ∷ 8 ∷ []) shown_all).0 ≡ codes "Remove 2 torrents?"
unfolding confirm_question begin_remove shown_all snapshot
asked_many = refl

abbrev shelves : Shelves
unfolding remember
shelves =
    remember to_ascii_lowercase
      (remember to_ascii_lowercase
        (remember to_ascii_lowercase [] (codes "TV Shows") (codes "D:/old")) (codes "Anime")
        (codes "D:/x"))
      (codes " tv  shows") (codes "E:/TV")

one_shelf : shelves ≡ (codes "Anime", codes "D:/x") ∷ (codes "TV Shows", codes "E:/TV") ∷ []
unfolding shelves
one_shelf = refl

forgotten : (forget to_ascii_lowercase shelves (codes "ANIME")).1 ≡ true
unfolding forget shelves
forgotten = refl

is_a_name : is_named to_ascii_lowercase (codes " tv  shows") ≡ true
unfolding is_named
is_a_name = refl

remember-folder_of_example :
    folder_of to_ascii_lowercase
      (remember to_ascii_lowercase shelves (codes " tv  shows") (codes "F:/TV"))
      (codes "Tv Shows")
    ≡ (if text_eq
          (key to_ascii_lowercase (codes " tv  shows"))
          (key to_ascii_lowercase (codes "Tv Shows"))
        then some (codes "F:/TV")
        else folder_of to_ascii_lowercase shelves (codes "Tv Shows"))
remember-folder_of_example =
    remember-folder_of to_ascii_lowercase shelves (codes " tv  shows") (codes "F:/TV")
      (codes "Tv Shows") is_a_name
