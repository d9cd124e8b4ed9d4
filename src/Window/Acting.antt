-- ===== src/Window/Acting.antt =====
-- src/state.rs: what a click, a key, a command that was sent and a snapshot do to what the window keeps.
use zerem.Prelude.{
  ℕ, ◌+◌, ◌-◌, min, max, Bool, true, false, not, Option, none, some, List, [], ◌∷◌, ◌++◌, length,
  range_from, keep, map, any, is_nil, ltb, leb, ◌==◌, if◌then◌else◌, position_from, find,
}
use zerem.Prelude.Int.{ℤ, pos, negsuc}
use zerem.Prelude.Text.{Text, codes, decimal}
use zerem.Prelude.Words.{checked_sub}
use zerem.Torrent.{TorrentRow, pause, resume}
use zerem.Snapshot.{Snapshot}
use zerem.Table.{Drawn, Told, has, row_at, apply_rows, id_at}
use zerem.Window.{Optimistic, started, paused, removed, Guess, UiState, notice_for}

unfoldable pub set_notice : Text → ℕ → UiState → UiState
set_notice text now s = record s { local_notice = some (text, now) }

-- `notice`, for the time now; a clock that went back has no time elapsed.
unfoldable pub notice : ℕ → Snapshot → UiState → Option Text
notice now snapshot s = elim (s.local_notice) as (λ _. Option Text) [
  | none ↦ snapshot.notice
  | some (text, since) ↦ if ltb (now - since) notice_for then some text else snapshot.notice
]

abbrev pub ask_many : ℕ → Text
ask_many n = codes "Remove " ++ (decimal n ++ codes " torrents?")

-- `confirm_question`; the name is put between typographic quotation marks.
unfoldable pub confirm_question : Snapshot → UiState → Text
confirm_question snapshot s = elim (s.remove_target) as (λ _. Text) [
  | [] ↦ ask_many 0
  | (id ∷ []) ↦ elim (find (λ t. t.id == id) snapshot.torrents) as (λ _. Text) [
    | none ↦ ask_many 1
    | some row ↦ codes "Remove " ++ (8220 ∷ (row.name ++ (8221 ∷ codes "?")))
  ]
  | (id ∷ more ∷ rest) ↦ ask_many (length s.remove_target)
]

unfoldable pub begin_remove : List ℕ → UiState → UiState × Bool
begin_remove ids s = (record s { remove_target = ids }, not (is_nil ids))

-- A guess replaces an earlier one about the same torrent.
unfoldable pub expect : ℕ → Optimistic → ℕ → UiState → UiState
expect id action seq s = record s {
  pending = (id, record { action = action; seq = seq }) ∷ keep (λ p. not (p.0 == id)) s.pending;
}

-- Guesses that the engine has answered are dropped.
unfoldable pub settle : Snapshot → UiState → UiState
settle snapshot s = record s { pending = keep (λ p. leb snapshot.seq p.1.seq) s.pending }

-- The first row of a torrent, changed.
pub change_row : (TorrentRow → TorrentRow) → ℕ → List TorrentRow → List TorrentRow
change_row f id [] = []
change_row f id (row ∷ rows) = if row.id == id then f row ∷ rows else row ∷ change_row f id rows

-- The guesses, laid over the rows.
unfoldable pub guessed : List (ℕ × Guess) → List TorrentRow → List TorrentRow
unfolding change_row pause resume
guessed [] rows = rows
guessed ((id, guess) ∷ pending) rows =
    guessed pending (elim (guess.action) as (λ _. List TorrentRow) [
      | removed ↦ rows
      | paused ↦ change_row pause id rows
      | started ↦ change_row resume id rows
    ])

abbrev pub is_removed : Optimistic → Bool
is_removed removed = true
is_removed started = false
is_removed paused = false

-- The torrents that are guessed to be gone.
abbrev pub going : List (ℕ × Guess) → List ℕ
going pending = map (λ p. p.0) (keep (λ p. is_removed p.1.action) pending)

-- `apply`: without a guess the rows and the order are the snapshot's and the window's own.
unfoldable pub apply : Snapshot → UiState → UiState × Told
unfolding settle guessed apply_rows row_at
apply snapshot s =
    let settled = settle snapshot s in
    let rows = guessed settled.pending snapshot.torrents in
    let order = keep (λ i. not (has (going settled.pending) (row_at rows i).id)) settled.order in
    let (model, told) = apply_rows rows order settled.selected settled.model in
    (record settled { model = model }, told)

unfoldable pub prune_selection : Snapshot → UiState → UiState
prune_selection snapshot s = record s {
  selected = keep (λ id. any (λ t. t.id == id) snapshot.torrents) s.selected;
}

unfoldable pub focus_row : UiState → Option ℕ
focus_row s = elim (s.focused) as (λ _. Option ℕ) [
  | none ↦ none
  | some id ↦ position_from 0 (λ e. e.src.id == id) s.model
]

-- The topmost row that is selected.
abbrev pub topmost : UiState → Option ℕ
topmost s = find (has s.selected) (map (λ e. e.src.id) s.model)

unfoldable pub acting_on : UiState → Option ℕ
acting_on s = elim (s.focused) as (λ _. Option ℕ) [
  | none ↦ topmost s
  | some id ↦ if has s.selected id then some id else topmost s
]

-- `(current + delta).clamp(0, last)`.
abbrev pub shifted : ℕ → ℤ → ℕ → ℕ
shifted current (pos d) last = min (current + d) last
shifted current (negsuc d) last = min (current - (d + 1)) last

-- `filter_map` over some places.
abbrev pub ids_at : List Drawn → List ℕ → List ℕ
unfolding id_at
ids_at model [] = []
ids_at model (i ∷ places) =
    let rest = ids_at model places in
    elim (id_at model i) as (λ _. List ℕ) [ none ↦ rest | some id ↦ id ∷ rest ]

-- The places from one to the other, both included.
abbrev pub between : ℕ → ℕ → List ℕ
between a b = range_from (min a b) (max a b + 1 - min a b)

abbrev pub toggled : ℕ → List ℕ → List ℕ
toggled id selected = if has selected id then keep (λ i. not (i == id)) selected else id ∷ selected

-- `select`, for the torrent that is at the place.
abbrev pub select_id : ℕ → Bool → Bool → ℕ → UiState → UiState
select_id at ctrl true id s = record s { selected = ids_at s.model (between s.anchor at) }
select_id at true false id s = record s { selected = toggled id s.selected; anchor = at }
select_id at false false id s = record s { selected = id ∷ []; anchor = at }

unfoldable pub select : ℕ → Bool → Bool → UiState → UiState
unfolding id_at ids_at
select at ctrl shift s =
    let s' = if shift then s else record s { focused = id_at s.model at } in
    elim (id_at s.model at) as (λ _. UiState) [
      | none ↦ s'
      | some id ↦ select_id at ctrl shift id s'
    ]

unfoldable pub focus_to : ℕ → Bool → UiState → UiState
unfolding select id_at
focus_to row extend s = record (select row false extend s) { focused = id_at s.model row }

-- The row it lands on, if there is any.
unfoldable pub move_focus : ℤ → Bool → UiState → UiState × Option ℕ
unfolding focus_to focus_row
move_focus delta extend s = elim (checked_sub (length s.model) 1) as (λ _. UiState × Option ℕ) [
  | none ↦ (s, none)
  | some last ↦
      let next = elim (focus_row s) as (λ _. ℕ) [
        | none ↦ 0
        | some current ↦ shifted current delta last
      ] in
      (focus_to next extend s, some next)
]

unfoldable pub focus_edge : ℤ → Bool → UiState → UiState × Option ℕ
unfolding focus_to
focus_edge edge extend s = elim (checked_sub (length s.model) 1) as (λ _. UiState × Option ℕ) [
  | none ↦ (s, none)
  | some last ↦
      let target = elim edge as (λ _. ℕ) [ pos n ↦ 0 | negsuc n ↦ last ] in
      (focus_to target extend s, some target)
]
