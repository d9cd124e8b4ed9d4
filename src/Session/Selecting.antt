-- ===== src/Session/Selecting.antt =====
-- crates/zerem-engine/src/session.rs: the ticks and the pins of a torrent's files, what the library is
-- asked to fetch for them, and the journal of what was narrowed.
pub mod Restoring
pub mod Pinning
use zerem.Prelude.{
  ℕ, zero, suc, ◌+◌, Bool, true, false, not, ◌&&◌, Option, none, some, List, [], ◌∷◌, length,
  get_elem?, set, replicate, range_from, any, keep, leb, ltb, ◌==◌, if◌then◌else◌, get_or, is_some,
  map, is_nil, ◌||◌,
}
use zerem.Prelude.Text.{Text, text_eq}
use zerem.Prelude.Sorting.{sort}
use zerem.Choice.{flags, ticked, to_fetch, is_narrowed, flag_at, chosen_files}
use zerem.Journal.{Journal, set_entry, take_entry, flush, is_unused}
use zerem.Session.{Entry, Session, Answers, Metadata, change}
use zerem.Session.Entries.{get_entry}

-- How many files the metadata names; none before it arrives.
abbrev pub file_count : Entry → ℕ
file_count e = elim (e.metadata) as (λ _. ℕ) [ none ↦ 0 | some meta ↦ length meta.files ]

-- The two lists of an entry are sized once there is a file list.
unfoldable pub resolve_files : Entry → Entry × ℕ
unfolding flags
resolve_files e =
    if not (is_nil e.wanted) then (e, length e.wanted) else if file_count e == 0 then (e, 0) else (
      record e {
        wanted = flags e.only_files (file_count e);
        first = replicate (file_count e) false;
      },
      file_count e,
    )

-- Which of the files, counted from an index, are all here.
abbrev pub complete_from : ℕ → List ℕ → List ℕ → List Bool
complete_from i progress [] = []
complete_from i progress (len ∷ lens) =
    leb len (get_or (get_elem? progress i) 0) ∷ complete_from (i + 1) progress lens

unfoldable pub complete : Entry → List Bool
complete e = elim (e.metadata) as (λ _. List Bool) [
  | none ↦ []
  | some meta ↦ complete_from 0 e.progress (map (λ f. f.1) meta.files)
]

-- What the library is to fetch, with every file spelled out where there is no restriction.
unfoldable pub target_of : Entry → List ℕ
unfolding complete to_fetch
target_of e = get_or (to_fetch e.wanted e.first (complete e)) (range_from 0 (length e.wanted))

-- What it fetches now, in order.
unfoldable pub current_of : Entry → List ℕ
unfolding sort
current_of e = sort leb (get_or e.only_files (range_from 0 (length e.wanted)))

-- The selection that the journal is given: the ticks, where they are narrowed.
unfoldable pub recorded : Entry → Option (List ℕ)
unfolding complete is_narrowed
recorded e =
    if is_narrowed e.wanted e.first (complete e) then some (chosen_files e.wanted) else none

-- `apply_choice` on the torrent that it was called for: whether it went well, and what is left of the
-- torrent and of the journal. The journal is written before the library is asked.
unfoldable pub choose : Answers → Journal → Entry → Bool × Journal × Entry
unfolding target_of current_of recorded set_entry
choose os j e = if text_eq (current_of e) (target_of e) then (true, j, e) else (
  os.update_ok e.id,
  set_entry os.write_ok j e.info_hash (recorded e),
  if os.update_ok e.id then record e { only_files = some (target_of e) } else e,
)

-- The entry that an operation was called for, after it, and the journal.
abbrev pub settle : Session → ℕ → Bool × Journal × Entry → Session × Bool
settle s id (went, j, e) = (record s { entries = change (λ _. e) id s.entries; journal = j }, went)

unfoldable pub apply_choice : Answers → Session → ℕ → Session × Bool
unfolding choose get_entry change
apply_choice os s id = elim (get_entry id s.entries) as (λ _. Session × Bool) [
  | none ↦ (s, true)
  | some e ↦ settle s id (choose os s.journal e)
]

-- `*pin &= *want` over the two lists.
abbrev pub both : List Bool → List Bool → List Bool
both (p ∷ pins) (w ∷ wants) = (p && w) ∷ both pins wants
both pins _ = pins

-- `*pin &= !*done`.
abbrev pub unpinned : List Bool → List Bool → List Bool
unpinned (p ∷ pins) (d ∷ dones) = (p && not d) ∷ unpinned pins dones
unpinned pins _ = pins

-- The entry that `set_file_wanted` hands on, where it does not refuse.
unfoldable pub want : Entry → Option (List ℕ) → Bool → Option Entry
unfolding resolve_files ticked
want e files wanted =
    let (e', count) = resolve_files e in
    if count == 0 then none else elim (ticked e'.wanted files wanted) as (λ _. Option Entry) [
      | none ↦ none
      | some ticks ↦ some (record e' { wanted = ticks; first = both e'.first ticks })
    ]

-- The entry that `set_file_first` hands on, where it does not refuse.
unfoldable pub pin : Entry → ℕ → Bool → Option Entry
unfolding resolve_files
pin e file first =
    let (e', count) = resolve_files e in
    if count == 0 || (first && not (flag_at e'.wanted file))
    then none
    else if ltb file (length e'.first)
    then some (record e' { first = set e'.first file first })
    else none

-- An operation on the choice of one torrent: refused, or followed by `apply_choice`. A refusal still
-- leaves the lists sized.
unfoldable pub rechoose : Answers → Session → ℕ → (Entry → Option Entry) → Session × Bool
unfolding choose get_entry change resolve_files
rechoose os s id f = elim (get_entry id s.entries) as (λ _. Session × Bool) [
  | none ↦ (s, false)
  | some e ↦ elim (f e) as (λ _. Session × Bool) [
    | none ↦ (record s { entries = change (λ _. (resolve_files e).0) id s.entries }, false)
    | some e' ↦ settle s id (choose os s.journal e')
  ]
]

unfoldable pub set_file_wanted : Answers → Session → ℕ → Option (List ℕ) → Bool → Session × Bool
unfolding rechoose want
set_file_wanted os s id files wanted = rechoose os s id (λ e. want e files wanted)

unfoldable pub set_file_first : Answers → Session → ℕ → ℕ → Bool → Session × Bool
unfolding rechoose pin
set_file_first os s id file first = rechoose os s id (λ e. pin e file first)

-- Releasing what a finished pin held, for one torrent.
unfoldable pub release : Answers → Journal → Entry → Journal × Entry
unfolding choose complete
release os j e =
    let (went, j', e') = choose os j (record e { first = unpinned e.first (complete e) }) in
    if any (λ f. f) e.first then (j', e') else (j, e)

abbrev pub release_all : Answers → Journal → List Entry → Journal × List Entry
release_all os j [] = (j, [])
release_all os j (e ∷ entries) =
    let (j', e') = release os j e in
    let (j'', entries') = release_all os j' entries in (j'', e' ∷ entries')

unfoldable pub reconcile : Answers → Session → Session
unfolding release
reconcile os s =
    let (j, entries) = release_all os s.journal s.entries in
    record s { journal = j; entries = entries }

-- Putting back the selection of one torrent, where the journal has one.
unfoldable pub put_back : Answers → Journal → Entry → List ℕ → Journal × Entry
unfolding resolve_files flags choose
put_back os j e list =
    let (e', count) = resolve_files e in
    let (went, j', e'') =
      choose os j (record e' { wanted = flags (some list) count; first = replicate count false }) in
    if count == 0 then (j, e') else (j', e'')

unfoldable pub restore_one : Answers → Journal → Entry → Journal × Entry
unfolding put_back take_entry
restore_one os j e =
    let (found, j') = take_entry j e.info_hash in
    elim found as (λ _. Journal × Entry) [ none ↦ (j', e) | some list ↦ put_back os j' e list ]

abbrev pub restore_all : Answers → Journal → List Entry → Journal × List Entry
restore_all os j [] = (j, [])
restore_all os j (e ∷ entries) =
    let (j', e') = restore_one os j e in
    let (j'', entries') = restore_all os j' entries in (j'', e' ∷ entries')

unfoldable pub restore_narrowed : Answers → Session → Session
unfolding restore_one flush is_unused
restore_narrowed os s =
    let (j, entries) = restore_all os s.journal s.entries in
    if is_unused s.journal then s else record s { journal = flush os.write_ok j; entries = entries }
