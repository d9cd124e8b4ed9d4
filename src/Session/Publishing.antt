-- ===== src/Session/Publishing.antt =====
-- crates/zerem-engine/src/session.rs: what is published of the session, once a tick. What the library
-- reports of a torrent, and the rates that are shown for it, are arguments, as are the folding of a
-- name's case, the text of a path and the peers of the torrent whose panel is open.
pub mod Announcing
use zerem.Prelude.{
  ℕ, zero, suc, ◌+◌, ◌-◌, Bool, true, false, not, ◌&&◌, Option, none, some, List, [], ◌∷◌, ◌++◌,
  map, any, ltb, leb, ◌==◌, if◌then◌else◌, is_nil, get_or,
}
use zerem.Prelude.Text.{Text, text_eq}
use zerem.Prelude.Paths.{FilePath}
use zerem.Prelude.Sorting.{sort}
use zerem.Content.{Content, unknown, Sized, of_files}
use zerem.Torrent.{State, paused, queued, TorrentRow, no_files, is_complete}
use zerem.Mapping.{TorrentStats, to_row}
use zerem.Detail.{Details, PeerStats, to_details}
use zerem.History.{History, push, clear}
use zerem.Snapshot.{Snapshot, StreamAt, new_snapshot}
use zerem.Session.{Entry, Session, Notice, Metadata}
use zerem.Session.Entries.{get_entry}

-- What the library says at the time of a tick.
pub record Reports : Type 0 where
  pub tr : Text → Text
  pub windows : Bool
  pub to_lowercase : Text → Text
  pub show : FilePath → Text
  pub stats : ℕ → TorrentStats
  pub down : ℕ → ℕ
  pub up : ℕ → ℕ
  pub peers : ℕ → Option (List PeerStats)

-- The name to show and its key; a name that has arrived is kept.
unfoldable pub resolve_name : (Text → Text) → Entry → Entry × Text × Text
resolve_name lower e = elim (e.known_name) as (λ _. Entry × Text × Text) [
  | some (name, key) ↦ (e, name, key)
  | none ↦ elim (e.name) as (λ _. Entry × Text × Text) [
    | none ↦ (e, e.info_hash, e.info_hash)
    | some name ↦ (record e { known_name = some (name, lower name) }, name, lower name)
  ]
]

abbrev pub is_unknown : Content → Bool
is_unknown unknown = true
is_unknown _ = false

abbrev pub content_of : Entry → Content
unfolding of_files
content_of e = elim (e.metadata) as (λ _. Content) [
  | none ↦ unknown
  | some meta ↦ of_files (map (λ f. record { path = f.0; len = f.1 }) meta.files)
]

-- The kind of the files; `unknown` is not kept.
unfoldable pub resolve_content : Entry → Entry × Content
unfolding of_files
resolve_content e = elim (e.content) as (λ _. Entry × Content) [
  | some c ↦ (e, c)
  | none ↦
      if is_unknown (content_of e)
      then (e, content_of e)
      else (record e { content = some (content_of e) }, content_of e)
]

abbrev pub is_paused : State → Bool
is_paused paused = true
is_paused _ = false

-- What the session adds to the row that the library's report gives.
abbrev pub dressed : Reports → List Text → Entry → Content → TorrentRow → TorrentRow
dressed r queue e content row =
    let shown = record row {
      folder = r.show e.folder;
      info_hash = e.info_hash;
      content = content;
    } in
    let chosen =
      if not (is_nil e.wanted) && not (any (λ w. w) e.wanted)
      then record shown { stall = some no_files }
      else shown in
    if is_paused chosen.state && (e.wanted_running && any (λ h. text_eq h e.info_hash) queue)
    then record chosen { state = queued }
    else chosen

abbrev pub row_complete : TorrentRow → Bool
unfolding is_complete
row_complete row = ltb 0 row.size && is_complete row

-- `was_complete.replace(complete) == Some(false) && complete`.
unfoldable pub crossed : Option Bool → Bool → Bool
crossed (some false) complete = complete
crossed _ complete = false

-- One torrent's part of a tick: what is kept of it, its row, and whether it has just finished.
unfoldable pub publish_entry : Reports → List Text → Entry → Entry × TorrentRow × Bool
unfolding resolve_name resolve_content to_row crossed is_complete
publish_entry r queue e =
    let (named, name, key) = resolve_name r.to_lowercase e in
    let (judged, content) = resolve_content named in
    let (raw, still) =
      to_row r.tr r.windows e.id name key (r.stats e.id) (r.down e.id) (r.up e.id) e.still in
    let row = dressed r queue e content raw in
    (
      record judged { still = still; was_complete = some (row_complete row) },
      row,
      crossed e.was_complete (row_complete row),
    )

-- The loop over the entries: what is kept of them, their rows, and the names and ids of those that have
-- just finished.
abbrev pub publish_all :
    Reports → List Text → List Entry → List Entry × List TorrentRow × List Text × List ℕ
publish_all r queue [] = ([], [], [], [])
publish_all r queue (e ∷ entries) =
    let (e', row, done) = publish_entry r queue e in
    let (kept, rows, names, ids) = publish_all r queue entries in
    (
      e' ∷ kept,
      row ∷ rows,
      if done then row.name ∷ names else names,
      if done then e.id ∷ ids else ids,
    )

-- The notice to show now, and the one that stays: it clears itself when its ticks run out.
unfoldable pub age : Option Notice → Option Text × Option Notice
age none = (none, none)
age (some n) =
    if ltb 0 (n.ticks_left - 1)
    then (some n.text, some (record n { ticks_left = n.ticks_left - 1 }))
    else (none, none)

abbrev pub by_id : TorrentRow → TorrentRow → Bool
by_id a b = leb a.id b.id

abbrev pub insides : Reports → List Entry → Option ℕ → Option Details
unfolding get_entry
insides r entries none = none
insides r entries (some id) = elim (get_entry id entries) as (λ _. Option Details) [
  | none ↦ none
  | some e ↦ some (
      to_details r.show id
        (elim (e.metadata) as (λ _. Option (List (FilePath × ℕ))) [
          | none ↦ none
          | some meta ↦ some meta.files
        ])
        e.progress e.wanted e.first (r.peers id))
]

unfoldable pub publish : Reports → Option StreamAt → Session → Session × Snapshot
unfolding publish_entry age sort get_entry to_details push new_snapshot
publish r at s =
    let (kept, rows, names, ids) = publish_all r s.queued s.entries in
    let (said, notice) = age s.notice in
    let fresh = new_snapshot (s.seq + 1) s.generation (sort by_id rows) in
    let history = push s.history fresh.stats.down_bps fresh.stats.up_bps in
    (
      record s {
        seq = s.seq + 1;
        entries = kept;
        arrived = s.arrived ++ ids;
        notice = notice;
        history = history;
      },
      record fresh {
        stream = at;
        details = insides r kept s.watching;
        pending = s.pending;
        notice = said;
        finished = names;
        history = history;
      },
    )

-- The setters and the list of the arrived.
unfoldable pub watch_details : Session → Option ℕ → Session
watch_details s id = record s { watching = id }

unfoldable pub set_add_paused : Session → Bool → Session
set_add_paused s stopped = record s { add_paused = stopped }

unfoldable pub set_keep_dir : Session → Option FilePath → Session
set_keep_dir s folder = record s { keep_dir = folder }

-- `set_output_dir`, for whether the folder can be made.
unfoldable pub set_output_dir : Bool → Session → FilePath → Session × Bool
set_output_dir made s dir = if made then (record s { output_dir = dir }, true) else (s, false)

unfoldable pub forget_history : Session → Session
unfolding clear
forget_history s = record s { history = clear s.history }

unfoldable pub next_arrived : Session → Option ℕ × Session
next_arrived s = elim (s.arrived) as (λ _. Option ℕ × Session) [
  | [] ↦ (none, s)
  | id ∷ rest ↦ (some id, record s { arrived = rest })
]

unfoldable pub forget_arrived : Session → Session
forget_arrived s = record s { arrived = [] }
