-- ===== src/Torrent.antt =====
-- crates/zerem-core/src/torrent.rs: a torrent as one row of the table, and the session's totals.
pub mod Transitions
pub mod Totals
use zerem.Prelude.{
  ℕ, ◌+◌, ◌*◌, ◌%◌, ◌^◌, ◌≤◌, Bool, true, false, not, ◌&&◌, ◌||◌, Option, none, some, List, [], ◌∷◌,
  ◌++◌, all, any, leb, ◌==◌, if◌then◌else◌, get_or,
}
use zerem.Prelude.Text.{Text, codes}
use zerem.Prelude.Words.{checked_div}
use zerem.Content.{Content}

-- Why a torrent that wants to download is not.
pub data Stall : Type 0 where
  metadata no_peers connecting idle no_files : Stall

pub data State : Type 0 where
  paused checking downloading seeding error queued : State

-- The labels, through `tr`, the translation into the current language.
unfoldable pub stall_label : (Text → Text) → Stall → Text
stall_label tr metadata = tr (codes "Fetching metadata")
stall_label tr no_peers = tr (codes "No peers found")
stall_label tr connecting = tr (codes "Connecting")
stall_label tr idle = tr (codes "No one is sharing")
stall_label tr no_files = tr (codes "No files selected")

unfoldable pub is_fault : Stall → Bool
is_fault metadata = false
is_fault no_peers = true
is_fault connecting = false
is_fault idle = true
is_fault no_files = true

unfoldable pub state_label : (Text → Text) → State → Text
state_label tr paused = tr (codes "Paused")
state_label tr checking = tr (codes "Checking")
state_label tr downloading = tr (codes "Downloading")
state_label tr seeding = tr (codes "Seeding")
state_label tr error = tr (codes "Error")
state_label tr queued = tr (codes "Queued")

unfoldable pub kind : State → ℕ
kind paused = 0
kind downloading = 1
kind seeding = 2
kind checking = 3
kind error = 4
kind queued = 6

unfoldable pub state_is_active : State → Bool
state_is_active paused = false
state_is_active error = false
state_is_active queued = false
state_is_active _ = true

pub record TorrentRow : Type 0 where
  pub id : ℕ
  pub name : Text
  pub name_key : Text
  pub size : ℕ
  pub done : ℕ
  pub state : State
  pub down_bps : ℕ
  pub up_bps : ℕ
  pub peers_connected : ℕ
  pub peers_total : ℕ
  pub eta : Option ℕ
  pub ratio_x100 : ℕ
  pub error : Option Text
  pub folder : Text
  pub info_hash : Text
  pub content : Content
  pub stall : Option Stall

unfoldable pub shared : ℕ → Text → Text → ℕ → TorrentRow
shared id name name_key size = record {
  id = id;
  name = name;
  name_key = name_key;
  size = size;
  done = 0;
  state = paused;
  down_bps = 0;
  up_bps = 0;
  peers_connected = 0;
  peers_total = 0;
  eta = none;
  ratio_x100 = 0;
  error = none;
  folder = [];
  info_hash = [];
  content = Content.unknown;
  stall = none;
}

-- `c.is_ascii_alphanumeric() || "-_.".contains(c)`.
abbrev pub is_plain : ℕ → Bool
is_plain c =
    (leb b'0' c && leb c b'9')
    || (leb b'A' c && leb c b'Z')
    || (leb b'a' c && leb c b'z')
    || any (λ p. p == c) (codes "-_.")

unfoldable pub magnet : TorrentRow → Text
magnet row =
    if all is_plain row.name
    then codes "magnet:?xt=urn:btih:" ++ (row.info_hash ++ (codes "&dn=" ++ row.name))
    else codes "magnet:?xt=urn:btih:" ++ row.info_hash

unfoldable pub pause : TorrentRow → TorrentRow
pause row = record row {
  state = paused;
  down_bps = 0;
  up_bps = 0;
  eta = none;
  error = none;
  stall = none;
}

unfoldable pub fail : TorrentRow → Text → TorrentRow
unfolding pause
fail row reason = record (pause row) { state = error; error = some reason }

unfoldable pub is_complete : TorrentRow → Bool
is_complete row = leb row.size row.done

unfoldable pub resume : TorrentRow → TorrentRow
unfolding is_complete
resume row = record row { state = if is_complete row then seeding else downloading; error = none }

unfoldable pub status_text : (Text → Text) → TorrentRow → Text
unfolding stall_label state_label
status_text tr row = elim row.error [
  | some reason ↦ reason
  | none ↦ elim row.stall [ some stall ↦ stall_label tr stall | none ↦ state_label tr row.state ]
]

unfoldable pub status_kind : TorrentRow → ℕ
unfolding kind is_fault
status_kind row = elim row.stall [
  | some stall ↦ if is_fault stall then 5 else kind row.state
  | none ↦ kind row.state
]

unfoldable pub is_active : TorrentRow → Bool
unfolding state_is_active
is_active row = state_is_active row.state

-- Hundredths of a per cent; `done * 10_000` is of u64.
unfoldable pub progress_bp : TorrentRow → ℕ
progress_bp row = get_or (checked_div ((row.done * 10000) % 2 ^ 64) row.size) 0

pub record SessionStats : Type 0 where
  pub down_bps : ℕ
  pub up_bps : ℕ
  pub active : ℕ
  pub paused : ℕ
  pub downloading : ℕ
  pub seeding : ℕ
  pub queued : ℕ
  pub failed : ℕ

abbrev pub no_stats : SessionStats
no_stats = record {
  down_bps = 0;
  up_bps = 0;
  active = 0;
  paused = 0;
  downloading = 0;
  seeding = 0;
  queued = 0;
  failed = 0;
}

abbrev pub bump : ℕ → ℕ
bump n = (n + 1) % 2 ^ 32

abbrev pub count_activity : TorrentRow → SessionStats → SessionStats
count_activity t acc =
    if is_active t
    then record acc { active = bump acc.active }
    else record acc { paused = bump acc.paused }

abbrev pub count_state : State → SessionStats → SessionStats
count_state downloading acc = record acc { downloading = bump acc.downloading }
count_state checking acc = record acc { downloading = bump acc.downloading }
count_state seeding acc = record acc { seeding = bump acc.seeding }
count_state queued acc = record acc { queued = bump acc.queued }
count_state error acc = record acc { failed = bump acc.failed }
count_state paused acc = acc

-- One round of the fold; the rates are of u64 and the counts of u32.
unfoldable pub count_row : SessionStats → TorrentRow → SessionStats
unfolding is_active
count_row acc t = count_state t.state (
    count_activity t (record acc {
      down_bps = (acc.down_bps + t.down_bps) % 2 ^ 64;
      up_bps = (acc.up_bps + t.up_bps) % 2 ^ 64;
    }))

pub fold_rows : SessionStats → List TorrentRow → SessionStats
unfolding count_row
fold_rows acc [] = acc
fold_rows acc (t ∷ rows) = fold_rows (count_row acc t) rows

unfoldable pub stats_of : List TorrentRow → SessionStats
unfolding fold_rows
stats_of rows = fold_rows no_stats rows
