-- ===== src/Mapping.antt =====
-- crates/zerem-engine/src/map.rs: from what the library reports of a torrent to its row.
pub mod Stalling
use zerem.Prelude.{
  ℕ, zero, suc, ◌+◌, ◌*◌, ◌/◌, ◌^◌, min, Bool, true, false, not, ◌&&◌, ◌||◌, Option, none, some,
  List, [], ◌∷◌, ltb, leb, ◌==◌, if◌then◌else◌, get_or, ◌>>=◌,
}
use zerem.Prelude.Text.{Text, codes, text_eq}
use zerem.Prelude.Words.{
  u8_max, u32_max, u64_max, checked_sub, checked_div, saturating_add, saturating_mul,
}
use zerem.Fault.{explain}
use zerem.Torrent.{
  Stall, metadata, no_peers, connecting, idle, State, paused, checking, downloading, seeding, error,
  TorrentRow, is_active, shared,
}

-- The reports of librqbit, as far as they are read.
pub data StatsState : Type 0 where
  failed live halted : StatsState
  initializing : Bool → StatsState

pub record Live : Type 0 where
  pub download_speed : ℕ
  pub upload_speed : ℕ
  pub live_peers : ℕ
  pub seen_peers : ℕ

pub record TorrentStats : Type 0 where
  pub state : StatsState
  pub finished : Bool
  pub total_bytes : ℕ
  pub progress_bytes : ℕ
  pub uploaded_bytes : ℕ
  pub error : Option Text
  pub live : Option Live

unfoldable pub state_of : TorrentStats → State
state_of stats = elim (stats.state) as (λ _. State) [
  | failed ↦ State.error
  | halted ↦ State.paused
  | initializing halted_too ↦ if halted_too then State.paused else State.checking
  | live ↦ if stats.finished then State.seeding else State.downloading
]

-- `u32::try_from(n).unwrap_or(u32::MAX)`.
abbrev pub clamp_u32 : ℕ → ℕ
clamp_u32 n = if leb n u32_max then n else u32_max

unfoldable pub ratio_x100 : ℕ → ℕ → ℕ
ratio_x100 uploaded total =
    elim (checked_div (saturating_mul u64_max uploaded 100) total) as (λ _. ℕ) [
      | none ↦ 0
      | some r ↦ clamp_u32 r
    ]

unfoldable pub eta_secs : ℕ → ℕ → ℕ → Option ℕ
eta_secs size done down_bps = do
  remaining ← checked_sub size done
  if remaining == 0 || down_bps == 0 then none else some (clamp_u32 (remaining / down_bps))

pub data Transport : Type 0 where
  tcp utp socks unknown : Transport

unfoldable pub transport_of : Option Text → Transport
transport_of none = unknown
transport_of (some kind) =
    if text_eq kind (codes "tcp")
    then tcp
    else if text_eq kind (codes "uTP")
    then utp
    else if text_eq kind (codes "socks")
    then socks
    else unknown

-- `state == State::Downloading`.
abbrev pub is_downloading : State → Bool
is_downloading downloading = true
is_downloading _ = false

abbrev pub still_ticks : ℕ
still_ticks = 10

-- Why a download that stands still does.
abbrev pub diagnosis : ℕ → ℕ → Stall
diagnosis total connected =
    if total == 0 then no_peers else if connected == 0 then connecting else idle

-- `Trend::stall`: the reason, and the counter `still`, a u8, behind it.
unfoldable pub stall_of : ℕ → TorrentRow → Option Stall × ℕ
unfolding is_active
stall_of still row =
    if row.size == 0 && is_active row
    then (some metadata, still)
    else if not (is_downloading row.state) || ltb 0 row.down_bps
    then (none, 0)
    else (
      if ltb (saturating_add u8_max still 1) still_ticks
          then none
          else some (diagnosis row.peers_total row.peers_connected),
      saturating_add u8_max still 1,
    )

-- `explain(raw).unwrap_or(raw)`, of the error that librqbit gave, or of the sentence that stands for
-- none.
abbrev pub explained : (Text → Option Text) → Option Text → Text
explained explain raw =
    let said = get_or raw (codes "stopped for an unreported reason") in get_or (explain said) said

-- The row, for the rates that `Rate::update` publishes.
unfoldable pub to_row :
    (Text → Text) → Bool → ℕ → Text → Text → TorrentStats → ℕ → ℕ → ℕ → TorrentRow × ℕ
unfolding state_of ratio_x100 eta_secs stall_of shared explain
to_row tr windows id name name_key stats down up still =
    let fresh = shared id name name_key stats.total_bytes in
    let reason = elim (stats.state) as (λ _. Option Text) [
      | failed ↦ some (explained (explain tr windows) stats.error)
      | _ ↦ none
    ] in
    let settled = record fresh {
      done = stats.progress_bytes;
      state = state_of stats;
      ratio_x100 = ratio_x100 stats.uploaded_bytes stats.total_bytes;
      error = reason;
    } in
    let moving = elim (stats.live) as (λ _. TorrentRow) [
      | none ↦ settled
      | some peers ↦ record settled {
        down_bps = down;
        up_bps = up;
        peers_connected = peers.live_peers;
        peers_total = peers.seen_peers;
        eta = eta_secs stats.total_bytes stats.progress_bytes down;
      }
    ] in
    let (stall, after) = stall_of still moving in (record moving { stall = stall }, after)
