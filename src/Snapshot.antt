-- ===== src/Snapshot.antt =====
-- crates/zerem-engine/src/snapshot.rs: what the engine publishes and the window draws.
use zerem.Prelude.{ℕ, ◌==◌, Option, none, List, [], position_from}
use zerem.Prelude.Text.{Text}
use zerem.History.{History, default}
use zerem.Pending.{Pending}
use zerem.Detail.{Details}
use zerem.Torrent.{TorrentRow, SessionStats, stats_of}

-- `StreamAt` is `zerem_core::Stream`: where the streaming server answers, and its key.
pub record StreamAt : Type 0 where
  pub port : ℕ
  pub key : Text

pub record Snapshot : Type 0 where
  pub stream : Option StreamAt
  pub seq : ℕ
  pub details : Option Details
  pub pending : Option Pending
  pub generation : ℕ
  pub stats : SessionStats
  pub torrents : List TorrentRow
  pub notice : Option Text
  pub finished : List Text
  pub history : History

unfoldable pub new_snapshot : ℕ → ℕ → List TorrentRow → Snapshot
unfolding stats_of default
new_snapshot seq generation torrents = record {
  stream = none;
  seq = seq;
  details = none;
  pending = none;
  generation = generation;
  stats = stats_of torrents;
  torrents = torrents;
  notice = none;
  finished = [];
  history = default;
}

unfoldable pub position_of : Snapshot → ℕ → Option ℕ
position_of s id = position_from 0 (λ t. t.id == id) s.torrents
