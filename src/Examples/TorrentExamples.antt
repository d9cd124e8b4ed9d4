-- ===== src/Examples/TorrentExamples.antt =====
-- Tests of crates/zerem-core/src/torrent.rs.
use zerem.Prelude.{none, some, [], ◌≡◌, refl}
use zerem.Prelude.Text.{codes}
use zerem.Torrent.{Stall, State, TorrentRow, fail, magnet, progress_bp}
use zerem.Torrent.Transitions.{kind-injective, Failed, fail-Failed}

abbrev half_done : TorrentRow
half_done = record {
  id = 7;
  name = codes "a.iso";
  name_key = codes "a.iso";
  size = 10;
  done = 5;
  state = State.downloading;
  down_bps = 3;
  up_bps = 0;
  peers_connected = 0;
  peers_total = 0;
  eta = none;
  ratio_x100 = 0;
  error = none;
  folder = [];
  info_hash = codes "abc";
  content = zerem.Content.unknown;
  stall = some Stall.no_peers;
}

magnet_plain : magnet half_done ≡ codes "magnet:?xt=urn:btih:abc&dn=a.iso"
unfolding magnet
magnet_plain = refl

progress_half : progress_bp half_done ≡ 5000
unfolding progress_bp
progress_half = refl

kind-injective_example : State.queued ≡ State.queued
kind-injective_example = kind-injective State.queued State.queued refl

fail-Failed_example : Failed (λ t. t) (codes "disk") (fail half_done (codes "disk"))
fail-Failed_example = fail-Failed (λ t. t) half_done (codes "disk")
