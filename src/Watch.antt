-- ===== src/Watch.antt =====
-- crates/zerem-core/src/watch.rs: which files of a watched folder are torrents waiting to be added.
pub mod Parking
use zerem.Prelude.{ℕ, Bool, true, false, ◌&&◌, List, [], ◌∷◌, ◌++◌, length, ltb, keep}
use zerem.Prelude.Text.{Text, codes, to_ascii_lowercase, ends_with}

pub data WatchOutcome : Type 0 where
  added failed : WatchOutcome

abbrev pub torrent_suffix : Text
torrent_suffix = codes ".torrent"

unfoldable pub is_waiting : Text → Bool
is_waiting name =
    let lower = to_ascii_lowercase name in
    ends_with torrent_suffix lower && ltb (length torrent_suffix) (length lower)

unfoldable pub parked : Text → WatchOutcome → Text
parked name added = name ++ codes ".added"
parked name failed = name ++ codes ".failed"

unfoldable pub waiting : List Text → List Text
unfolding is_waiting
waiting listing = keep is_waiting listing
