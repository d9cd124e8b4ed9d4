-- ===== src/View/Narrowing.antt =====
-- Which rows are shown.
use zerem.Prelude.{◌≡◌, refl}
use zerem.View.{
  Shown, all_rows, only_downloading, only_seeding, only_queued, only_paused, only_failed, index,
  from_index,
}

-- What crosses into the window comes back as it was.
pub from_index-index : (shown : Shown) → from_index (index shown) ≡ shown
unfolding from_index index
from_index-index all_rows = refl
from_index-index only_downloading = refl
from_index-index only_seeding = refl
from_index-index only_queued = refl
from_index-index only_paused = refl
from_index-index only_failed = refl
