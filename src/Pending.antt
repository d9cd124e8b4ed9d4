-- ===== src/Pending.antt =====
-- crates/zerem-core/src/pending.rs: a torrent that has been read but not yet accepted.
pub mod Selection
use zerem.Prelude.{
  ℕ, ◌+◌, ◌%◌, ◌^◌, ◌<◌, Bool, true, false, not, ◌&&◌, Option, none, some, List, [], ◌∷◌, keep, all,
  map, length, ltb, if◌then◌else◌, is_some,
}
use zerem.Prelude.Text.{Text}
use zerem.Prelude.Words.{u64_max, wrapping_sum}

pub record PendingFile : Type 0 where
  pub path : Text
  pub size : ℕ
  pub wanted : Bool

pub record Pending : Type 0 where
  pub source : Text
  pub name : Text
  pub info_hash : Text
  pub files : List PendingFile
  pub fetching : Bool
  pub error : Option Text

unfoldable pub fetching : Text → Pending
fetching source = record {
  source = source;
  name = source;
  info_hash = [];
  files = [];
  fetching = true;
  error = none;
}

unfoldable pub failed : Text → Text → Pending
failed source error = record {
  source = source;
  name = source;
  info_hash = [];
  files = [];
  fetching = false;
  error = some error;
}

-- The sums are of u64.
unfoldable pub selected_size : Pending → ℕ
selected_size p = wrapping_sum (map (λ f. f.size) (keep (λ f. f.wanted) p.files))

unfoldable pub total_size : Pending → ℕ
total_size p = wrapping_sum (map (λ f. f.size) p.files)

unfoldable pub selected_count : Pending → ℕ
selected_count p = length (keep (λ f. f.wanted) p.files)

-- `files.iter().enumerate().filter(wanted).map(index)`.
pub wanted_from : ℕ → List PendingFile → List ℕ
wanted_from i [] = []
wanted_from i (f ∷ files) =
    let rest = wanted_from (i + 1) files in if f.wanted then i ∷ rest else rest

unfoldable pub only_files : Pending → Option (List ℕ)
unfolding wanted_from
only_files p = if all (λ f. f.wanted) p.files then none else some (wanted_from 0 p.files)

unfoldable pub is_addable : Pending → Bool
unfolding selected_count
is_addable p = (not (is_some p.error) && not p.fetching) && ltb 0 (selected_count p)
