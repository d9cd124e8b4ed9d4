-- ===== src/Examples/PendingExamples.antt =====
-- Tests of crates/zerem-core/src/pending.rs.
use zerem.Prelude.{true, false, none, some, [], ◌∷◌, ◌≡◌, refl}
use zerem.Prelude.Text.{codes}
use zerem.Pending.{Pending, fetching, failed, selected_size, total_size, only_files, is_addable}

abbrev two_of_three : Pending
two_of_three = record {
  source = codes "magnet:?xt=urn:btih:abc";
  name = codes "Something";
  info_hash = codes "abc";
  files =
      record { path = codes "a"; size = 100; wanted = true }
      ∷ record { path = codes "b"; size = 900; wanted = false }
      ∷ record { path = codes "c"; size = 7; wanted = true }
      ∷ [];
  fetching = false;
  error = none;
}

only_files_partial : only_files two_of_three ≡ some (0 ∷ 2 ∷ [])
unfolding only_files
only_files_partial = refl

sizes_partial : (selected_size two_of_three ≡ 107) × (total_size two_of_three ≡ 1007)
unfolding selected_size total_size
sizes_partial = (refl, refl)

not_addable : (is_addable (fetching []) ≡ false) × (is_addable (failed [] []) ≡ false)
unfolding is_addable fetching failed
not_addable = (refl, refl)
