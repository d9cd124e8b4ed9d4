-- ===== src/Examples/CarryExamples.antt =====
-- Tests of crates/zerem-engine/src/relocate.rs.
use zerem.Prelude.{
  ℕ, true, false, some, none, List, [], ◌∷◌, take, ◌≡◌, ◌≢◌, refl, inl, if◌then◌else◌, subst, sym,
}
use zerem.Prelude.Paths.{normal, FilePath, path_eq, path_eq_self}
use zerem.Relocate.{Step}
use zerem.Carry.{
  Disk, Answers, broken, wrote, occupied, copy, carry, folders, rename, copy_and_delete, copy_one,
}
use zerem.Carry.Tracking.{IsTracked, IsSafe}
use zerem.Carry.Guarantees.{carry-IsSafe, carry_whole, carry_fault, carry_leftover, BreaksOff}

abbrev old_path : FilePath
old_path = normal (97 ∷ []) ∷ normal (102 ∷ []) ∷ []

abbrev new_path : FilePath
new_path = normal (98 ∷ []) ∷ normal (102 ∷ []) ∷ []

abbrev move_file : Step
move_file = record { from = old_path; to = new_path }

abbrev content : List ℕ
content = 7 ∷ 8 ∷ 9 ∷ []

abbrev before : Disk
before = record {
  files = λ p. if path_eq old_path p then some content else none;
  made = [];
  pruned = [];
}

-- A system on which everything goes well.
abbrev fine : Answers
fine = record {
  mkdir_ok = λ d p. true;
  rename_ok = λ d p q. true;
  copying = λ d p q. wrote 3;
  stat_ok = λ d p. true;
  remove_ok = λ d p. true;
}

-- Two volumes, and a copy that breaks off behind one byte.
abbrev failing : Answers
failing = record fine { rename_ok = λ d p q. false; copying = λ d p q. broken 1 }

ends_differ : old_path ≢ new_path
ends_differ e =
    let same = subst (λ p. path_eq p new_path ≡ true) (sym e) (path_eq_self new_path) in cc

tracked : IsTracked move_file (move_file ∷ [])
tracked = record { ends = ends_differ; others = (inl refl, tt) }

carry-fine : (carry fine (move_file ∷ []) before).0 ≡ none
unfolding carry folders rename
carry-fine = refl

carry-failing : (carry failing (move_file ∷ []) before).0 ≡ some (copy old_path)
unfolding carry folders rename copy_and_delete copy_one
carry-failing = refl

carry-IsSafe_example : IsSafe move_file content (carry failing (move_file ∷ []) before).1
carry-IsSafe_example =
    carry-IsSafe failing (move_file ∷ []) before move_file content tracked (inl refl) refl

carry_whole_example : (carry fine (move_file ∷ []) before).1.files new_path ≡ some content
carry_whole_example =
    carry_whole fine (move_file ∷ []) before move_file content tracked (inl refl) refl carry-fine

carry_fault_example : (carry failing (move_file ∷ []) before).1.files old_path ≡ some content
carry_fault_example =
    carry_fault failing (move_file ∷ []) before move_file content (copy old_path) ends_differ
      (λ d d' allowed. cc) (inl refl, tt) (inl refl) refl carry-failing

breaks_off : BreaksOff failing move_file 1
breaks_off = record { mkdir = λ d p. refl; apart = λ d. refl; breaks = λ d. refl }

carry_leftover_example :
    ((carry failing (move_file ∷ []) before).1.files new_path ≡ some (take 1 content))
    × (carry failing (move_file ∷ []) (carry failing (move_file ∷ []) before).1
        ≡ (some (occupied new_path), (carry failing (move_file ∷ []) before).1))
carry_leftover_example =
    carry_leftover failing move_file content 1 before breaks_off ends_differ refl refl
