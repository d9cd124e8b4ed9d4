-- ===== src/Examples/JournalExamples.antt =====
-- Tests of crates/zerem-engine/src/journal.rs.
use zerem.Prelude.{arith, none, some, true, [], ◌∷◌, ◌≡◌, refl, if◌then◌else◌}
use zerem.Prelude.Text.{codes, text_eq}
use zerem.Prelude.Maps.{lookup}
use zerem.Journal.{
  Journal, parse, set_entry, open_journal, take_entry, open_roster, keep_hashes, holds_hash,
}
use zerem.Journal.RoundTrip.{IsRecordable, take-open-set}

-- A torn line is skipped.
torn_lines :
    parse (codes "aaa 0 1 2\nbbb\n\nccc 4\nddd not-a-number\n")
    ≡ (codes "aaa", 0 ∷ 1 ∷ 2 ∷ []) ∷ (codes "ccc", 4 ∷ []) ∷ []
unfolding parse
torn_lines = refl

abbrev journal : Journal
journal = record { entries = (codes "aa", 0 ∷ 12 ∷ []) ∷ []; file = none }

recordable : IsRecordable journal.entries
recordable =
    ((refl, tt), (((refl, (refl, (refl, tt))), refl, (omega arith, (omega arith, tt))), tt))

-- The last selection that goes takes the file with it.
no_file : (set_entry true journal (codes "aa") none).file ≡ none
unfolding set_entry
no_file = refl

roster_reopened :
    holds_hash
      (open_roster
        (keep_hashes true
          (record { hashes = []; file = none })
          (codes "aa" ∷ codes "bb" ∷ [])).file)
      (codes "bb")
    ≡ true
unfolding open_roster keep_hashes holds_hash
roster_reopened = refl

take-open-set_example :
    (take_entry
      (open_journal (set_entry true journal (codes "bb") (some (1 ∷ []))).file)
      (codes "bb")).0
    ≡ (if text_eq (codes "bb") (codes "bb")
        then some (1 ∷ [])
        else lookup (codes "bb") journal.entries)
take-open-set_example =
    take-open-set journal (codes "bb") (some (1 ∷ [])) (codes "bb") recordable
      ((refl, (refl, (refl, tt))), refl, (omega arith, tt))
