-- ===== src/Examples/SelectingExamples.antt =====
-- Tests of the choice of files in crates/zerem-engine/src/session.rs.
use zerem.Prelude.{none, some, true, false, [], ◌∷◌, ◌≡◌, refl, map, arith, replicate, length}
use zerem.Prelude.Text.{codes}
use zerem.Choice.{flags, to_fetch, is_narrowed, ticked}
use zerem.Journal.{Journal, write, open_journal, set_entry, take_entry}
use zerem.Session.{Entry, new_entry}
use zerem.Session.Selecting.{
  choose, complete, target_of, current_of, recorded, set_file_first, set_file_wanted, restore_one,
}
use zerem.Session.Selecting.Restoring.{handle_of, choose-restore}
use zerem.Session.Selecting.Pinning.{choose-forgets}
use zerem.Examples.Fixtures.{obedient, session, running_one}

program : Unit {0}
unfolding choose complete target_of current_of recorded is_narrowed to_fetch flags ticked
    set_file_first set_file_wanted restore_one take_entry set_entry
program = tt

abbrev journal : Journal
journal = record { entries = []; file = none }

-- The first and the last of three files are ticked, and the first is pinned.
abbrev pinned : Entry
pinned = record running_one {
  wanted = true ∷ false ∷ true ∷ [];
  first = true ∷ false ∷ false ∷ [];
  only_files = some (2 ∷ 0 ∷ []);
}

abbrev narrowed : Entry
narrowed = record pinned { only_files = some (0 ∷ []) }

-- The last file was unticked meanwhile.
abbrev unticked : Entry
unticked = record narrowed { wanted = true ∷ false ∷ false ∷ [] }

written : Journal
written = record { entries = (codes "aa", 0 ∷ 2 ∷ []) ∷ []; file = some (codes "aa 0 2\n") }

pin_narrows : (choose obedient journal pinned).2 ≡ narrowed
unfolding program
pin_narrows = refl

pin_recorded :
    (choose obedient journal pinned).1
    ≡ record { entries = (codes "aa", 0 ∷ 2 ∷ []) ∷ []; file = some (codes "aa 0 2\n") }
unfolding program
pin_recorded = refl

-- The last file of a torrent whose lists were not sized yet.
first_of_all :
    map (λ e. e.only_files) (set_file_first obedient session 1 2 true).0.entries
    ≡ some (2 ∷ []) ∷ none ∷ []
unfolding program
first_of_all = refl

refused_tick : (set_file_wanted obedient session 1 (some (3 ∷ [])) false).1 ≡ false
unfolding program
refused_tick = refl

choose-restore_example :
    ((restore_one obedient
        (open_journal (choose obedient journal pinned).1.file)
        (new_entry (handle_of (choose obedient journal pinned).2))).1.wanted
      ≡ pinned.wanted)
    × ((restore_one obedient
          (open_journal (choose obedient journal pinned).1.file)
          (new_entry (handle_of (choose obedient journal pinned).2))).1.first
        ≡ replicate (length pinned.wanted) false)
unfolding program
choose-restore_example =
    choose-restore obedient obedient journal pinned refl refl refl refl refl (omega arith)
      (refl, (refl, (refl, tt))) (tt, tt)

choose-forgets_example :
    (choose obedient written unticked ≡ (true, written, unticked))
    × ((restore_one obedient
          (open_journal (choose obedient written unticked).1.file)
          (new_entry (handle_of (choose obedient written unticked).2))).1.wanted
        ≡ narrowed.wanted)
unfolding program written write
choose-forgets_example =
    choose-forgets obedient obedient written narrowed unticked refl refl refl refl refl refl refl
      ((refl, tt), (((refl, (refl, (refl, tt))), refl, (omega arith, (omega arith, tt))), tt)) refl
