-- ===== src/Examples/ArrivalExamples.antt =====
-- Tests of crates/zerem-engine/src/arrival.rs.
use zerem.Prelude.{
  ℕ, none, some, true, false, [], ◌∷◌, ◌≡◌, refl, subst, List, Option, replicate, if◌then◌else◌,
}
use zerem.Prelude.Text.{codes}
use zerem.Prelude.Paths.{FilePath, path_eq, normal}
use zerem.Relocate.{Step}
use zerem.Carry
use zerem.Carry.{Disk, copy, wrote, prune, emptied, make_folders}
use zerem.Session.{Entry, Handle, Metadata, Session, Move, enforce_queue, new_entry}
use zerem.Session.Entries.{get_entry}
use zerem.Session.Adding.{Adder}
use zerem.Session.Selecting.{resolve_files, file_count}
use zerem.Arrival.{carried, finish_move, pause_for_move, recheck}
use zerem.Arrival.Rechecking.{IsHonest, recheck-forgets}
use zerem.Arrival.Moving.{failed_move-stopped}
use zerem.Examples.Fixtures.{obedient, session, running_one, handle_one}

abbrev again : Option (List ℕ) → Handle
again only = record handle_one { id = 4; only_files = only }

abbrev adder : Adder
adder bytes only folder stopped = some (again only)

honest : IsHonest adder 3
unfolding new_entry
honest = record { selects = λ bytes only folder stopped added. (selected added, counted added) }
  where
    selected :
        {only : Option (List ℕ)} {h : Handle} → some (again only) ≡ some h → h.only_files ≡ only
    selected {only} {h} e = cc

    counted :
        {only : Option (List ℕ)} {h : Handle}
        → some (again only) ≡ some h
        → file_count (new_entry h) ≡ 3
    counted {only} {h} e =
        let same : again only ≡ h = cc in subst (λ k. file_count (new_entry k) ≡ 3) same refl

abbrev ticked_one : Entry
ticked_one = record running_one {
  wanted = true ∷ false ∷ true ∷ [];
  first = false ∷ false ∷ false ∷ [];
}

abbrev chosen_session : Session
chosen_session = record session { entries = ticked_one ∷ [] }

abbrev metadata_one : Metadata
metadata_one = record {
  files =
      (normal (codes "a.mkv") ∷ [], 700)
      ∷ (normal (codes "b.txt") ∷ [], 4)
      ∷ (normal (codes "c.txt") ∷ [], 5)
      ∷ [];
  bytes = 1 ∷ 2 ∷ [];
}

-- After a restart: the library fetches one file, and no ticks were read.
abbrev restarted : Entry
restarted = record running_one { only_files = some (0 ∷ []) }

recheck-forgets_example :
    (e' : Entry) × (get_entry 4
        (recheck true adder (record session { entries = restarted ∷ [] }) 1).0.entries
      ≡ some e')
    × (e'.only_files ≡ none)
    × ((resolve_files e').0.wanted ≡ replicate 3 true)
unfolding get_entry
recheck-forgets_example =
    recheck-forgets adder (record session { entries = restarted ∷ [] }) 1 restarted metadata_one
      (again none) 3 honest refl refl refl refl refl

abbrev old_path : FilePath
old_path = normal (codes "a") ∷ normal (codes "f") ∷ []

abbrev new_path : FilePath
new_path = normal (codes "b") ∷ normal (codes "f") ∷ []

abbrev move_file : Step
move_file = record { from = old_path; to = new_path }

abbrev move : Move
move = record {
  id = 1;
  keepsake = record {
    bytes = 1 ∷ [];
    only_files = none;
    plan = move_file ∷ [];
    output = normal (codes "b") ∷ [];
    was_running = true;
  };
}

abbrev disk : Disk
disk = record {
  files = λ p. if path_eq old_path p then some (7 ∷ []) else none;
  made = [];
  pruned = [];
}

abbrev fine : Carry.Answers
fine = record {
  mkdir_ok = λ d p. true;
  rename_ok = λ d p q. true;
  copying = λ d p q. wrote 1;
  stat_ok = λ d p. true;
  remove_ok = λ d p. true;
}

abbrev moving : Session
moving = record session { moving = some move }

failed_move-stopped_example :
    get_entry 1
      (enforce_queue obedient
        (finish_move true adder
          (λ e. [])
          (record (pause_for_move obedient (record session { limit = 0 }) 1) { moving = some move })
          (carried (some (copy old_path)))).0).entries
    ≡ some (record running_one { paused = true; wanted_running = true })
unfolding get_entry
failed_move-stopped_example =
    failed_move-stopped obedient true adder (λ e. []) (record session { limit = 0 }) move
      (copy old_path) running_one refl refl refl refl refl
