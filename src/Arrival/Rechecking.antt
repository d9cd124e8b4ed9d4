-- ===== src/Arrival/Rechecking.antt =====
-- What checking a torrent again does to its selection.
use zerem.Prelude.{
  ℕ, Bool, true, false, not, Option, none, some, List, [], ◌∷◌, all, length, replicate, ◌==◌, ◌≡◌,
  refl, sym, ap, ◌∙◌, arith, Bool-cases, inl, inr, &&-true,
}
use zerem.Prelude.Paths.{FilePath}
use zerem.Choice.{flags}
use zerem.Choice.Fetching.{flags-chosen}
use zerem.Session.{Entry, Handle, Session, Metadata, new_entry}
use zerem.Session.Entries.{get_entry, drop_entry, get-put}
use zerem.Session.Adding.{Adder}
use zerem.Session.Adding.Removing.{adopt_moved, heir}
use zerem.Session.Selecting.{file_count, resolve_files}
use zerem.Session.Selecting.Restoring.{resolve-fresh_wanted}
use zerem.Arrival.{rebuilt, rebuild, recheck, in_place}

-- A library that adds a torrent with the selection it is handed, and knows its files.
pub record IsHonest (adder : Adder) (count : ℕ) : Type 0 where
  pub selects :
      (bytes : List ℕ) (only : Option (List ℕ)) (folder : FilePath) (stopped : Bool) {h : Handle}
      → adder bytes only folder stopped ≡ some h
      → (h.only_files ≡ only) × (file_count (new_entry h) ≡ count)

rechecked :
    (adder : Adder) (s : Session) (id : ℕ) (e : Entry) (meta : Metadata) (h : Handle)
    → get_entry id s.entries ≡ some e
    → e.metadata ≡ some meta
    → adder meta.bytes (in_place e meta).only_files e.folder (not e.wanted_running) ≡ some h
    → recheck true adder s id ≡ (adopt_moved s id h, rebuilt)
unfolding recheck rebuild
rechecked adder s id e meta h there read added =
    rw (there, recheck) (rw read (rw added (rw (there, adopt_moved) refl)))

heir_entry :
    (s : Session) (was : ℕ) (h : Handle) (e : Entry)
    → get_entry was s.entries ≡ some e
    → get_entry h.id (adopt_moved s was h).entries ≡ some (heir h (some e))
unfolding adopt_moved
heir_entry s was h e there =
    rw there (ground (arith, get-put h.id (heir h (some e)) (drop_entry was s.entries)))

all-replicate :
    (wanted : List Bool) → all (λ w. w) wanted ≡ true → wanted ≡ replicate (length wanted) true
all-replicate [] h = refl
all-replicate (w ∷ wanted) h =
    let (x, y) = &&-true w (all (λ v. v) wanted) h in cc (x, all-replicate wanted y)

-- The selection that a torrent is rebuilt with says its ticks.
flags-in_place :
    (e : Entry) (meta : Metadata) → flags (in_place e meta).only_files (length e.wanted) ≡ e.wanted
flags-in_place e meta = elim (Bool-cases (all (λ w. w) e.wanted)) [
  | inl every ↦ rw every (unfold flags in sym (all-replicate e.wanted every))
  | inr some_not ↦ rw some_not (flags-chosen e.wanted)
]

heir-resolve :
    (h : Handle) (e : Entry) (count : ℕ)
    → file_count (new_entry h) ≡ count
    → (count == 0) ≡ false
    → (resolve_files (heir h (some e))).0.wanted ≡ flags h.only_files count
unfolding new_entry
heir-resolve h e count known some_files =
    resolve-fresh_wanted (heir h (some e)) refl (rw known some_files)
    ∙ ap (flags h.only_files) known

-- A torrent whose ticks were read is checked again with these ticks: what the library is handed, read
-- back when the ticks are wanted next, is what was ticked. It is asked that the library lets go of the
-- torrent and takes it back, that it keeps to the selection it is handed, and that there is a tick for
-- each file.
recheck-ticks :
    (adder : Adder) (s : Session) (id : ℕ) (e : Entry) (meta : Metadata) (h : Handle)
    → IsHonest adder (length e.wanted)
    → get_entry id s.entries ≡ some e
    → e.metadata ≡ some meta
    → (length e.wanted == 0) ≡ false
    → adder meta.bytes (in_place e meta).only_files e.folder (not e.wanted_running) ≡ some h
    → (e' : Entry) × (get_entry h.id (recheck true adder s id).0.entries ≡ some e')
      × ((resolve_files e').0.wanted ≡ e.wanted)
recheck-ticks adder s id e meta h honest there read some_ticks added =
    let (only, count) =
      honest.selects meta.bytes (in_place e meta).only_files e.folder (not e.wanted_running)
        added in
    (
      heir h (some e),
      rw (rechecked adder s id e meta h there read added) (heir_entry s id h e there),
      heir-resolve h e (length e.wanted) count some_ticks
          ∙ ap (λ o. flags o (length e.wanted)) only
          ∙ flags-in_place e meta,
    )

-- A torrent whose ticks were not read in this run, as after a restart, loses its selection when it is
-- checked again: whatever the library fetched of it before, it is then asked for every file. It is asked
-- that the library lets go of the torrent and takes it back, and keeps to the selection it is handed.
pub recheck-forgets :
    (adder : Adder) (s : Session) (id : ℕ) (e : Entry) (meta : Metadata) (h : Handle) (count : ℕ)
    → IsHonest adder count
    → get_entry id s.entries ≡ some e
    → e.metadata ≡ some meta
    → e.wanted ≡ []
    → (count == 0) ≡ false
    → adder meta.bytes (in_place e meta).only_files e.folder (not e.wanted_running) ≡ some h
    → (e' : Entry) × (get_entry h.id (recheck true adder s id).0.entries ≡ some e')
      × (e'.only_files ≡ none)
      × ((resolve_files e').0.wanted ≡ replicate count true)
recheck-forgets adder s id e meta h count honest there read unread some_files added =
    let (only, known) =
      honest.selects meta.bytes (in_place e meta).only_files e.folder (not e.wanted_running)
        added in
    let every : h.only_files ≡ none = only ∙ (rw unread refl) in
    (
      heir h (some e),
      rw (rechecked adder s id e meta h there read added) (heir_entry s id h e there),
      unfold new_entry in every,
      heir-resolve h e count known some_files ∙ ap (λ o. flags o count) every ∙ all_flags count,
    )
  where
    all_flags : (count : ℕ) → flags none count ≡ replicate count true
    all_flags count = unfold flags in refl
