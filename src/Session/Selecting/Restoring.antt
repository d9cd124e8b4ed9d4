-- ===== src/Session/Selecting/Restoring.antt =====
-- A selection that was narrowed is put back by the next run.
use zerem.Prelude.{
  ℕ, zero, suc, ◌+◌, ◌≤◌, Bool, true, false, Option, none, some, List, [], ◌∷◌, length, map,
  replicate, range_from, ◌==◌, if◌then◌else◌, ◌≡◌, refl, sym, ap, ◌∙◌, arith, All, All-keep,
  Bool-cases, Option-cases, inl, inr,
}
use zerem.Prelude.Text.{Text, text_eq, text_eq_self}
use zerem.Prelude.Maps.{lookup, remove, lookup-remove, lookup-insert}
use zerem.Prelude.Printing.{IsWord}
use zerem.Prelude.Words.{u64_max}
use zerem.Choice.{flags, is_narrowed, chosen_files, flag_at}
use zerem.Choice.Fetching.{flags-chosen, chosen-narrowed}
use zerem.Journal.{Journal, open_journal, set_entry, take_entry, write}
use zerem.Journal.RoundTrip.{IsRecordable, CanRecord, take-open-set}
use zerem.Session.{Entry, Handle, Answers, new_entry}
use zerem.Session.Selecting.{
  file_count, resolve_files, complete, target_of, current_of, recorded, choose, put_back,
  restore_one, restore_all,
}

-- What the library remembers of a torrent until the next run, and hands out then.
abbrev pub handle_of : Entry → Handle
handle_of e = record {
  id = e.id;
  info_hash = e.info_hash;
  name = e.name;
  folder = e.folder;
  metadata = e.metadata;
  progress = e.progress;
  only_files = e.only_files;
  paused = e.paused;
  failed = e.failed;
  finished = e.finished;
}

choose-wanted :
    (os : Answers) (j : Journal) (e : Entry)
    → ((choose os j e).2.wanted ≡ e.wanted) × ((choose os j e).2.first ≡ e.first)
unfolding choose
choose-wanted os j e = ground arith

recorded-narrowed :
    (e : Entry)
    → is_narrowed e.wanted e.first (complete e) ≡ true
    → recorded e ≡ some (chosen_files e.wanted)
unfolding recorded
recorded-narrowed e h = rw h refl

-- Where the selection changes, the journal is given what it has to be.
choose-journal :
    (os : Answers) (j : Journal) (e : Entry)
    → text_eq (current_of e) (target_of e) ≡ false
    → (choose os j e).1 ≡ set_entry os.write_ok j e.info_hash (recorded e)
unfolding choose
choose-journal os j e h = rw h refl

choose-handle :
    (os : Answers) (j : Journal) (e : Entry)
    → ((choose os j e).2.info_hash ≡ e.info_hash) × ((choose os j e).2.metadata ≡ e.metadata)
unfolding choose
choose-handle os j e = ground arith

sized : Entry → Entry
sized e = record e {
  wanted = flags e.only_files (file_count e);
  first = replicate (file_count e) false;
}

resolve-fresh :
    (e : Entry)
    → e.wanted ≡ []
    → (file_count e == 0) ≡ false
    → resolve_files e ≡ (sized e, file_count e)
unfolding resolve_files sized
resolve-fresh e fresh some_files = rw fresh (rw some_files refl)

pub resolve-fresh_wanted :
    (e : Entry)
    → e.wanted ≡ []
    → (file_count e == 0) ≡ false
    → (resolve_files e).0.wanted ≡ flags e.only_files (file_count e)
unfolding sized
resolve-fresh_wanted e fresh some_files = ap (λ r. r.0.wanted) (resolve-fresh e fresh some_files)

pub put_back-ticks :
    (os : Answers) (j : Journal) (e : Entry) (list : List ℕ)
    → e.wanted ≡ []
    → (file_count e == 0) ≡ false
    → ((put_back os j e list).1.wanted ≡ flags (some list) (file_count e))
      × ((put_back os j e list).1.first ≡ replicate (file_count e) false)
unfolding put_back
put_back-ticks os j e list fresh some_files = rw (resolve-fresh e fresh some_files) (
    rw some_files (
      choose-wanted os j (record (sized e) {
        wanted = flags (some list) (file_count e);
        first = replicate (file_count e) false;
      })))

range-below : (start n : ℕ) → start + n ≤ u64_max → All (λ i. i ≤ u64_max) (range_from start n)
range-below start zero h = tt
range-below start (suc n) h = (omega arith, range-below (start + 1) n (omega arith))

chosen-below :
    (wanted : List Bool) → length wanted ≤ u64_max → All (λ i. i ≤ u64_max) (chosen_files wanted)
chosen-below wanted h =
    All-keep (λ i. i ≤ u64_max) (λ i. flag_at wanted i) (range_from 0 (length wanted))
      (range-below 0 (length wanted) (omega arith))

restore_one-found :
    (os : Answers) (j : Journal) (e : Entry) (list : List ℕ)
    → (take_entry j e.info_hash).0 ≡ some list
    → restore_one os j e ≡ put_back os (take_entry j e.info_hash).1 e list
unfolding restore_one
restore_one-found os j e list h = rw (h, restore_one) refl

-- A selection that is narrowed by a pin outlives the run that narrowed it: a process that dies at any
-- point after that leaves a journal from which the next one restores the very ticks that were there,
-- and no pin. It is asked that the file could be written and the narrowing was new to the library, that
-- the torrent has a tick for each of its files (some, and no more than a usize counts), that its hash is
-- a word, and that the journal held hashes that stand there once, with selections of some files.
pub choose-restore :
    (os later : Answers) (j : Journal) (e : Entry)
    → os.write_ok ≡ true
    → is_narrowed e.wanted e.first (complete e) ≡ true
    → text_eq (current_of e) (target_of e) ≡ false
    → length e.wanted ≡ file_count e
    → (file_count e == 0) ≡ false
    → length e.wanted ≤ u64_max
    → IsWord e.info_hash
    → IsRecordable j.entries
    → ((restore_one later
          (open_journal (choose os j e).1.file)
          (new_entry (handle_of (choose os j e).2))).1.wanted
        ≡ e.wanted)
      × ((restore_one later
            (open_journal (choose os j e).1.file)
            (new_entry (handle_of (choose os j e).2))).1.first
          ≡ replicate (length e.wanted) false)
unfolding new_entry
choose-restore os later j e works narrowed changes sizes some_files fits word recordable =
    let e'' = (choose os j e).2 in
    let fresh = new_entry (handle_of e'') in
    let reopened = open_journal (choose os j e).1.file in
    let hash : e''.info_hash ≡ e.info_hash = (choose-handle os j e).0 in
    let count : file_count fresh ≡ file_count e =
      ap (λ m. file_count (record e { metadata = m })) (choose-handle os j e).1 in
    let written : (choose os j e).1 ≡ set_entry true j e.info_hash (some (chosen_files e.wanted)) =
      choose-journal os j e changes
      ∙ ap (λ w. set_entry w j e.info_hash (recorded e)) works
      ∙ ap (set_entry true j e.info_hash) (recorded-narrowed e narrowed) in
    let can : CanRecord e.info_hash (some (chosen_files e.wanted)) =
      (word, chosen-narrowed e.wanted e.first (complete e) narrowed, chosen-below e.wanted fits) in
    let found : (take_entry reopened fresh.info_hash).0 ≡ some (chosen_files e.wanted) =
      ap (λ h. (take_entry reopened h).0) hash
      ∙ ap (λ k. (take_entry (open_journal k.file) e.info_hash).0) written
      ∙ take-open-set j e.info_hash (some (chosen_files e.wanted)) e.info_hash recordable can
      ∙ rw (text_eq_self e.info_hash) refl in
    let (ticks, pins) =
      put_back-ticks later (take_entry reopened fresh.info_hash).1 fresh (chosen_files e.wanted)
        refl (rw count some_files) in
    rw (restore_one-found later reopened fresh (chosen_files e.wanted) found) (
      ticks ∙ ap (flags (some (chosen_files e.wanted))) (count ∙ sym sizes) ∙ flags-chosen e.wanted,
      pins ∙ ap (λ n. replicate n false) (count ∙ sym sizes),
    )

lookup-set_other :
    (works : Bool) (j : Journal) (hash : Text) (wanted : Option (List ℕ)) (other : Text)
    → text_eq hash other ≡ false
    → lookup other (set_entry works j hash wanted).entries ≡ lookup other j.entries
unfolding set_entry write
lookup-set_other works j hash none other h = ground (arith, lookup-remove hash other j.entries)
lookup-set_other works j hash (some list) other h =
    ground (arith, lookup-insert hash other list j.entries)

lookup-choose_other :
    (os : Answers) (j : Journal) (e : Entry) (other : Text)
    → text_eq e.info_hash other ≡ false
    → lookup other (choose os j e).1.entries ≡ lookup other j.entries
unfolding choose
lookup-choose_other os j e other h = elim (Bool-cases (text_eq (current_of e) (target_of e))) [
  | inl same ↦ rw same refl
  | inr differs ↦ rw differs (lookup-set_other os.write_ok j e.info_hash (recorded e) other h)
]

lookup-put_back_other :
    (os : Answers) (j : Journal) (e : Entry) (list : List ℕ) (other : Text)
    → text_eq e.info_hash other ≡ false
    → lookup other (put_back os j e list).0.entries ≡ lookup other j.entries
unfolding put_back
lookup-put_back_other os j e list other h =
    let e' = record ((resolve_files e).0) {
      wanted = flags (some list) (resolve_files e).1;
      first = replicate (resolve_files e).1 false;
    } in
    ground (arith, lookup-choose_other os j e' other, resolve-hash e)
  where
    resolve-hash : (e : Entry) → (resolve_files e).0.info_hash ≡ e.info_hash
    resolve-hash e = unfold resolve_files in ground arith

-- The restoring of one torrent touches no other hash in the journal.
lookup-restore_other :
    (os : Answers) (j : Journal) (e : Entry) (other : Text)
    → text_eq e.info_hash other ≡ false
    → lookup other (restore_one os j e).0.entries ≡ lookup other j.entries
unfolding restore_one take_entry
lookup-restore_other os j e other h = elim (Option-cases (lookup e.info_hash j.entries)) [
  | inl absent ↦ rw (absent, restore_one) (lookup-remove e.info_hash other j.entries ∙ rw h refl)
  | inr (list, there) ↦
      rw (there, restore_one)
        (lookup-put_back_other os (record j { entries = remove e.info_hash j.entries }) e list other
            h
          ∙ lookup-remove e.info_hash other j.entries
          ∙ rw h refl)
]

-- The ticks that a restart leaves a torrent with, for what the journal has of it.
abbrev pub ticks_after : Option (List ℕ) → Entry → List Bool
ticks_after none e = e.wanted
ticks_after (some list) e = if file_count e == 0 then e.wanted else flags (some list) (file_count e)

resolve-empty : (e : Entry) → e.wanted ≡ [] → (file_count e == 0) ≡ true → resolve_files e ≡ (e, 0)
unfolding resolve_files
resolve-empty e fresh empty = ground arith

nothing :
    (os : Answers) (j : Journal) (e : Entry) (list : List ℕ)
    → e.wanted ≡ []
    → (file_count e == 0) ≡ true
    → (put_back os j e list).1.wanted ≡ e.wanted
unfolding put_back
nothing os j e list fresh empty = rw (resolve-empty e fresh empty) refl

pub restore_one-ticks :
    (os : Answers) (j : Journal) (e : Entry)
    → e.wanted ≡ []
    → (restore_one os j e).1.wanted ≡ ticks_after (lookup e.info_hash j.entries) e
restore_one-ticks os j e fresh = elim (Option-cases (lookup e.info_hash j.entries)) [
  | inl absent ↦ unfold restore_one take_entry in rw (absent, restore_one) refl
  | inr (list, there) ↦ rw (restore_one-found os j e list (unfold take_entry in there)) (
      rw there (elim (Bool-cases (file_count e == 0)) [
        | inl empty ↦ rw empty (nothing os (take_entry j e.info_hash).1 e list fresh empty)
        | inr some_files ↦
            rw some_files (put_back-ticks os (take_entry j e.info_hash).1 e list fresh some_files).0
      ]))
]

-- No two torrents of a list share a hash.
abbrev pub HashesDiffer : List Entry → Type 0
HashesDiffer [] = Unit
HashesDiffer (e ∷ entries) =
    All (λ f. text_eq e.info_hash f.info_hash ≡ false) entries × HashesDiffer entries

same_ticks :
    (j k : Journal) (entries : List Entry)
    → All (λ f. lookup f.info_hash k.entries ≡ lookup f.info_hash j.entries) entries
    → map (λ e. ticks_after (lookup e.info_hash k.entries) e) entries
      ≡ map (λ e. ticks_after (lookup e.info_hash j.entries) e) entries
same_ticks j k [] h = refl
same_ticks j k (e ∷ entries) h =
    rw h.0 (ap (λ t. ticks_after (lookup e.info_hash j.entries) e ∷ t) (same_ticks j k entries h.1))

untouched :
    (os : Answers) (j : Journal) (e : Entry) (entries : List Entry)
    → All (λ f. text_eq e.info_hash f.info_hash ≡ false) entries
    → All
        (λ f. lookup f.info_hash (restore_one os j e).0.entries ≡ lookup f.info_hash j.entries)
        entries
untouched os j e [] h = tt
untouched os j e (f ∷ entries) h =
    (lookup-restore_other os j e f.info_hash h.0, untouched os j e entries h.1)

-- A restart gives every torrent that the journal names the ticks recorded for it, in whatever order the
-- torrents are gone through, and leaves the others for the library's own selection. It is asked that no
-- two torrents share a hash, and that no ticks were read yet.
restore_all-ticks :
    (os : Answers) (j : Journal) (entries : List Entry)
    → HashesDiffer entries
    → All (λ e. e.wanted ≡ []) entries
    → map (λ e. e.wanted) (restore_all os j entries).1
      ≡ map (λ e. ticks_after (lookup e.info_hash j.entries) e) entries
restore_all-ticks os j [] differ fresh = refl
restore_all-ticks os j (e ∷ entries) differ fresh =
    let rest =
      restore_all-ticks os (restore_one os j e).0 entries differ.1 fresh.1
      ∙ same_ticks j (restore_one os j e).0 entries (untouched os j e entries differ.0) in
    cc (restore_one-ticks os j e fresh.0, rest)
