-- ===== src/Session/Selecting/Pinning.antt =====
-- What the library fetches after a choice, and what the journal misses while a file is pinned.
use zerem.Prelude.{
  ℕ, zero, suc, ◌+◌, ◌≤◌, true, false, not, ◌&&◌, some, length, is_nil, keep, leb, range_from, ◌==◌,
  ◌≡◌, refl, sym, ap, ◌∙◌, arith, All, Bool-cases, inl, inr, le→leb,
}
use zerem.Prelude.Text.{text_eq, text_eq_self, text_eq→eq}
use zerem.Prelude.Maps.{lookup}
use zerem.Prelude.Sorting.{IsSorted, sort-sorted, keep-IsSorted}
use zerem.Choice.{flags, to_fetch, pinned_files, chosen_files, flag_at}
use zerem.Choice.Fetching.{flags-chosen}
use zerem.Journal.{Journal, write, open_journal}
use zerem.Journal.RoundTrip.{IsRecordable, open-write}
use zerem.Session.{Entry, Answers, new_entry}
use zerem.Session.Selecting.{file_count, complete, target_of, current_of, choose, restore_one}
use zerem.Session.Selecting.Restoring.{handle_of, restore_one-ticks}

range-after : (a start n : ℕ) → a ≤ start → All (λ y. leb a y ≡ true) (range_from start n)
range-after a start zero h = tt
range-after a start (suc n) h = (le→leb a start h, range-after a (start + 1) n (omega arith))

range-IsSorted : (start n : ℕ) → IsSorted leb (range_from start n)
range-IsSorted start zero = tt
range-IsSorted start (suc n) =
    (range-after start (start + 1) n (omega arith), range-IsSorted (start + 1) n)

target-IsSorted : (e : Entry) → IsSorted leb (target_of e)
unfolding target_of to_fetch
target-IsSorted e =
    let files = range_from 0 (length e.wanted) in
    let sorted = range-IsSorted 0 (length e.wanted) in
    let pinned =
      keep-IsSorted leb (λ i. not (flag_at (complete e) i))
        (keep (λ i. flag_at e.wanted i && flag_at e.first i) files)
        (keep-IsSorted leb (λ i. flag_at e.wanted i && flag_at e.first i) files sorted) in
    let chosen = keep-IsSorted leb (λ i. flag_at e.wanted i) files sorted in
    elim (Bool-cases (not (is_nil (pinned_files e.wanted e.first (complete e))))) [
      | inl some_pin ↦ rw some_pin pinned
      | inr no_pin ↦
          rw no_pin (elim (Bool-cases (length (chosen_files e.wanted) == length e.wanted)) [
            | inl every ↦ rw every sorted
            | inr fewer ↦ rw fewer chosen
          ])
    ]

aimed : Entry → Entry
aimed e = record e { only_files = some (target_of e) }

current-aimed : (e : Entry) → current_of (aimed e) ≡ target_of e
unfolding aimed current_of
current-aimed e = sort-sorted leb (target_of e) (target-IsSorted e)

target-aimed : (e : Entry) → target_of (aimed e) ≡ target_of e
unfolding aimed target_of complete
target-aimed e = refl

choose_same :
    (os : Answers) (j : Journal) (e : Entry)
    → text_eq (current_of e) (target_of e) ≡ true
    → choose os j e ≡ (true, j, e)
unfolding choose
choose_same os j e h = rw h refl

choose_other :
    (os : Answers) (j : Journal) (e : Entry)
    → os.update_ok e.id ≡ true
    → text_eq (current_of e) (target_of e) ≡ false
    → (choose os j e).2 ≡ aimed e
unfolding choose aimed
choose_other os j e agrees h = rw h (rw agrees refl)

-- After a choice that the library accepts, it fetches what the ticks and the pins add up to, and
-- choosing again asks it for nothing and writes nothing.
choose-settles :
    (os : Answers) (j k : Journal) (e : Entry)
    → os.update_ok e.id ≡ true
    → (current_of (choose os j e).2 ≡ target_of e)
      × (choose os k (choose os j e).2 ≡ (true, k, (choose os j e).2))
choose-settles os j k e agrees = elim (Bool-cases (text_eq (current_of e) (target_of e))) [
  | inl same ↦
      rw (choose_same os j e same)
        (text_eq→eq (current_of e) (target_of e) same, choose_same os k e same)
  | inr differs ↦ rw (choose_other os j e agrees differs) (
    current-aimed e,
    choose_same os k (aimed e)
        (rw (current-aimed e) (rw (target-aimed e) (text_eq_self (target_of e)))),
  )
]

target-pinned :
    (e : Entry)
    → is_nil (pinned_files e.wanted e.first (complete e)) ≡ false
    → target_of e ≡ pinned_files e.wanted e.first (complete e)
unfolding target_of to_fetch
target-pinned e h = rw h refl

-- While a pin holds the rest back, a change of the other ticks is not written down: neither the journal
-- nor its file is touched, and a run that opens that file after the process died puts back the ticks of
-- before, whatever the user ticked since. It is asked that the library fetches the pinned files already,
-- that the changed ticks leave the same files pinned, that there is a tick for each file and some file,
-- and that the file was written from entries that it can hold, among them the ticks of before.
pub choose-forgets :
    (os later : Answers) (j : Journal) (before after : Entry)
    → is_nil (pinned_files before.wanted before.first (complete before)) ≡ false
    → current_of before ≡ target_of before
    → pinned_files after.wanted after.first (complete after)
      ≡ pinned_files before.wanted before.first (complete before)
    → current_of after ≡ current_of before
    → length before.wanted ≡ file_count after
    → (file_count after == 0) ≡ false
    → write true j ≡ j
    → IsRecordable j.entries
    → lookup after.info_hash j.entries ≡ some (chosen_files before.wanted)
    → (choose os j after ≡ (true, j, after))
      × ((restore_one later
            (open_journal (choose os j after).1.file)
            (new_entry (handle_of (choose os j after).2))).1.wanted
          ≡ before.wanted)
unfolding new_entry
choose-forgets os later j before after held fetching same_pins same_fetch sizes some_files written
      can listed =
    let target : target_of after ≡ target_of before =
      target-pinned after (rw same_pins held) ∙ same_pins ∙ sym (target-pinned before held) in
    let in_step : text_eq (current_of after) (target_of after) ≡ true =
      rw (same_fetch ∙ fetching) (rw target (text_eq_self (target_of before))) in
    let kept = choose_same os j after in_step in
    let reopened : (open_journal j.file).entries ≡ j.entries =
      ap (λ k. (open_journal k.file).entries) (sym written) ∙ open-write j.entries j.file can in
    let found : lookup after.info_hash (open_journal j.file).entries
        ≡ some (chosen_files before.wanted) =
      ap (lookup after.info_hash) reopened ∙ listed in
    (
      kept,
      ap (λ c. (restore_one later (open_journal c.1.file) (new_entry (handle_of c.2))).1.wanted)
            kept
          ∙ restore_one-ticks later (open_journal j.file) (new_entry (handle_of after)) refl
          ∙ rw found (
              rw some_files (
                ap (flags (some (chosen_files before.wanted))) (sym sizes)
                ∙ flags-chosen before.wanted)),
    )
