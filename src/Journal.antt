-- ===== src/Journal.antt =====
-- crates/zerem-engine/src/journal.rs: what is written down before a selection is narrowed, and the
-- roster of the torrents that the queue paused. A file on disk is a text, or `none` where there is no
-- file; whether a write or a removal succeeds is an argument.
pub mod RoundTrip
use zerem.Prelude.{
  is_nil, ℕ, Bool, true, false, not, Option, none, some, List, [], ◌∷◌, ◌++◌, map, keep,
  if◌then◌else◌, any, all, ◌&&◌, get_or,
}
use zerem.Prelude.Text.{Text, decimal, parse_uint, lines, split_whitespace, trim, is_empty, text_eq}
use zerem.Prelude.Maps.{lookup, insert, remove}
use zerem.Prelude.Words.{u64_max}

-- The selections by the info hash, and the file `narrowed.txt`.
pub record Journal : Type 0 where
  pub entries : List (Text × List ℕ)
  pub file : Option Text

-- `fields.filter_map(|f| f.parse().ok())`.
abbrev pub numbers : List Text → List ℕ
numbers [] = []
numbers (f ∷ fields) =
    let rest = numbers fields in elim (parse_uint u64_max f) [ none ↦ rest | some i ↦ i ∷ rest ]

abbrev pub parse_fields : List Text → Option (Text × List ℕ)
parse_fields [] = none
parse_fields (hash ∷ fields) =
    let wanted = numbers fields in if is_nil wanted then none else some (hash, wanted)

-- One line of the file: a hash and a selection, or nothing where the line is torn.
abbrev pub parse_line : Text → Option (Text × List ℕ)
parse_line line = parse_fields (split_whitespace line)

-- `collect` into a map: a later line for a hash replaces an earlier one.
abbrev pub gather : List (Text × List ℕ) → List Text → List (Text × List ℕ)
gather found [] = found
gather found (line ∷ rest) =
    gather (elim (parse_line line) [ none ↦ found | some (h, w) ↦ insert h w found ]) rest

unfoldable pub parse : Text → List (Text × List ℕ)
parse text = gather [] (lines text)

-- An unreadable file is an empty journal.
unfoldable pub open_journal : Option Text → Journal
unfolding parse
open_journal none = record { entries = []; file = none }
open_journal (some text) = record { entries = parse text; file = some text }

-- The selection, and the journal without it; nothing is written yet.
unfoldable pub take_entry : Journal → Text → Option (List ℕ) × Journal
take_entry j hash = (lookup hash j.entries, record j { entries = remove hash j.entries })

unfoldable pub is_unused : Journal → Bool
is_unused j = is_nil j.entries

abbrev pub print_fields : List ℕ → Text
print_fields [] = []
print_fields (i ∷ wanted) = (32 ∷ decimal i) ++ print_fields wanted

abbrev pub print_entries : List (Text × List ℕ) → Text
print_entries [] = []
print_entries ((hash, wanted) ∷ entries) =
    (hash ++ print_fields wanted) ++ (10 ∷ print_entries entries)

-- The new file replaces the old one at once, so a write that fails leaves the old one.
unfoldable pub write : Bool → Journal → Journal
write works j =
    if works
    then record j { file = if is_nil j.entries then none else some (print_entries j.entries) }
    else j

unfoldable pub set_entry : Bool → Journal → Text → Option (List ℕ) → Journal
unfolding write
set_entry works j hash (some wanted) =
    write works (record j { entries = insert hash wanted j.entries })
set_entry works j hash none = write works (record j { entries = remove hash j.entries })

unfoldable pub flush : Bool → Journal → Journal
unfolding write
flush works j = write works j

-- The roster: the hashes, and the file `queued.txt`.
pub record Roster : Type 0 where
  pub hashes : List Text
  pub file : Option Text

unfoldable pub open_roster : Option Text → Roster
open_roster none = record { hashes = []; file = none }
open_roster (some text) = record {
  hashes = keep (λ l. not (is_empty l)) (map trim (lines text));
  file = some text;
}

unfoldable pub holds_hash : Roster → Text → Bool
holds_hash r hash = any (λ h. text_eq h hash) r.hashes

abbrev pub print_hashes : List Text → Text
print_hashes [] = []
print_hashes (hash ∷ hashes) = hash ++ (10 ∷ print_hashes hashes)

abbrev pub lists : List Text → Text → Bool
lists hashes hash = any (λ h. text_eq h hash) hashes

-- `==` of two sets.
abbrev pub same_set : List Text → List Text → Bool
same_set a b = all (lists b) a && all (lists a) b

-- `keep`.
unfoldable pub keep_hashes : Bool → Roster → List Text → Roster
keep_hashes works r hashes = if same_set hashes r.hashes then r else record {
  hashes = hashes;
  file = if works then (if is_nil hashes then none else some (print_hashes hashes)) else r.file;
}
