-- ===== src/Journal/RoundTrip.antt =====
-- What the journal and the roster write down is what a later run reads.
use zerem.Prelude.{
  is_nil, ℕ, ◌≤◌, true, false, Option, none, some, List, [], ◌∷◌, ◌++◌, map, if◌then◌else◌, ◌≡◌,
  refl, sym, ap, subst, ◌∙◌, arith, Bool-cases, inl, inr, All, append-nil, append_assoc, All-append,
}
use zerem.Prelude.Text.{Text, decimal, lines, text_eq, text_eq→eq, text_eq_self}
use zerem.Prelude.Maps.{
  lookup, insert, remove, IsMap, lookup-insert, lookup-remove, insert-IsMap, remove-IsMap,
  insert-All, remove-All,
}
use zerem.Prelude.Printing.{
  IsInk, IsWord, IsInline, Ink-Inline, spaced, parse_uint-decimal, decimal-IsWord,
  split_whitespace-spaced, lines-line,
}
use zerem.Prelude.Words.{u64_max}
use zerem.Journal.{
  Journal, numbers, parse_fields, parse_line, gather, open_journal, print_fields, print_entries,
  write, set_entry, take_entry,
}

-- What can be written down: hashes of visible characters, each once, and selections of some files
-- whose numbers fit in a usize.
abbrev pub IsRecordable : List (Text × List ℕ) → Type 0
IsRecordable entries =
    IsMap entries
    × All (λ e. IsWord e.0 × (is_nil e.1 ≡ false) × All (λ i. i ≤ u64_max) e.1) entries

abbrev IsEntry : Text × List ℕ → Type 0
IsEntry e = IsWord e.0 × (is_nil e.1 ≡ false) × All (λ i. i ≤ u64_max) e.1

print_fields-spaced : (wanted : List ℕ) → print_fields wanted ≡ spaced (map decimal wanted)
print_fields-spaced [] = refl
print_fields-spaced (i ∷ wanted) = ap (λ t. 32 ∷ (decimal i ++ t)) (print_fields-spaced wanted)

numbers-decimal :
    (wanted : List ℕ) → All (λ i. i ≤ u64_max) wanted → numbers (map decimal wanted) ≡ wanted
numbers-decimal [] h = refl
numbers-decimal (i ∷ wanted) h =
    rw (parse_uint-decimal u64_max i h.0, numbers) (ap (λ t. i ∷ t) (numbers-decimal wanted h.1))

decimal-words : (wanted : List ℕ) → All IsWord (map decimal wanted)
decimal-words [] = tt
decimal-words (i ∷ wanted) = (decimal-IsWord i, decimal-words wanted)

parse_line-entry :
    (hash : Text) (wanted : List ℕ)
    → IsEntry (hash, wanted)
    → parse_line (hash ++ print_fields wanted) ≡ some (hash, wanted)
parse_line-entry hash wanted h =
    ap (λ t. parse_line (hash ++ t)) (print_fields-spaced wanted)
    ∙ ap parse_fields
        (split_whitespace-spaced hash (map decimal wanted) (h.0, decimal-words wanted))
    ∙ rw (numbers-decimal wanted h.2) (rw (h.1) refl)

Ink-Inlines : (s : Text) → All IsInk s → All IsInline s
Ink-Inlines [] h = tt
Ink-Inlines (c ∷ s) h = (Ink-Inline c h.0, Ink-Inlines s h.1)

spaced-Inlines : (ws : List Text) → All IsWord ws → All IsInline (spaced ws)
spaced-Inlines [] h = tt
spaced-Inlines (w ∷ ws) h =
    ((refl, refl), All-append IsInline w (spaced ws) (Ink-Inlines w h.0.1) (spaced-Inlines ws h.1))

line-Inlines :
    (hash : Text) (wanted : List ℕ)
    → IsEntry (hash, wanted)
    → All IsInline (hash ++ print_fields wanted)
line-Inlines hash wanted h = rw (print_fields-spaced wanted) (
    All-append IsInline hash (spaced (map decimal wanted)) (Ink-Inlines hash h.0.1)
      (spaced-Inlines (map decimal wanted) (decimal-words wanted)))

module _ {ℓ} {V : Type ℓ} where
  insert-fresh :
      (k : Text) (v : V) (m : List (Text × V))
      → lookup k m ≡ none
      → insert k v m ≡ m ++ ((k, v) ∷ [])
  insert-fresh k v [] h = refl
  insert-fresh k v ((j, w) ∷ m) h = elim (Bool-cases (text_eq j k)) [
    | inl e ↦ absurd (found (rw e at h))
    | inr e ↦ rw e (ap (λ t. (j, w) ∷ t) (insert-fresh k v m (rw e at h)))
  ]
    where
      found : some w ≡ none → ⊥
      found h = cc

  lookup-middle :
      (k : Text) (v : V) (m n : List (Text × V)) → lookup k (m ++ ((k, v) ∷ n)) ≡ none → ⊥
  lookup-middle k v [] n h = let there = text_eq_self k in ground (arith)
  lookup-middle k v ((j, w) ∷ m) n h = elim (Bool-cases (text_eq j k)) [
    | inl e ↦ ground arith
    | inr e ↦ lookup-middle k v m n (rw e at h)
  ]

  fresh-middle :
      (k : Text) (v : V) (m n : List (Text × V)) → IsMap (m ++ ((k, v) ∷ n)) → lookup k m ≡ none
  fresh-middle k v [] n h = refl
  fresh-middle k v ((j, w) ∷ m) n h = elim (Bool-cases (text_eq j k)) [
    | inl e ↦ absurd (
        lookup-middle k v m n
          (subst (λ t. lookup t (m ++ ((k, v) ∷ n)) ≡ none) (text_eq→eq j k e) h.0))
    | inr e ↦ rw e (fresh-middle k v m n h.1)
  ]

gather-entries :
    (found entries : List (Text × List ℕ))
    → IsMap (found ++ entries)
    → All IsEntry entries
    → gather found (lines (print_entries entries)) ≡ found ++ entries
gather-entries found [] maps h = rw append-nil refl
gather-entries found ((hash, wanted) ∷ entries) maps h =
    ap (gather found) (
      lines-line (hash ++ print_fields wanted) (print_entries entries)
        (line-Inlines hash wanted h.0))
    ∙ rw (parse_line-entry hash wanted h.0, gather)
        (rw (insert-fresh hash wanted found (fresh-middle hash wanted found entries maps)) (
          gather-entries (found ++ ((hash, wanted) ∷ [])) entries
            (subst IsMap (sym (append_assoc found ((hash, wanted) ∷ []) entries)) maps) h.1
          ∙ append_assoc found ((hash, wanted) ∷ []) entries))

pub open-write :
    (entries : List (Text × List ℕ)) (file : Option Text)
    → IsRecordable entries
    → (open_journal (write true (record { entries = entries; file = file })).file).entries ≡ entries
unfolding open_journal write
open-write [] file h = refl
open-write ((hash, wanted) ∷ entries) file h = gather-entries [] ((hash, wanted) ∷ entries) h.0 h.1

set-open :
    (j : Journal) (hash : Text) (wanted : Option (List ℕ)) (other : Text)
    → IsRecordable (set_entry true j hash wanted).entries
    → lookup other (open_journal (set_entry true j hash wanted).file).entries
      ≡ lookup other (set_entry true j hash wanted).entries
unfolding set_entry write
set-open j hash (some wanted) other h =
    ap (lookup other) (open-write (insert hash wanted j.entries) j.file h)
set-open j hash none other h = ap (lookup other) (open-write (remove hash j.entries) j.file h)

-- What can be recorded for a hash: a selection of some files, or that there is none.
abbrev pub CanRecord : Text → Option (List ℕ) → Type 0
CanRecord hash none = Unit {0}
CanRecord hash (some wanted) = IsEntry (hash, wanted)

-- Recording keeps a journal that can be written down.
pub set-IsRecordable :
    (j : Journal) (hash : Text) (wanted : Option (List ℕ))
    → IsRecordable j.entries
    → CanRecord hash wanted
    → IsRecordable (set_entry true j hash wanted).entries
unfolding set_entry write
set-IsRecordable j hash (some wanted) h can =
    (insert-IsMap hash wanted j.entries h.0, insert-All IsEntry hash wanted j.entries can h.1)
set-IsRecordable j hash none h can =
    (remove-IsMap hash j.entries h.0, remove-All IsEntry hash j.entries h.1)

lookup-set :
    (j : Journal) (hash : Text) (wanted : Option (List ℕ)) (other : Text)
    → lookup other (set_entry true j hash wanted).entries
      ≡ (if text_eq hash other then wanted else lookup other j.entries)
unfolding set_entry write
lookup-set j hash (some wanted) other = lookup-insert hash other wanted j.entries
lookup-set j hash none other = lookup-remove hash other j.entries

-- A run that opens the journal after another one recorded a selection, or that there is none any more,
-- takes what was recorded, and for every other hash what the journal had. It is asked that the write
-- went well, that every hash in the journal is a word that stands there once, and that every selection
-- names some files, by numbers that fit.
pub take-open-set :
    (j : Journal) (hash : Text) (wanted : Option (List ℕ)) (other : Text)
    → IsRecordable j.entries
    → CanRecord hash wanted
    → (take_entry (open_journal (set_entry true j hash wanted).file) other).0
      ≡ (if text_eq hash other then wanted else lookup other j.entries)
unfolding take_entry
take-open-set j hash wanted other h can =
    set-open j hash wanted other (set-IsRecordable j hash wanted h can)
    ∙ lookup-set j hash wanted other
