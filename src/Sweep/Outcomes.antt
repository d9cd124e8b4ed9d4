-- ===== src/Sweep/Outcomes.antt =====
-- What a sweep does to the folder.
use zerem.Prelude.{
  ℕ, true, false, none, some, List, ◌≡◌, ◌≢◌, refl, ap, arith, Bool-cases, inl, inr, length,
  length-append, Bool, if◌then◌else◌,
}
use zerem.Prelude.Text.{Text, codes, text_eq, text_eq_self, text_eq→eq}
use zerem.Watch.{WatchOutcome, added, failed, parked}
use zerem.Sweep.{Files, Replies, park}

parked-ne : (name : Text) (outcome : WatchOutcome) → parked name outcome ≢ name
unfolding parked
parked-ne name added e =
    let size = ap length e in let sum = length-append name (codes ".added") in absurd (omega arith)
parked-ne name failed e =
    let size = ap length e in let sum = length-append name (codes ".failed") in absurd (omega arith)

text_ne : (s t : Text) → s ≢ t → text_eq s t ≡ false
text_ne s t ne = elim (Bool-cases (text_eq s t)) [
  | inl same ↦ absurd (ne (text_eq→eq s t same))
  | inr e ↦ e
]

-- A file whose outcome is written for the first time is kept, with its bytes, under the new name, if the
-- rename is possible.
pub park_keeps :
    (os : Replies) (files : Files) (name : Text) (outcome : WatchOutcome) (bytes : List ℕ)
    → files name ≡ some bytes
    → files (parked name outcome) ≡ none
    → os.rename_ok files name ≡ true
    → (park os files name outcome (parked name outcome) ≡ some bytes)
      × (park os files name outcome name ≡ none)
unfolding park
park_keeps os files name outcome bytes here free ok =
    let apart = text_ne (parked name outcome) name (parked-ne name outcome) in
    (
      rw (free, here, ok, text_eq_self (parked name outcome)) refl,
      rw (free, here, ok, apart, text_eq_self name) refl,
    )

-- What the name of a file is made to say.
abbrev pub outcome_of : (Text → Bool) → Text → WatchOutcome
outcome_of add name = if add name then added else failed
