-- ===== src/Carry/Tracking.antt =====
-- One file of a plan, followed through a move.
pub mod Safety
pub mod Outcome
use zerem.Prelude.{
  ℕ, Bool, true, false, not, ◌&&◌, Option, none, some, List, [], ◌∷◌, ◌++◌, map, find, ◌==◌,
  if◌then◌else◌, is_some, ◌≡◌, ◌≢◌, refl, sym, ◌∙◌, subst, ap, arith, All, All-append, All-left,
  Bool-cases, Option-cases, inl, inr, ◌⊎◌,
}
use zerem.Prelude.Paths.{FilePath, path_eq}
use zerem.Relocate.{Step}
use zerem.Carry.{
  Disk, Answers, Fault, exists, rename, remove_file, remove_files, copy_one, copy_all,
  copy_and_delete, undo, rename_all, make_folders, prune, carry,
}
use zerem.Carry.Store.{
  rename_other, remove_file_other, remove_files_other, copy_one_other, rename_lem, copy_one_lem,
}

-- Another step shares no path with this one.
pub record IsApart (x y : Step) : Type 0 where
  pub from_from : y.from ≢ x.from
  pub from_to : y.from ≢ x.to
  pub to_from : y.to ≢ x.from
  pub to_to : y.to ≢ x.to

abbrev pub IsSameOrApart : Step → Step → Type 0
IsSameOrApart x y = (y ≡ x) ⊎ IsApart x y

-- A step whose two ends differ, among steps that share no path with it.
pub record IsTracked (x : Step) (plan : List Step) : Type 0 where
  pub ends : x.from ≢ x.to
  pub others : All (IsSameOrApart x) plan

abbrev pub Listed : Step → List Step → Type 0
Listed x [] = ⊥
Listed x (y ∷ steps) = (y ≡ x) ⊎ Listed x steps

-- Where the file with these bytes is: at its old path with the new one free, or at its new path.
abbrev pub Here : Step → List ℕ → Disk → Type 0
Here x bytes d = (d.files x.from ≡ some bytes) × (d.files x.to ≡ none)

abbrev pub There : Step → List ℕ → Disk → Type 0
There x bytes d = (d.files x.from ≡ none) × (d.files x.to ≡ some bytes)

-- The file is at one of the two.
abbrev pub IsSafe : Step → List ℕ → Disk → Type 0
IsSafe x bytes d = (d.files x.from ≡ some bytes) ⊎ (d.files x.to ≡ some bytes)

module _ (os : Answers) (x : Step) (bytes : List ℕ) (ends : x.from ≢ x.to) where
  -- What the copying pass keeps: `done` never names the old path, nor the new one of a file that is
  -- only there.
  pub record Keeps (done : List FilePath) (d : Disk) : Type 0 where
    pub off_from : All (λ p. p ≢ x.from) done
    pub place : (d.files x.from ≡ some bytes) ⊎ (There x bytes d × All (λ p. p ≢ x.to) done)

  Keeps-IsSafe :
      (done : List FilePath) (d : Disk) → Keeps done d → IsSafe x bytes (remove_files os d done)
  Keeps-IsSafe done d k = elim k.place [
    | inl here ↦ inl (rw (remove_files_other os d done x.from k.off_from) here)
    | inr (there, off_to) ↦ inr (rw (remove_files_other os d done x.to off_to) there.1)
  ]

  to_ne_from : (y : Step) → IsSameOrApart x y → y.to ≢ x.from
  to_ne_from y (inl e) = λ same. ends (cc)
  to_ne_from y (inr a) = a.to_from

  copy_one-from :
      (d : Disk) (y : Step) → IsSameOrApart x y → (copy_one os d y).1.files x.from ≡ d.files x.from
  copy_one-from d y c = elim c [
    | inl e ↦ copy_one_other os d y x.from (λ same. ends (cc))
    | inr a ↦ copy_one_other os d y x.from a.to_from
  ]

  copy_one-Keeps :
      (done : List FilePath) (d : Disk) (y : Step)
      → IsSameOrApart x y
      → exists d y.from ≡ true
      → Keeps done d
      → Keeps (done ++ y.to ∷ []) (copy_one os d y).1
  copy_one-Keeps done d y (inl e) found k = record {
    off_from = All-append (λ p. p ≢ x.from) done (y.to ∷ []) k.off_from ((λ same. ends (cc)), tt);
    place = elim k.place [
      | inl here ↦ inl (rw (copy_one-from d y (inl e)) here)
      | inr (there, _) ↦
          let h : exists d x.from ≡ true = subst (λ s. exists d s.from ≡ true) e found in
          absurd (ground arith)
    ];
  }
  copy_one-Keeps done d y (inr a) found k = record {
    off_from = All-append (λ p. p ≢ x.from) done (y.to ∷ []) k.off_from (a.to_from, tt);
    place = elim k.place [
      | inl here ↦ inl (rw (copy_one-from d y (inr a)) here)
      | inr (there, off) ↦ inr (
        (rw (copy_one-from d y (inr a)) there.0, rw (copy_one_other os d y x.to a.to_to) there.1),
        All-append (λ p. p ≢ x.to) done (y.to ∷ []) off (a.to_to, tt),
      )
    ];
  }

  -- A fault of one copy leaves the file where it was, and what was written before it can go.
  copy_one_fault-IsSafe :
      (done : List FilePath) (d : Disk) (y : Step)
      → IsSameOrApart x y
      → Keeps done d
      → (exists d y.from ≡ true) ⊎ ((copy_one os d y).1 ≡ d)
      → IsSafe x bytes (remove_files os (copy_one os d y).1 done)
  copy_one_fault-IsSafe done d y c k (inr same) = rw same (Keeps-IsSafe done d k)
  copy_one_fault-IsSafe done d y c k (inl found) =
      let k' = copy_one-Keeps done d y c found k in
      Keeps-IsSafe done (copy_one os d y).1 (record {
        off_from = k.off_from;
        place = elim k'.place [
          | inl here ↦ inl here
          | inr (there, off) ↦ inr (there, All-left (λ p. p ≢ x.to) done (y.to ∷ []) off)
        ];
      })

  missing_copy :
      (d : Disk) (y : Step)
      → exists d y.from ≡ false
      → ((copy_one os d y).1 ≡ d) × ((copy_one os d y).0 ≢ none)
  unfolding copy_one
  missing_copy d y e = elim (Option-cases (d.files y.from)) [
    | inl n ↦ rw (n, copy_one) (refl, λ h. cc)
    | inr (b, n) ↦ absurd (ground arith)
  ]

  -- The copying pass over any steps leaves the file at one of its two places.
  pub copy_all-IsSafe :
      (done : List FilePath) (steps : List Step) (d : Disk)
      → All (IsSameOrApart x) steps
      → Keeps done d
      → IsSafe x bytes (copy_all os done steps d).1
  unfolding copy_all
  copy_all-IsSafe done [] d c k = elim k.place [ inl here ↦ inl here | inr t ↦ inr (t.0.1) ]
  copy_all-IsSafe done (y ∷ steps) d c k =
      elim (Bool-cases (not (exists d y.from) && exists d y.to)) [
        | inl e ↦ rw e (copy_all-IsSafe done steps d c.1 k)
        | inr e ↦ rw e (elim (Bool-cases (exists d y.from)) [
          | inl found ↦ elim (Option-cases (copy_one os d y).0) [
            | inl ok ↦ rw ok (
                copy_all-IsSafe (done ++ y.to ∷ []) steps (copy_one os d y).1 c.1
                  (copy_one-Keeps done d y c.0 found k))
            | inr (why, bad) ↦ rw bad (copy_one_fault-IsSafe done d y c.0 k (inl found))
          ]
          | inr gone ↦ elim (Option-cases (copy_one os d y).0) [
            | inl ok ↦ absurd ((missing_copy d y gone).1 ok)
            | inr (why, bad) ↦
                rw bad (copy_one_fault-IsSafe done d y c.0 k (inr (missing_copy d y gone).0))
          ]
        ])
      ]

  -- The file's new path after one step: whole if the step is its own, and unchanged if not.
  copy_one_whole :
      (done : List FilePath) (d : Disk) (y : Step) (steps : List Step)
      → IsSameOrApart x y
      → exists d y.from ≡ true
      → Keeps done d
      → (copy_one os d y).0 ≡ none
      → Listed x (y ∷ steps) ⊎ (d.files x.to ≡ some bytes)
      → Listed x steps ⊎ ((copy_one os d y).1.files x.to ≡ some bytes)
  copy_one_whole done d y steps (inl e) found k ok h = elim k.place [
    | inl here ↦
        let own : d.files y.from ≡ some bytes =
          subst (λ s. d.files s.from ≡ some bytes) (sym e) here in
        inr (
          subst (λ s. (copy_one os d y).1.files s.to ≡ some bytes) e
            (copy_one_lem os d y bytes own ok))
    | inr (there, _) ↦
        let f : exists d x.from ≡ true = subst (λ s. exists d s.from ≡ true) e found in
        absurd (ground arith)
  ]
  copy_one_whole done d y steps (inr a) found k ok h = elim h [
    | inl l ↦ elim l [ inl e ↦ absurd (a.to_to (ap (λ s. s.to) e)) | inr later ↦ inl later ]
    | inr w ↦ inr (rw (copy_one_other os d y x.to a.to_to) w)
  ]

  skipped_whole :
      (done : List FilePath) (d : Disk) (y : Step) (steps : List Step)
      → (not (exists d y.from) && exists d y.to) ≡ true
      → Keeps done d
      → Listed x (y ∷ steps) ⊎ (d.files x.to ≡ some bytes)
      → Listed x steps ⊎ (d.files x.to ≡ some bytes)
  skipped_whole done d y steps e k (inr w) = inr w
  skipped_whole done d y steps e k (inl (inr later)) = inl later
  skipped_whole done d y steps e k (inl (inl same)) =
      let gone : (not (exists d x.from) && exists d x.to) ≡ true =
        subst (λ s. (not (exists d s.from) && exists d s.to) ≡ true) same e in
      elim k.place [ inl here ↦ absurd (ground arith) | inr t ↦ inr (t.0.1) ]

  -- Where the pass goes through, a listed file is whole at its new path.
  pub copy_all_whole :
      (done : List FilePath) (steps : List Step) (d : Disk)
      → All (IsSameOrApart x) steps
      → Keeps done d
      → Listed x steps ⊎ (d.files x.to ≡ some bytes)
      → (copy_all os done steps d).0 ≡ none
      → (copy_all os done steps d).1.files x.to ≡ some bytes
  unfolding copy_all
  copy_all_whole done [] d c k (inl l) ok = absurd l
  copy_all_whole done [] d c k (inr w) ok = w
  copy_all_whole done (y ∷ steps) d c k h ok =
      elim (Bool-cases (not (exists d y.from) && exists d y.to)) [
        | inl e ↦
            rw e
              (copy_all_whole done steps d c.1 k (skipped_whole done d y steps e k h) (rw e at ok))
        | inr e ↦
            let copied = rw e at ok in
            rw e (elim (Option-cases (copy_one os d y).0) [
              | inl fine ↦ elim (Bool-cases (exists d y.from)) [
                | inl found ↦ rw fine (
                    copy_all_whole (done ++ y.to ∷ []) steps (copy_one os d y).1 c.1
                      (copy_one-Keeps done d y c.0 found k)
                      (copy_one_whole done d y steps c.0 found k fine h) (rw fine at copied))
                | inr gone ↦ absurd ((missing_copy d y gone).1 fine)
              ]
              | inr (why, bad) ↦ let no_fault = rw bad at copied in cc
            ])
      ]

  -- The pass never touches the old path.
  pub copy_all-from :
      (done : List FilePath) (steps : List Step) (d : Disk)
      → All (IsSameOrApart x) steps
      → All (λ p. p ≢ x.from) done
      → (copy_all os done steps d).1.files x.from ≡ d.files x.from
  unfolding copy_all
  copy_all-from done [] d c off = refl
  copy_all-from done (y ∷ steps) d c off =
      elim (Bool-cases (not (exists d y.from) && exists d y.to)) [
        | inl e ↦ rw e (copy_all-from done steps d c.1 off)
        | inr e ↦ rw e (elim (Option-cases (copy_one os d y).0) [
          | inl fine ↦ rw fine (
              copy_all-from (done ++ y.to ∷ []) steps (copy_one os d y).1 c.1
                (All-append (λ p. p ≢ x.from) done (y.to ∷ []) off (to_ne_from y c.0, tt))
              ∙ copy_one-from d y c.0)
          | inr (why, bad) ↦
              rw bad
                (remove_files_other os (copy_one os d y).1 done x.from off ∙ copy_one-from d y c.0)
        ])
      ]
