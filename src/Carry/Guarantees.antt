-- ===== src/Carry/Guarantees.antt =====
-- What a caller of `carry` can rely on, for each file of the plan, and where it falls short.
use zerem.Prelude.{
  ℕ, Bool, true, false, not, ◌&&◌, none, some, List, [], ◌∷◌, find, take, ◌≡◌, ◌≢◌, refl, sym, ◌∙◌,
  subst, ap, arith, All, Bool-cases, Option-cases, inl, inr,
}
use zerem.Prelude.Paths.{FilePath, path_eq_self}
use zerem.Relocate.{Step}
use zerem.Carry.{
  Disk, Answers, Copying, broken, Fault, remove_files, copy, occupied, exists, rename, copy_one,
  copy_all, copy_and_delete, undo, rename_all, make_folders, folders, prune, carry,
}
use zerem.Carry
use zerem.Carry.Store.{path_eq-false, make_folders-files}
use zerem.Carry.Tracking.{IsSameOrApart, IsTracked, Listed, Here, IsSafe}
use zerem.Carry.Tracking.Safety.{rename_all-IsSafe}
use zerem.Carry.Tracking.Outcome.{rename_all_whole, rename_all_fault, IsReversible}

find-none :
    (p : Step → Bool) (plan : List Step) (x : Step)
    → find p plan ≡ none
    → Listed x plan
    → p x ≡ false
find-none p [] x e l = absurd l
find-none p (y ∷ plan) x e (inl same) = elim (Bool-cases (p y)) [
  | inl t ↦ absurd (ground arith)
  | inr f ↦ subst (λ s. p s ≡ false) same f
]
find-none p (y ∷ plan) x e (inr l) = elim (Bool-cases (p y)) [
  | inl t ↦ absurd (ground arith)
  | inr f ↦ find-none p plan x (rw f at e) l
]

-- The file of a step, where the move was not refused at the start.
starts-Here :
    (os : Answers) (plan : List Step) (d : Disk) (x : Step) (bytes : List ℕ)
    → find (λ step. exists d step.to && exists d step.from) plan ≡ none
    → Listed x plan
    → d.files x.from ≡ some bytes
    → Here x bytes (make_folders os (folders plan) d).1
starts-Here os plan d x bytes e l h =
    let free = find-none (λ step. exists d step.to && exists d step.from) plan x e l in
    let same = make_folders-files os (folders plan) d in
    elim (Option-cases (d.files x.to)) [
      | inl gone ↦ (ap (λ f. f x.from) same ∙ h, ap (λ f. f x.to) same ∙ gone)
      | inr (b, there) ↦ absurd (ground arith)
    ]

module _ (os : Answers) (plan : List Step) (d : Disk) (x : Step) (bytes : List ℕ) where
  -- However the move ends, a file of the plan is still there: at its old path or at its new one, with
  -- the bytes that it had. It is asked that no two steps of the plan share a path, and that the
  -- file's own step leads elsewhere.
  pub carry-IsSafe :
      IsTracked x plan
      → Listed x plan
      → d.files x.from ≡ some bytes
      → IsSafe x bytes (carry os plan d).1
  unfolding carry
  carry-IsSafe t l h =
      elim (Option-cases (find (λ step. exists d step.to && exists d step.from) plan)) [
        | inl free ↦
            let here = starts-Here os plan d x bytes free l h in
            rw (free, carry)
              (elim (Option-cases (make_folders os (folders plan) d).0) [
                | inl ok ↦ rw ok (
                    rename_all-IsSafe os x bytes t.ends plan [] plan
                      (make_folders os (folders plan) d).1 t.others tt t.others l (inl here))
                | inr (why, bad) ↦ rw bad (inl here.0)
              ])
        | inr (taken, hit) ↦ rw (hit, carry) (inl h)
      ]

  -- A move that ends without a fault has put every file of the plan, whole, at its new path. It is asked
  -- that no two steps of the plan share a path, and that the file's own step leads
  -- elsewhere.
  pub carry_whole :
      IsTracked x plan
      → Listed x plan
      → d.files x.from ≡ some bytes
      → (carry os plan d).0 ≡ none
      → (carry os plan d).1.files x.to ≡ some bytes
  unfolding carry
  carry_whole t l h ok =
      elim (Option-cases (find (λ step. exists d step.to && exists d step.from) plan)) [
        | inl free ↦
            let here = starts-Here os plan d x bytes free l h in
            let ok' = rw (free, carry) at ok in
            rw (free, carry)
              (elim (Option-cases (make_folders os (folders plan) d).0) [
                | inl made ↦ rw made (
                    rename_all_whole os x bytes t.ends plan [] plan
                      (make_folders os (folders plan) d).1 t.others tt t.others l (inl here) (inl l)
                      (rw made at ok'))
                | inr (why, bad) ↦ let no_fault = rw bad at ok' in cc
              ])
        | inr (taken, hit) ↦ let no_fault = rw (hit, carry) at ok in cc
      ]

  -- A fault leaves every file of the plan where it was, if a rename that the system allowed can be made
  -- back, no two steps of the plan share a path, and the step does not lead to where it starts.
  pub carry_fault :
      (why : Fault) (ends : x.from ≢ x.to)
      → IsReversible os x bytes ends
      → All (IsSameOrApart x) plan
      → Listed x plan
      → d.files x.from ≡ some bytes
      → (carry os plan d).0 ≡ some why
      → (carry os plan d).1.files x.from ≡ some bytes
  unfolding carry
  carry_fault why ends rev others l h bad =
      elim (Option-cases (find (λ step. exists d step.to && exists d step.from) plan)) [
        | inl free ↦
            let here = starts-Here os plan d x bytes free l h in
            let bad' = rw (free, carry) at bad in
            rw (free, carry)
              (elim (Option-cases (make_folders os (folders plan) d).0) [
                | inl made ↦ rw made (
                    rename_all_fault os x bytes ends plan [] plan
                      (make_folders os (folders plan) d).1 why rev others tt others (inl here)
                      (rw made at bad'))
                | inr (other, stuck) ↦ rw stuck here.0
              ])
        | inr (taken, hit) ↦ rw (hit, carry) h
      ]

make_folders_fine :
    (os : Answers) (paths : List FilePath) (d : Disk)
    → ((d' : Disk) (p : FilePath) → os.mkdir_ok d' p ≡ true)
    → (make_folders os paths d).0 ≡ none
unfolding make_folders
make_folders_fine os [] d h = refl
make_folders_fine os (p ∷ paths) d h =
    rw (h d p) (make_folders_fine os paths (record d { made = p ∷ d.made }) h)

-- A copy that breaks off is a fault, and what it wrote stays.
copy_one_broken :
    (os : Answers) (d : Disk) (step : Step) (bytes : List ℕ) (n : ℕ)
    → d.files step.from ≡ some bytes
    → os.copying d step.from step.to ≡ broken n
    → copy_one os d step ≡ (
      some (copy step.from),
      record d { files = Carry.update d.files step.to (some (take n bytes)) },
    )
unfolding copy_one
copy_one_broken os d step bytes n h b = rw (h, b, copy_one) refl

-- A move onto a file is refused before anything is done.
refused_occupied :
    (os : Answers) (step : Step) (d : Disk) (old new : List ℕ)
    → d.files step.to ≡ some new
    → d.files step.from ≡ some old
    → carry os (step ∷ []) d ≡ (some (occupied step.to), d)
unfolding carry
refused_occupied os step d old new h k = rw (h, k, carry) refl

-- The answers under which a copy breaks off: the folders can be made, no rename is possible (the two
-- ends are on different volumes), and the copy stops with an error behind `n` bytes.
pub record BreaksOff (os : Answers) (step : Step) (n : ℕ) : Type 0 where
  pub mkdir : (d : Disk) (p : FilePath) → os.mkdir_ok d p ≡ true
  pub apart : (d : Disk) → os.rename_ok d step.from step.to ≡ false
  pub breaks : (d : Disk) → os.copying d step.from step.to ≡ broken n

module _ (os : Answers) (step : Step) (bytes : List ℕ) (n : ℕ) where
  abbrev leftover : Disk → Disk
  leftover d = record d { files = Carry.update d.files step.to (some (take n bytes)) }

  copy_all_broken :
      (d : Disk)
      → BreaksOff os step n
      → d.files step.from ≡ some bytes
      → copy_all os [] (step ∷ []) d ≡ (some (copy step.from), leftover d)
  unfolding copy_all remove_files
  copy_all_broken d b h =
      let one = copy_one_broken os d step bytes n h (b.breaks d) in
      let found : (not (exists d step.from) && exists d step.to) ≡ false = rw h refl in
      rw (found, copy_all) (rw (ap (λ r. r.0) one) (rw (ap (λ r. r.1) one) refl))

  copy_and_delete_broken :
      (d : Disk)
      → BreaksOff os step n
      → d.files step.from ≡ some bytes
      → copy_and_delete os (step ∷ []) d ≡ (some (copy step.from), leftover d)
  unfolding copy_and_delete
  copy_and_delete_broken d b h =
      let all = copy_all_broken d b h in
      rw (ap (λ r. r.0) all, copy_and_delete) (rw (ap (λ r. r.1) all) refl)

  rename_all_broken :
      (d : Disk)
      → BreaksOff os step n
      → d.files step.from ≡ some bytes
      → rename_all os (step ∷ []) [] (step ∷ []) d ≡ (some (copy step.from), leftover d)
  unfolding rename_all undo rename
  rename_all_broken d b h = rw (h, b.apart d, rename_all) (copy_and_delete_broken d b h)

  single_broken :
      (d : Disk)
      → BreaksOff os step n
      → d.files step.from ≡ some bytes
      → d.files step.to ≡ none
      → carry os (step ∷ []) d
        ≡ (some (copy step.from), leftover (make_folders os (folders (step ∷ [])) d).1)
  unfolding carry
  single_broken d b h free =
      let same = make_folders-files os (folders (step ∷ [])) d in
      let made = make_folders_fine os (folders (step ∷ [])) d b.mkdir in
      rw (free, made, carry)
        (rename_all_broken (make_folders os (folders (step ∷ [])) d).1 b
          (ap (λ f. f step.from) same ∙ h))

  -- A copy that breaks off leaves what it wrote at the new path, and the move that is tried again is
  -- refused there, without a byte having moved: so the doc comment's "nothing has changed that the
  -- caller has to clean up" fails whenever the system's copy keeps a partial file.
  pub carry_leftover :
      (d : Disk)
      → BreaksOff os step n
      → step.from ≢ step.to
      → d.files step.from ≡ some bytes
      → d.files step.to ≡ none
      → ((carry os (step ∷ []) d).1.files step.to ≡ some (take n bytes))
        × (carry os (step ∷ []) (carry os (step ∷ []) d).1
            ≡ (some (occupied step.to), (carry os (step ∷ []) d).1))
  carry_leftover d b ne h free =
      let ready = (make_folders os (folders (step ∷ [])) d).1 in
      let same = make_folders-files os (folders (step ∷ [])) d in
      let result = single_broken d b h free in
      let left : (leftover ready).files step.to ≡ some (take n bytes) =
        rw (path_eq_self step.to) refl in
      let kept : (leftover ready).files step.from ≡ some bytes =
        rw (path_eq-false step.to step.from (λ e. ne (sym e))) (ap (λ f. f step.from) same ∙ h) in
      rw result (left, refused_occupied os step (leftover ready) bytes (take n bytes) left kept)
