-- ===== src/Carry/Tracking/Safety.antt =====
-- No file of a plan is lost, however the move ends.
use zerem.Prelude.{
  ℕ, none, some, List, [], ◌∷◌, ◌++◌, map, ◌≡◌, ◌≢◌, refl, sym, ◌∙◌, subst, ap, arith, All,
  All-append, Option-cases, inl, inr, ◌⊎◌,
}
use zerem.Prelude.Paths.{FilePath}
use zerem.Relocate.{Step}
use zerem.Carry.{Disk, Answers, Fault, rename, copy_all, copy_and_delete, undo, rename_all, prune}
use zerem.Carry.Store.{rename_other, remove_files_other, rename_lem}
use zerem.Carry.Tracking.{
  IsSameOrApart, Listed, Here, There, IsSafe, Keeps, copy_all-IsSafe, copy_all_whole,
}

-- A fault of the copying pass ends the move there.
pub copy_and_delete_fault :
    (os : Answers) (plan : List Step) (d : Disk) (why : Fault)
    → (copy_and_delete os plan d).0 ≡ some why
    → (copy_and_delete os plan d).1 ≡ (copy_all os [] plan d).1
unfolding copy_and_delete
copy_and_delete_fault os plan d why h = elim (Option-cases (copy_all os [] plan d).0) [
  | inl e ↦ let no_fault = rw (e, copy_and_delete) at h in cc
  | inr (other, e) ↦ rw (e, copy_and_delete) refl
]

module _ (os : Answers) (x : Step) (bytes : List ℕ) (ends : x.from ≢ x.to) where
  abbrev pub IsPlaced : Disk → Type 0
  IsPlaced d = Here x bytes d ⊎ There x bytes d

  pub IsPlaced-Keeps : (d : Disk) → IsPlaced d → Keeps os x bytes ends [] d
  IsPlaced-Keeps d (inl h) = record { off_from = tt; place = inl h.0 }
  IsPlaced-Keeps d (inr t) = record { off_from = tt; place = inr (t, tt) }

  pub rename_apart :
      (d moved : Disk) (from to : FilePath)
      → rename os d from to ≡ some moved
      → from ≢ x.from
      → from ≢ x.to
      → to ≢ x.from
      → to ≢ x.to
      → (moved.files x.from ≡ d.files x.from) × (moved.files x.to ≡ d.files x.to)
  rename_apart d moved from to e a b c f =
      (rename_other os d moved from to x.from e a c, rename_other os d moved from to x.to e b f)

  -- A rename of the plan moves its own file, and leaves all others.
  pub rename-There :
      (d moved : Disk) → rename os d x.from x.to ≡ some moved → IsPlaced d → There x bytes moved
  rename-There d moved e p =
      let (gone, arrived, found) = rename_lem os d moved x.from x.to e ends in
      elim p [ inl h ↦ (gone, arrived ∙ h.0) | inr t ↦ absurd (ground arith) ]

  pub rename-IsPlaced :
      (d moved : Disk) (y : Step)
      → IsSameOrApart x y
      → rename os d y.from y.to ≡ some moved
      → IsPlaced d
      → IsPlaced moved
  rename-IsPlaced d moved y (inl same) e p =
      inr (rename-There d moved (subst (λ s. rename os d s.from s.to ≡ some moved) same e) p)
  rename-IsPlaced d moved y (inr a) e p =
      let (f, t) = rename_apart d moved y.from y.to e a.from_from a.from_to a.to_from a.to_to in
      elim p [ inl h ↦ inl (f ∙ h.0, t ∙ h.1) | inr h ↦ inr (f ∙ h.0, t ∙ h.1) ]

  -- And a rename back, too.
  pub back-Here :
      (d back : Disk) → rename os d x.to x.from ≡ some back → IsPlaced d → Here x bytes back
  back-Here d back e p =
      let (gone, arrived, found) = rename_lem os d back x.to x.from e (λ s. ends (sym s)) in
      elim p [ inl h ↦ absurd (ground arith) | inr t ↦ (arrived ∙ t.1, gone) ]

  pub back-IsPlaced :
      (d back : Disk) (y : Step)
      → IsSameOrApart x y
      → rename os d y.to y.from ≡ some back
      → IsPlaced d
      → IsPlaced back
  back-IsPlaced d back y (inl same) e p =
      inl (back-Here d back (subst (λ s. rename os d s.to s.from ≡ some back) same e) p)
  back-IsPlaced d back y (inr a) e p =
      let (f, t) = rename_apart d back y.to y.from e a.to_from a.to_to a.from_from a.from_to in
      elim p [ inl h ↦ inl (f ∙ h.0, t ∙ h.1) | inr h ↦ inr (f ∙ h.0, t ∙ h.1) ]

  pub undo-IsPlaced :
      (renamed : List Step) (d : Disk)
      → All (IsSameOrApart x) renamed
      → IsPlaced d
      → IsPlaced (undo os renamed d)
  unfolding undo
  undo-IsPlaced [] d c p = p
  undo-IsPlaced (y ∷ renamed) d c p = elim (Option-cases (rename os d y.to y.from)) [
    | inl e ↦ rw (e, undo) (undo-IsPlaced renamed d c.1 p)
    | inr (back, e) ↦ rw (e, undo) (undo-IsPlaced renamed back c.1 (back-IsPlaced d back y c.0 e p))
  ]

  off_froms :
      (plan : List Step) → All (IsSameOrApart x) plan → All (λ p. p ≢ x.to) (map (λ s. s.from) plan)
  off_froms [] c = tt
  off_froms (y ∷ plan) (inl e, c) =
      ((λ same. ends (ap (λ s. s.from) (sym e) ∙ same)), off_froms plan c)
  off_froms (y ∷ plan) (inr a, c) = (a.from_to, off_froms plan c)

  -- The copying pass with its deletions: the file is whole at its new path where it goes through.
  pub copy_and_delete_whole :
      (plan : List Step) (d : Disk)
      → All (IsSameOrApart x) plan
      → Listed x plan
      → IsPlaced d
      → (copy_and_delete os plan d).0 ≡ none
      → (copy_and_delete os plan d).1.files x.to ≡ some bytes
  unfolding copy_and_delete prune
  copy_and_delete_whole plan d c l p ok =
      let (fault, after) = copy_all os [] plan d in
      elim (Option-cases (copy_all os [] plan d).0) [
        | inl e ↦
            rw (e, copy_and_delete)
              (remove_files_other os (copy_all os [] plan d).1 (map (λ s. s.from) plan) x.to
                  (off_froms plan c)
                ∙ copy_all_whole os x bytes ends [] plan d c (IsPlaced-Keeps d p) (inl l) e)
        | inr (why, e) ↦ let no_fault = rw (e, copy_and_delete) at ok in cc
      ]

  pub copy_and_delete-IsSafe :
      (plan : List Step) (d : Disk)
      → All (IsSameOrApart x) plan
      → Listed x plan
      → IsPlaced d
      → IsSafe x bytes (copy_and_delete os plan d).1
  copy_and_delete-IsSafe plan d c l p = elim (Option-cases (copy_and_delete os plan d).0) [
    | inl e ↦ inr (copy_and_delete_whole plan d c l p e)
    | inr (why, e) ↦
        rw (copy_and_delete_fault os plan d why e)
          (copy_all-IsSafe os x bytes ends [] plan d c (IsPlaced-Keeps d p))
  ]

  pub rename_all-IsSafe :
      (plan renamed steps : List Step) (d : Disk)
      → All (IsSameOrApart x) plan
      → All (IsSameOrApart x) renamed
      → All (IsSameOrApart x) steps
      → Listed x plan
      → IsPlaced d
      → IsSafe x bytes (rename_all os plan renamed steps d).1
  unfolding rename_all prune
  rename_all-IsSafe plan renamed [] d cp cr cs l p = elim p [ inl h ↦ inl h.0 | inr t ↦ inr t.1 ]
  rename_all-IsSafe plan renamed (y ∷ steps) d cp cr cs l p =
      elim (Option-cases (rename os d y.from y.to)) [
        | inl e ↦
            rw (e, rename_all)
              (copy_and_delete-IsSafe plan (undo os renamed d) cp l (undo-IsPlaced renamed d cr p))
        | inr (moved, e) ↦
            rw (e, rename_all)
              (rename_all-IsSafe plan (renamed ++ y ∷ []) steps moved cp
                (All-append (IsSameOrApart x) renamed (y ∷ []) cr (cs.0, tt)) cs.1 l
                (rename-IsPlaced d moved y cs.0 e p))
      ]
