-- ===== src/Carry/Tracking/Outcome.antt =====
-- What a move leaves behind, by how it ends.
use zerem.Prelude.{
  ℕ, true, none, some, List, [], ◌∷◌, ◌++◌, ◌≡◌, ◌≢◌, ◌∙◌, subst, ap, arith, All, All-append,
  Option-cases, inl, inr, ◌⊎◌,
}
use zerem.Prelude.Paths.{FilePath}
use zerem.Relocate.{Step}
use zerem.Carry.{Disk, Answers, Fault, rename, undo, rename_all, prune}
use zerem.Carry.Tracking.{IsSameOrApart, Listed, Here, There, copy_all-from}
use zerem.Carry.Tracking.Safety.{
  IsPlaced, rename_apart, rename-There, rename-IsPlaced, back-Here, undo-IsPlaced,
  copy_and_delete_whole, copy_and_delete_fault,
}

rename-allowed :
    (os : Answers) (d moved : Disk) (from to : FilePath)
    → rename os d from to ≡ some moved
    → os.rename_ok d from to ≡ true
unfolding rename
rename-allowed os d moved from to h = ground arith

rename-possible :
    (os : Answers) (d : Disk) (from to : FilePath) (bytes : List ℕ)
    → d.files from ≡ some bytes
    → os.rename_ok d from to ≡ true
    → rename os d from to ≢ none
unfolding rename
rename-possible os d from to bytes e h = ground arith

module _ (os : Answers) (x : Step) (bytes : List ℕ) (ends : x.from ≢ x.to) where
  arrives :
      (d moved : Disk) (y : Step) (steps : List Step)
      → IsSameOrApart x y
      → rename os d y.from y.to ≡ some moved
      → IsPlaced os x bytes ends d
      → Listed x (y ∷ steps) ⊎ There x bytes d
      → Listed x steps ⊎ There x bytes moved
  arrives d moved y steps (inl same) e p h = inr (
      rename-There os x bytes ends d moved
        (subst (λ s. rename os d s.from s.to ≡ some moved) same e) p)
  arrives d moved y steps (inr a) e p (inl (inl same)) = absurd (a.to_to (ap (λ s. s.to) same))
  arrives d moved y steps (inr a) e p (inl (inr later)) = inl later
  arrives d moved y steps (inr a) e p (inr t) =
      let (f, g) =
        rename_apart os x bytes ends d moved y.from y.to e a.from_from a.from_to a.to_from
          a.to_to in
      inr (f ∙ t.0, g ∙ t.1)

  pub rename_all_whole :
      (plan renamed steps : List Step) (d : Disk)
      → All (IsSameOrApart x) plan
      → All (IsSameOrApart x) renamed
      → All (IsSameOrApart x) steps
      → Listed x plan
      → IsPlaced os x bytes ends d
      → Listed x steps ⊎ There x bytes d
      → (rename_all os plan renamed steps d).0 ≡ none
      → (rename_all os plan renamed steps d).1.files x.to ≡ some bytes
  unfolding rename_all prune
  rename_all_whole plan renamed [] d cp cr cs l p (inl h) ok = absurd h
  rename_all_whole plan renamed [] d cp cr cs l p (inr t) ok = t.1
  rename_all_whole plan renamed (y ∷ steps) d cp cr cs l p h ok =
      elim (Option-cases (rename os d y.from y.to)) [
        | inl e ↦
            rw (e, rename_all)
              (copy_and_delete_whole os x bytes ends plan (undo os renamed d) cp l
                (undo-IsPlaced os x bytes ends renamed d cr p) (rw (e, rename_all) at ok))
        | inr (moved, e) ↦
            rw (e, rename_all)
              (rename_all_whole plan (renamed ++ y ∷ []) steps moved cp
                (All-append (IsSameOrApart x) renamed (y ∷ []) cr (cs.0, tt)) cs.1 l
                (rename-IsPlaced os x bytes ends d moved y cs.0 e p)
                (arrives d moved y steps cs.0 e p h) (rw (e, rename_all) at ok))
      ]

  -- A rename that can be made can be made back.
  abbrev pub IsReversible : Type 0
  IsReversible =
      (d d' : Disk) → os.rename_ok d x.from x.to ≡ true → os.rename_ok d' x.to x.from ≡ true

  -- Where the file is while some steps are renamed: a rename of its own can be undone.
  abbrev IsUndoable : List Step → Disk → Type 0
  IsUndoable renamed d =
      Here x bytes d
      ⊎ (There x bytes d × Listed x renamed × ((d' : Disk) → os.rename_ok d' x.to x.from ≡ true))

  stays :
      (d : Disk) (y : Step) (renamed : List Step)
      → IsSameOrApart x y
      → rename os d y.to y.from ≡ none
      → IsUndoable (y ∷ renamed) d
      → IsUndoable renamed d
  stays d y renamed c e (inl h) = inl h
  stays d y renamed (inl same) e (inr (t, l, ok)) =
      let e' : rename os d x.to x.from ≡ none =
        subst (λ s. rename os d s.to s.from ≡ none) same e in
      absurd (rename-possible os d x.to x.from bytes t.1 (ok d) e')
  stays d y renamed (inr a) e (inr (t, inl same, ok)) = absurd (a.to_to (ap (λ s. s.to) same))
  stays d y renamed (inr a) e (inr (t, inr later, ok)) = inr (t, later, ok)

  returns :
      (d back : Disk) (y : Step) (renamed : List Step)
      → IsSameOrApart x y
      → rename os d y.to y.from ≡ some back
      → IsUndoable (y ∷ renamed) d
      → IsUndoable renamed back
  returns d back y renamed (inl same) e h =
      let e' : rename os d x.to x.from ≡ some back =
        subst (λ s. rename os d s.to s.from ≡ some back) same e in
      inl (back-Here os x bytes ends d back e' (elim h [ inl here ↦ inl here | inr r ↦ inr r.0 ]))
  returns d back y renamed (inr a) e h =
      let (f, g) =
        rename_apart os x bytes ends d back y.to y.from e a.to_from a.to_to a.from_from a.from_to in
      elim h [
        | inl here ↦ inl (f ∙ here.0, g ∙ here.1)
        | inr (t, l, ok) ↦ elim l [
          | inl same ↦ absurd (a.to_to (ap (λ s. s.to) same))
          | inr later ↦ inr ((f ∙ t.0, g ∙ t.1), later, ok)
        ]
      ]

  undo-Here :
      (renamed : List Step) (d : Disk)
      → All (IsSameOrApart x) renamed
      → IsUndoable renamed d
      → Here x bytes (undo os renamed d)
  unfolding undo
  undo-Here [] d c (inl h) = h
  undo-Here [] d c (inr (t, l, _)) = absurd l
  undo-Here (y ∷ renamed) d c h = elim (Option-cases (rename os d y.to y.from)) [
    | inl e ↦ rw (e, undo) (undo-Here renamed d c.1 (stays d y renamed c.0 e h))
    | inr (back, e) ↦ rw (e, undo) (undo-Here renamed back c.1 (returns d back y renamed c.0 e h))
  ]

  Listed-append : (renamed : List Step) (y : Step) → Listed x renamed → Listed x (renamed ++ y ∷ [])
  Listed-append (z ∷ renamed) y (inl e) = inl e
  Listed-append (z ∷ renamed) y (inr l) = inr (Listed-append renamed y l)
  Listed-append [] y l = absurd l

  Listed-last : (renamed : List Step) (y : Step) → y ≡ x → Listed x (renamed ++ y ∷ [])
  Listed-last [] y e = inl e
  Listed-last (z ∷ renamed) y e = inr (Listed-last renamed y e)

  rename-IsUndoable :
      (d moved : Disk) (y : Step) (renamed : List Step)
      → IsReversible
      → IsSameOrApart x y
      → rename os d y.from y.to ≡ some moved
      → IsUndoable renamed d
      → IsUndoable (renamed ++ y ∷ []) moved
  rename-IsUndoable d moved y renamed rev (inl same) e h =
      let e' : rename os d x.from x.to ≡ some moved =
        subst (λ s. rename os d s.from s.to ≡ some moved) same e in
      inr (
        rename-There os x bytes ends d moved e' (elim h [ inl here ↦ inl here | inr r ↦ inr r.0 ]),
        Listed-last renamed y same,
        λ d'. rev d d' (rename-allowed os d moved x.from x.to e'),
      )
  rename-IsUndoable d moved y renamed rev (inr a) e h =
      let (f, g) =
        rename_apart os x bytes ends d moved y.from y.to e a.from_from a.from_to a.to_from
          a.to_to in
      elim h [
        | inl here ↦ inl (f ∙ here.0, g ∙ here.1)
        | inr (t, l, ok) ↦ inr ((f ∙ t.0, g ∙ t.1), Listed-append renamed y l, ok)
      ]

  pub rename_all_fault :
      (plan renamed steps : List Step) (d : Disk) (why : Fault)
      → IsReversible
      → All (IsSameOrApart x) plan
      → All (IsSameOrApart x) renamed
      → All (IsSameOrApart x) steps
      → IsUndoable renamed d
      → (rename_all os plan renamed steps d).0 ≡ some why
      → (rename_all os plan renamed steps d).1.files x.from ≡ some bytes
  unfolding rename_all
  rename_all_fault plan renamed [] d why rev cp cr cs u bad = cc
  rename_all_fault plan renamed (y ∷ steps) d why rev cp cr cs u bad =
      elim (Option-cases (rename os d y.from y.to)) [
        | inl e ↦
            let here = undo-Here renamed d cr u in
            let bad' = rw (e, rename_all) at bad in
            rw (e, rename_all)
              (rw (copy_and_delete_fault os plan (undo os renamed d) why bad')
                (copy_all-from os x bytes ends [] plan (undo os renamed d) cp tt ∙ here.0))
        | inr (moved, e) ↦
            rw (e, rename_all)
              (rename_all_fault plan (renamed ++ y ∷ []) steps moved why rev cp
                (All-append (IsSameOrApart x) renamed (y ∷ []) cr (cs.0, tt)) cs.1
                (rename-IsUndoable d moved y renamed rev cs.0 e u) (rw (e, rename_all) at bad))
      ]
