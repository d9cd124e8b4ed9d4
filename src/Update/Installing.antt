-- ===== src/Update/Installing.antt =====
-- What is offered, and what comes to run.
use zerem.Prelude.{
  ℕ, true, some, List, ◌≡◌, ◌⊎◌, inl, inr, refl, sym, subst, Bool-cases, Option-cases,
}
use zerem.Prelude.Text.{Text}
use zerem.Update.{
  is_newer, Feed, Available, up_to_date, newest, Disk, Outside, Step, installed, not_downloaded,
  not_signed, not_saved, not_replaced, fetch_and_apply, swap, remove_staged, Release,
}

removed : (os : Outside) (d : Disk) → (remove_staged os d).program ≡ d.program
removed os d = elim (Bool-cases os.remove_ok) [ inl e ↦ rw e refl | inr e ↦ rw e refl ]

-- The program is as it was, or it is what was downloaded and carries the signature that the feed gave. It
-- is said to be installed exactly in the second case.
abbrev pub Outcome : Outside → Available → Disk → Disk × Step → Type 0
Outcome os update d r =
    ((r.0.program ≡ d.program) × (r.1 ≡ installed → ⊥))
    ⊎ ((bytes : List ℕ) × (os.download update.url ≡ some bytes)
        × (os.is_signed bytes update.signature ≡ true)
        × (r.0.program ≡ bytes)
        × (r.1 ≡ installed))

-- Whatever the network and the disk answer, an installation leaves the program as it was, or puts in its
-- place a download with the signature that the feed gave; it is said to be installed exactly in the
-- second case.
pub fetch_and_apply-Outcome :
    (os : Outside) (update : Available) (d : Disk)
    → Outcome os update d (fetch_and_apply os update d)
unfolding fetch_and_apply swap
fetch_and_apply-Outcome os update d = elim (Option-cases (os.download update.url)) [
  | inl lost ↦
      let r : fetch_and_apply os update d ≡ (d, not_downloaded) = rw (lost, fetch_and_apply) refl in
      subst (Outcome os update d) (sym r) (inl (refl, λ e. cc))
  | inr (bytes, loaded) ↦ elim (Bool-cases (os.is_signed bytes update.signature)) [
    | inr forged ↦
        let r : fetch_and_apply os update d ≡ (d, not_signed) =
          rw (loaded, fetch_and_apply) (rw forged refl) in
        subst (Outcome os update d) (sym r) (inl (refl, λ e. cc))
    | inl signed ↦ elim (Bool-cases os.write_ok) [
      | inr unsaved ↦
          let r : fetch_and_apply os update d ≡ (record d { staged = os.partial }, not_saved) =
            rw (loaded, fetch_and_apply) (rw signed (rw unsaved refl)) in
          subst (Outcome os update d) (sym r) (inl (refl, λ e. cc))
      | inl saved ↦ elim (Bool-cases os.replace_ok) [
        | inr stuck ↦
            let kept = record d { staged = some bytes } in
            let r : fetch_and_apply os update d ≡ (remove_staged os kept, not_replaced) =
              rw (loaded, fetch_and_apply) (rw signed (rw saved (rw stuck refl))) in
            subst (Outcome os update d) (sym r) (inl (removed os kept, λ e. cc))
        | inl replaced ↦
            let new = record d { program = bytes; staged = some bytes } in
            let r : fetch_and_apply os update d ≡ (remove_staged os new, installed) =
              rw (loaded, fetch_and_apply) (rw signed (rw saved (rw replaced refl))) in
            subst (Outcome os update d) (sym r) (inr (bytes, loaded, signed, removed os new, refl))
      ]
    ]
  ]
]

-- A release that is offered: newer than what runs, with an address and a signature in the feed, and not
-- offered again once it runs.
abbrev pub Settles : Feed → Text → Available → Type 0
Settles feed running a =
    (is_newer a.version running ≡ true)
    × (feed.version ≡ some a.version)
    × ((release : Release) × (feed.platform ≡ some release)
        × (release.url ≡ some a.url)
        × (release.signature ≡ some a.signature))
    × (newest (some feed) a.version ≡ up_to_date)
