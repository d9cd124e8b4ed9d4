-- ===== src/Flag/Unpacking.antt =====
-- What the runs unpack to.
use zerem.Prelude.{
  ℕ, zero, suc, ◌*◌, ◌≤◌, false, none, some, List, [], ◌∷◌, ◌++◌, length, length-take, take, drop,
  ltb, ◌≡◌, refl, sym, ap, subst, ◌∙◌, arith, Bool-cases, Option-cases, inl, inr, append_assoc,
}
use zerem.Geo.{byte_at, chunk}
use zerem.Flag.{Flag, copies, fill, area, decode_flag}

-- The pixels that runs stand for, one after the other, up to one whose colour is not there.
pub expand : List ℕ → List ℕ → List ℕ
expand palette (n ∷ c ∷ runs) =
    let rest = expand palette runs in
    elim (chunk 4 (drop (c * 4) palette)) as (λ _. List ℕ) [
      | none ↦ []
      | some (colour, behind) ↦ copies n colour ++ rest
    ]
expand palette _ = []

take-append : (n : ℕ) (xs ys : List ℕ) → n ≤ length xs → take n (xs ++ ys) ≡ take n xs
take-append zero xs ys h = refl
take-append (suc n) [] ys h = absurd (omega arith)
take-append (suc n) (x ∷ xs) ys h = ap (λ t. x ∷ t) (take-append n xs ys (omega arith))

-- What the loop gives, if it gives anything: so many bytes, and those that the runs stand for.
abbrev Fills : ℕ → List ℕ → List ℕ → Type 0
Fills total all out = (length out ≡ total) × (out ≡ take total all)

filled :
    (total : ℕ) (pixels more out : List ℕ)
    → ltb (length pixels) total ≡ false
    → take total pixels ≡ out
    → Fills total (pixels ++ more) out
filled total pixels more out full e = (
  ap length (sym e) ∙ length-take total pixels ∙ (ground arith),
  sym e ∙ sym (take-append total pixels more (ground arith)),
)

fill-Fills :
    (total : ℕ) (palette pixels runs : List ℕ) {out : List ℕ}
    → fill total palette pixels runs ≡ some out
    → Fills total (pixels ++ expand palette runs) out
unfolding fill expand
fill-Fills total palette pixels [] {out} h = elim (Bool-cases (ltb (length pixels) total)) [
  | inl short ↦ absurd (no_out (rw short at h))
  | inr full ↦ filled total pixels [] out full (cc (rw full at h))
]
  where
    no_out : none ≡ some out → ⊥
    no_out e = cc
fill-Fills total palette pixels (n ∷ []) {out} h = elim (Bool-cases (ltb (length pixels) total)) [
  | inl short ↦ absurd (no_out (rw short at h))
  | inr full ↦ filled total pixels [] out full (cc (rw full at h))
]
  where
    no_out : none ≡ some out → ⊥
    no_out e = cc
fill-Fills total palette pixels (n ∷ c ∷ runs) {out} h =
    elim (Bool-cases (ltb (length pixels) total)) [
      | inr full ↦
          filled total pixels (expand palette (n ∷ c ∷ runs)) out full (cc (rw (full, fill) at h))
      | inl short ↦
          let open_run = rw (short, fill) at h in
          elim (Option-cases (chunk 4 (drop (c * 4) palette))) [
            | inl absent ↦ absurd (no_out (rw (absent) at open_run))
            | inr ((colour, behind), there) ↦
                let ih =
                  fill-Fills total palette (pixels ++ copies n colour) runs
                    (rw (there) at open_run) in
                rw (there, expand)
                  (subst (λ t. Fills total t out)
                    (append_assoc pixels (copies n colour) (expand palette runs)) ih)
          ]
    ]
  where
    no_out : none ≡ some out → ⊥
    no_out e = cc

-- A flag that unpacks has four bytes for each of its pixels, and they are the first of those that its
-- runs stand for, in order.
pub decode_flag-pixels :
    (packed : List ℕ) (width height : ℕ) {flag : Flag}
    → decode_flag packed width height ≡ some flag
    → (flag.width ≡ width)
      × (flag.height ≡ height)
      × (length flag.pixels ≡ area width height * 4)
      × ((first rest palette runs : List ℕ)
          → chunk 1 packed ≡ some (first, rest)
          → chunk (byte_at first 0 * 4) rest ≡ some (palette, runs)
          → flag.pixels ≡ take (area width height * 4) (expand palette runs))
unfolding decode_flag
decode_flag-pixels packed width height {flag} h = elim (Option-cases (chunk 1 packed)) [
  | inl absent ↦ absurd (none_not (rw absent at h))
  | inr ((first, rest), one) ↦ elim (Option-cases (chunk (byte_at first 0 * 4) rest)) [
    | inl absent ↦ absurd (none_not (rw absent at (rw one at h)))
    | inr ((palette, runs), two) ↦
        elim (Option-cases (fill (area width height * 4) palette [] runs)) [
          | inl absent ↦ absurd (none_not (rw absent at (rw two at (rw one at h))))
          | inr (out, three) ↦
              let done = rw three at (rw two at (rw one at h)) in
              let (size, same) = fill-Fills (area width height * 4) palette [] runs three in
              (cc, cc, cc, λ first' rest' palette' runs' one' two'. cc)
        ]
  ]
]
  where
    none_not : none ≡ some flag → ⊥
    none_not e = cc
