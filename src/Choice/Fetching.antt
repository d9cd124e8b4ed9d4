-- ===== src/Choice/Fetching.antt =====
-- Which files `to_fetch` hands to the engine.
use zerem.Prelude.{
  is_nil, ℕ, zero, suc, ◌+◌, ◌≤◌, ◌<◌, Bool, true, false, not, ◌&&◌, some, List, [], ◌∷◌, keep,
  length, get_elem?, get_elem?-total, range_from, any, ltb, leb, if◌then◌else◌, ◌≡◌, refl, arith,
  Bool-cases, inl, inr, ==→eq, list_ext,
}
use zerem.Choice.{flags, chosen_files, flag_at, is_pinned, pinned_files, to_fetch, is_narrowed}
use zerem.Choice.Ticking.{listed, names, get_elem?-flags, length-flags}

pub listed-keep_range :
    (p : ℕ → Bool) (start n j : ℕ)
    → listed j (keep p (range_from start n)) ≡ ((leb start j && ltb j (start + n)) && p j)
listed-keep_range p start zero j = ground arith
listed-keep_range p start (suc n) j =
    ground (arith, ==→eq start j, listed-keep_range p (start + 1) n j)

listed-keep :
    (p : ℕ → Bool) (list : List ℕ) (j : ℕ) → listed j (keep p list) ≡ (listed j list && p j)
listed-keep p [] j = refl
listed-keep p (i ∷ list) j = ground (arith, listed-keep p list j)

any-keep :
    (p q : ℕ → Bool) (list : List ℕ)
    → any (λ i. p i && q i) list ≡ not (is_nil (keep q (keep p list)))
any-keep p q [] = refl
any-keep p q (i ∷ list) = ground (arith, any-keep p q list)

-- `is_narrowed` says whether `to_fetch` hands over the pinned files alone.
pub is_narrowed-pinned :
    (wanted first complete : List Bool)
    → is_narrowed wanted first complete ≡ not (is_nil (pinned_files wanted first complete))
unfolding is_narrowed
is_narrowed-pinned wanted first complete =
    any-keep (λ i. flag_at wanted i && flag_at first i) (λ i. not (flag_at complete i))
      (range_from 0 (length wanted))

length-keep_range : (p : ℕ → Bool) (start n : ℕ) → length (keep p (range_from start n)) ≤ n
length-keep_range p start zero = omega arith
length-keep_range p start (suc n) = ground (arith, length-keep_range p (start + 1) n)

keep_range-full :
    (p : ℕ → Bool) (start n j : ℕ)
    → length (keep p (range_from start n)) ≡ n
    → start ≤ j
    → j < start + n
    → p j ≡ true
keep_range-full p start zero j h a b = absurd (omega arith)
keep_range-full p start (suc n) j h a b =
    ground
      (arith, length-keep_range p (start + 1) n, keep_range-full p (start + 1) n j, ==→eq start j)

get-flag_at :
    (list : List Bool) (j : ℕ) → j < length list → get_elem? list j ≡ some (flag_at list j)
get-flag_at list j h = ground (arith, get_elem?-total list j h)

listed-pinned :
    (wanted first complete : List Bool) (j : ℕ)
    → j < length wanted
    → listed j (pinned_files wanted first complete) ≡ is_pinned wanted first complete j
listed-pinned wanted first complete j h =
    let p = λ (i : ℕ). flag_at wanted i && flag_at first i in
    ground (
      arith,
      listed-keep (λ i. not (flag_at complete i)) (keep p (range_from 0 (length wanted))) j,
      listed-keep_range p 0 (length wanted) j,
    )

names-to_fetch :
    (wanted first complete : List Bool) (j : ℕ)
    → j < length wanted
    → names (to_fetch wanted first complete) j ≡ (
        if is_narrowed wanted first complete
        then is_pinned wanted first complete j
        else flag_at wanted j)
unfolding to_fetch
names-to_fetch wanted first complete j h =
    rw (is_narrowed-pinned wanted first complete)
      (elim (Bool-cases (not (is_nil (pinned_files wanted first complete)))) [
        | inl e ↦ rw e (listed-pinned wanted first complete j h)
        | inr e ↦ rw e (
            ground (
              arith,
              listed-keep_range (λ i. flag_at wanted i) 0 (length wanted) j,
              keep_range-full (λ i. flag_at wanted i) 0 (length wanted) j,
            ))
      ])

-- Reading back what the engine is handed gives, for each file in range, whether it is wanted; and whether
-- it is one of the pinned files, where there is one that is wanted and not complete.
pub flags-to_fetch :
    (wanted first complete : List Bool) (j : ℕ)
    → j < length wanted
    → get_elem? (flags (to_fetch wanted first complete) (length wanted)) j
      ≡ some (
          if is_narrowed wanted first complete
          then is_pinned wanted first complete j
          else flag_at wanted j)
flags-to_fetch wanted first complete j h = ground (
  arith,
  get_elem?-flags (to_fetch wanted first complete) (length wanted) j h,
  names-to_fetch wanted first complete j h,
)

-- Reading the ticks back from the list of the chosen files.
pub flags-chosen :
    (wanted : List Bool) → flags (some (chosen_files wanted)) (length wanted) ≡ wanted
flags-chosen wanted =
    list_ext (flags (some (chosen_files wanted)) (length wanted)) wanted
      (length-flags (some (chosen_files wanted)) (length wanted))
      λ j lt.
        let inside : j < length wanted =
          omega (arith, length-flags (some (chosen_files wanted)) (length wanted)) in
        let p = λ (i : ℕ). flag_at wanted i in
        ground (
          arith,
          get_elem?-flags (some (chosen_files wanted)) (length wanted) j inside,
          listed-keep_range p 0 (length wanted) j,
          get-flag_at wanted j inside,
        )

-- A narrowed selection has files.
pub chosen-narrowed :
    (wanted first complete : List Bool)
    → is_narrowed wanted first complete ≡ true
    → is_nil (chosen_files wanted) ≡ false
unfolding is_narrowed
chosen-narrowed wanted first complete = some_chosen (range_from 0 (length wanted))
  where
    some_chosen :
        (list : List ℕ)
        → any (is_pinned wanted first complete) list ≡ true
        → is_nil (keep (λ i. flag_at wanted i) list) ≡ false
    some_chosen [] h = cc
    some_chosen (i ∷ list) h = ground (arith, some_chosen list)
