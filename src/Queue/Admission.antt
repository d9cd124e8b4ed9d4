-- ===== src/Queue/Admission.antt =====
-- Which torrents `admit` lets run, and how many.
use zerem.Prelude.{
  ℕ, ◌+◌, ◌%◌, ◌^◌, ◌≤◌, min, Bool, true, not, ◌||◌, List, [], ◌∷◌, ◌++◌, keep, length, ltb, ◌==◌,
  if◌then◌else◌, ◌≡◌, refl, arith, inr, ◌⊎◌,
}
use zerem.Prelude.Words.{u32_max}
use mathlib.Core.List.{Perm}
use zerem.Prelude.Sorting.{length-keep-sort, sort-IsSorted, sort-perm, IsSorted}
use zerem.Queue.{Waiting, in_turn, queue_order, admit_loop, admit}

-- The torrents that are still to be downloaded.
abbrev pub unfinished : List Waiting → List Waiting
unfinished = keep (λ w. not w.complete)

-- A torrent may run if it is complete, if there is no limit, or if fewer than `limit` unfinished
-- torrents stand before it in the queue, admitted or not.
abbrev pub entitled : ℕ → List Waiting → Waiting → Bool
entitled limit ahead w = w.complete || (limit == 0 || ltb (length (unfinished ahead)) limit)

-- The entitled torrents of a queue, behind those of `ahead`.
abbrev pub entitled_ids : ℕ → List Waiting → List Waiting → List ℕ
entitled_ids limit ahead [] = []
entitled_ids limit ahead (w ∷ order) =
    let rest = entitled_ids limit (ahead ++ w ∷ []) order in
    if entitled limit ahead w then w.id ∷ rest else rest

length-unfinished_snoc :
    (ahead : List Waiting) (w : Waiting)
    → length (unfinished (ahead ++ w ∷ []))
      ≡ length (unfinished ahead) + (if w.complete then 0 else 1)
length-unfinished_snoc [] w = ground arith
length-unfinished_snoc (v ∷ ahead) w = ground (arith, length-unfinished_snoc ahead w)

admit_loop-entitled :
    (limit downloading : ℕ) (ahead order : List Waiting)
    → limit ≤ u32_max
    → limit ≡ 0 ⊎ (downloading ≡ min limit (length (unfinished ahead)))
    → admit_loop limit downloading order ≡ entitled_ids limit ahead order
unfolding admit_loop
admit_loop-entitled limit downloading ahead [] small h = refl
admit_loop-entitled limit downloading ahead (w ∷ order) small h = ground (
  arith,
  length-unfinished_snoc ahead w,
  admit_loop-entitled limit downloading (ahead ++ w ∷ []) order small,
  admit_loop-entitled limit ((downloading + 1) % 2 ^ 32) (ahead ++ w ∷ []) order small,
)

-- Under a limit that fits in 32 bits, `admit` lets exactly the entitled torrents run, in the order of
-- the queue.
pub admit-eq-entitled :
    (waiting : List Waiting) (limit : ℕ)
    → limit ≤ u32_max
    → admit waiting limit ≡ entitled_ids limit [] (queue_order waiting)
unfolding admit
admit-eq-entitled waiting limit small =
    admit_loop-entitled limit 0 [] (queue_order waiting) small (inr (omega arith))

-- How many of the unfinished torrents of a queue run under a limit.
abbrev pub slots : ℕ → ℕ → ℕ
slots limit n = if limit == 0 then n else min limit n

length-entitled :
    (limit : ℕ) (ahead order : List Waiting)
    → length (entitled_ids limit ahead order) + slots limit (length (unfinished ahead))
      ≡ length (keep (λ w. w.complete) order)
        + slots limit (length (unfinished ahead) + length (unfinished order))
length-entitled limit ahead [] = ground arith
length-entitled limit ahead (w ∷ order) =
    ground (arith, length-unfinished_snoc ahead w, length-entitled limit (ahead ++ w ∷ []) order)

-- Under a limit that fits in 32 bits, the number of torrents that run is the number of wanted complete ones, and as many of the
-- wanted unfinished ones as the limit has room for.
pub length-admit :
    (waiting : List Waiting) (limit : ℕ)
    → limit ≤ u32_max
    → length (admit waiting limit)
      ≡ length (keep (λ w. w.complete) (keep (λ w. w.wanted) waiting))
        + slots limit (length (unfinished (keep (λ w. w.wanted) waiting)))
length-admit waiting limit small =
    let wanted = keep (λ w. w.wanted) waiting in
    ground (
      arith,
      admit-eq-entitled waiting limit small,
      length-entitled limit [] (queue_order waiting),
      length-keep-sort in_turn (λ w. w.complete) wanted,
      length-keep-sort in_turn (λ w. not w.complete) wanted,
    )

in_turn_total : (a b : Waiting) → (in_turn a b ≡ true) ⊎ (in_turn b a ≡ true)
in_turn_total a b = ground arith

in_turn_trans : (a b c : Waiting) → in_turn a b ≡ true → in_turn b c ≡ true → in_turn a c ≡ true
in_turn_trans a b c p q = ground arith

-- The queue holds the wanted torrents, each as often as it was given, and stands in the order of
-- the position, and of the id where two positions are equal.
pub queue_order-IsSorted :
    (waiting : List Waiting)
    → IsSorted in_turn (queue_order waiting)
      × Perm (queue_order waiting) (keep (λ w. w.wanted) waiting)
queue_order-IsSorted waiting =
    (sort-IsSorted in_turn in_turn_total in_turn_trans _, sort-perm in_turn _)
