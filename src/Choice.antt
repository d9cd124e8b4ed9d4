-- ===== src/Choice.antt =====
-- crates/zerem-core/src/choice.rs: which files of a torrent are wanted, and which to fetch.
pub mod Ticking
pub mod Fetching
use zerem.Prelude.{
  is_nil, ℕ, zero, suc, ◌+◌, Bool, true, false, not, ◌&&◌, Option, none, some, List, [], ◌∷◌, keep,
  length, get_elem?, set, replicate, range_from, any, ltb, ◌==◌, if◌then◌else◌, get_or, ◌>>=◌,
}

-- `for &i in list { flags[i] = true }`.
pub raise : List Bool → List ℕ → List Bool
raise flags [] = flags
raise flags (i ∷ list) = raise (set flags i true) list

-- A list of file indices, as one flag for each file; `none` is every file.
unfoldable pub flags : Option (List ℕ) → ℕ → List Bool
unfolding raise
flags none count = replicate count true
flags (some list) count = raise (replicate count false) (keep (λ i. ltb i count) list)

-- The loop over the chosen files: an index out of range ends it with `none`.
pub tick_each : List Bool → List ℕ → Bool → Option (List Bool)
tick_each next [] wanted = some next
tick_each next (i ∷ chosen) wanted = do
  _ ← get_elem? next i
  tick_each (set next i wanted) chosen wanted

unfoldable pub ticked : List Bool → Option (List ℕ) → Bool → Option (List Bool)
unfolding tick_each
ticked current (some chosen) wanted = tick_each current chosen wanted
ticked current none wanted = some (replicate (length current) wanted)

-- `list.get(i).copied().unwrap_or(false)`, and `wanted[i]` where `i` is in range.
abbrev pub flag_at : List Bool → ℕ → Bool
flag_at list i = get_or (get_elem? list i) false

-- A file that is wanted, pinned to come first, and not all here yet.
abbrev pub is_pinned : List Bool → List Bool → List Bool → ℕ → Bool
is_pinned wanted first complete i =
    (flag_at wanted i && flag_at first i) && not (flag_at complete i)

abbrev pub pinned_files : List Bool → List Bool → List Bool → List ℕ
pinned_files wanted first complete =
    keep (λ i. not (flag_at complete i))
      (keep (λ i. flag_at wanted i && flag_at first i) (range_from 0 (length wanted)))

abbrev pub chosen_files : List Bool → List ℕ
chosen_files wanted = keep (λ i. flag_at wanted i) (range_from 0 (length wanted))

-- `none` is every file.
unfoldable pub to_fetch : List Bool → List Bool → List Bool → Option (List ℕ)
to_fetch wanted first complete =
    let pinned = pinned_files wanted first complete in
    let chosen = chosen_files wanted in
    if not (is_nil pinned)
    then some pinned
    else if length chosen == length wanted
    then none
    else some chosen

unfoldable pub is_narrowed : List Bool → List Bool → List Bool → Bool
is_narrowed wanted first complete =
    any (is_pinned wanted first complete) (range_from 0 (length wanted))
