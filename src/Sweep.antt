-- ===== src/Sweep.antt =====
-- crates/zerem-engine/src/watch.rs: sweeping the watched folder.
pub mod Outcomes
use zerem.Prelude.{
  ℕ, zero, suc, ◌+◌, ◌%◌, Bool, true, false, ◌&&◌, not, Option, none, some, List, [], ◌∷◌, ◌++◌,
  keep, ltb, map, if◌then◌else◌, is_some,
}
use zerem.Prelude.Text.{Text, text_eq, trim, is_empty}
use zerem.Watch.{WatchOutcome, added, failed, waiting, parked}

-- The folder: the bytes of each file.
abbrev pub Files : Type 0
Files = Text → Option (List ℕ)

-- What the operating system answers, for a folder and a name.
pub record Replies : Type 0 where
  pub rename_ok : Files → Text → Bool
  pub remove_ok : Files → Text → Bool

abbrev pub put : Files → Text → Option (List ℕ) → Files
put files name v other = if text_eq name other then v else files other

unfoldable pub park : Replies → Files → Text → WatchOutcome → Files
park os files name outcome =
    let to = parked name outcome in
    if is_some (files to)
    then (if os.remove_ok files name then put files name none else files)
    else elim (files name) as (λ _. Files) [
      | none ↦ files
      | some bytes ↦
          if os.rename_ok files name then put (put files name none) to (some bytes) else files
    ]

-- What the session keeps between the sweeps, and the notices that it was asked to give.
pub record Sweeper : Type 0 where
  pub since_sweep : ℕ
  pub watching : Bool
  pub notices : List Text

-- The loop over the names, with what `add` answered for each of them.
unfoldable pub sweep_names : Replies → (Text → Bool) → List Text → Sweeper × Files → Sweeper × Files
unfolding park
sweep_names os add [] (s, files) = (s, files)
sweep_names os add (name ∷ names) (s, files) =
    let outcome = if add name then added else failed in
    let said = if add name then s.notices else s.notices ++ name ∷ [] in
    sweep_names os add names (record s { notices = said }, park os files name outcome)

-- `listed` holds the names of the files that the folder's listing gives.
unfoldable pub sweep_watch : Replies → (Text → Bool) → List Text → Sweeper × Files → Sweeper × Files
unfolding sweep_names
sweep_watch os add listed (s, files) =
    let since = (s.since_sweep + 1) % 256 in
    if ltb since 4
    then (record s { since_sweep = since }, files)
    else if s.watching
    then sweep_names os add (waiting listed) (record s { since_sweep = 0 }, files)
    else (record s { since_sweep = 0 }, files)

-- Where the watcher looks, or nothing.
unfoldable pub folder_of : Text → Option Text
folder_of setting = if is_empty (trim setting) then none else some (trim setting)
