-- ===== src/Arrival.antt =====
-- crates/zerem-engine/src/arrival.rs: what happens to a torrent the moment it finishes, and checking one
-- again. The copying runs on a task of its own (Carry); what a tick finds of that task is an argument, as
-- are the library's answers, and the sentence that a failed move is reported with.
pub mod Rechecking
pub mod Moving
use zerem.Prelude.{
  ℕ, Bool, true, false, not, ◌&&◌, Option, none, some, List, [], ◌∷◌, ◌++◌, map, all, length,
  replicate, ◌==◌, if◌then◌else◌, get_or, is_some,
}
use zerem.Prelude.Text.{Text}
use zerem.Prelude.Paths.{FilePath}
use zerem.Choice.{to_fetch, chosen_files}
use zerem.Relocate.{Step, plan, landing}
use zerem.Carry.{Fault}
use zerem.Session.{Entry, Handle, Session, Metadata, Keepsake, Move, Answers, change}
use zerem.Session.Entries.{get_entry}
use zerem.Session.Adding.{Adder, subfolder, notify}
use zerem.Session.Adding.Removing.{adopt_moved}
use zerem.Session.Publishing.{forget_arrived}

-- What a tick finds of the task that moves the files.
pub data Task : Type 0 where
  running died : Task
  carried : Option Fault → Task

-- What became of the move that was looked in on: there is none, it goes on, it failed, the library did
-- not let go of the torrent, it did and would not take it back, or the torrent is in its new place.
pub data Ending : Type 0 where
  nothing underway failed kept lost rebuilt : Ending

-- Everything needed to rebuild a torrent elsewhere, where there is a move to make.
unfoldable pub gather : (Text → FilePath) → Session → ℕ → FilePath → Option Keepsake
unfolding get_entry subfolder plan landing to_fetch
gather cut s id keep = elim (get_entry id s.entries) as (λ _. Option Keepsake) [
  | none ↦ none
  | some e ↦ elim (e.metadata) as (λ _. Option Keepsake) [
    | none ↦ none
    | some meta ↦
        let paths = map (λ f. f.0) meta.files in
        let owns_folder = is_some (subfolder cut (get_or e.name []) (length paths)) in
        elim (plan e.folder paths keep owns_folder) as (λ _. Option Keepsake) [
          | none ↦ none
          | some steps ↦ some (record {
            bytes = meta.bytes;
            only_files = to_fetch e.wanted e.first (replicate (length e.wanted) true);
            plan = steps;
            output = landing e.folder keep owns_folder;
            was_running = e.wanted_running;
          })
        ]
  ]
]

-- `pause_for_move`: what the library answers is of no interest, and what the user wants stays.
unfoldable pub pause_for_move : Answers → Session → ℕ → Session
unfolding change
pause_for_move os s id =
    if os.pause_ok id
    then record s { entries = change (λ e. record e { paused = true }) id s.entries }
    else s

-- The loop over what has arrived: the first that there is a move for.
pub start_loop : (Text → FilePath) → Answers → FilePath → List ℕ → Session → Session
unfolding gather pause_for_move
start_loop cut os keep [] s = record s { arrived = [] }
start_loop cut os keep (id ∷ rest) s = elim (gather cut s id keep) as (λ _. Session) [
  | none ↦ start_loop cut os keep rest s
  | some k ↦ record (pause_for_move os s id) {
    moving = some (record { id = id; keepsake = k });
    arrived = rest;
  }
]

unfoldable pub start_move : (Text → FilePath) → Answers → Session → Session
unfolding start_loop
start_move cut os s = elim (s.keep_dir) as (λ _. Session) [
  | none ↦ s
  | some keep ↦ start_loop cut os keep s.arrived s
]

unfoldable pub after_failure : Session → ℕ → Keepsake → Session
unfolding change
after_failure s id k =
    if k.was_running
    then record s { entries = change (λ e. record e { wanted_running = true }) id s.entries }
    else s

-- `rebuild`, for whether the library lets go of the torrent.
unfoldable pub rebuild : Bool → Adder → Session → ℕ → Keepsake → Session × Ending
unfolding adopt_moved
rebuild forgets adder s id k =
    if not forgets
    then (s, kept)
    else elim (adder k.bytes k.only_files k.output (not k.was_running)) as (λ _. Session × Ending) [
      | none ↦ (s, lost)
      | some h ↦ (adopt_moved s id h, rebuilt)
    ]

-- What is said of a move that failed, or of a torrent that could not be put back.
abbrev pub report_unless : (Ending → Text) → Session × Ending → Session × Ending
unfolding notify
report_unless says (s, rebuilt) = (s, rebuilt)
report_unless says (s, ending) = (notify s (says ending), ending)

unfoldable pub finish_move : Bool → Adder → (Ending → Text) → Session → Task → Session × Ending
unfolding after_failure rebuild notify
finish_move forgets adder says s task = elim (s.moving) as (λ _. Session × Ending) [
  | none ↦ (s, nothing)
  | some m ↦
      let over = record s { moving = none } in
      elim task as (λ _. Session × Ending) [
        | running ↦ (s, underway)
        | died ↦ (after_failure over m.id m.keepsake, failed)
        | carried fault ↦ elim fault as (λ _. Session × Ending) [
          | some why ↦ (after_failure (notify over (says failed)) m.id m.keepsake, failed)
          | none ↦ report_unless says (rebuild forgets adder over m.id m.keepsake)
        ]
      ]
]

-- What a tick does for the torrents that finished.
unfoldable pub relocate_arrived :
    (Text → FilePath) → Answers → Bool → Adder → (Ending → Text) → Session → Task → Session
unfolding finish_move start_move forget_arrived
relocate_arrived cut os forgets adder says s task =
    let looked = (finish_move forgets adder says s task).0 in
    if not (is_some looked.keep_dir)
    then forget_arrived looked
    else if is_some looked.moving
    then looked
    else start_move cut os looked

-- What a torrent is rebuilt from to check it where it is.
abbrev pub in_place : Entry → Metadata → Keepsake
in_place e meta = record {
  bytes = meta.bytes;
  only_files = if all (λ w. w) e.wanted then none else some (chosen_files e.wanted);
  plan = [];
  output = e.folder;
  was_running = e.wanted_running;
}

unfoldable pub recheck : Bool → Adder → Session → ℕ → Session × Ending
unfolding rebuild get_entry
recheck forgets adder s id = elim (get_entry id s.entries) as (λ _. Session × Ending) [
  | none ↦ (s, nothing)
  | some e ↦ elim (e.metadata) as (λ _. Session × Ending) [
    | none ↦ (s, nothing)
    | some meta ↦ rebuild forgets adder s id (in_place e meta)
  ]
]
