-- ===== src/Engine.antt =====
-- crates/zerem-engine/src/lib.rs and command.rs: the loop that takes commands and publishes snapshots.
-- What the library, the system and the task that moves files answer in one turn of the loop is a record.
-- The sweep of the watched folder is Sweep; here it is what it makes of the session, an argument.
pub mod Turning
use zerem.Prelude.{
  ℕ, Bool, true, false, not, ◌&&◌, Option, none, some, List, [], ◌∷◌, if◌then◌else◌,
}
use zerem.Prelude.Text.{Text}
use zerem.Prelude.Paths.{FilePath}
use zerem.Snapshot.{Snapshot, StreamAt, new_snapshot}
use zerem.Session.{Entry, Session, Answers, enforce_queue, set_max_active, set_running}
use zerem.Session.Selecting.{set_file_wanted, set_file_first, reconcile}
use zerem.Session.Adding.{
  Adder, Answer, Read, add, begin_inspect, adopt_read, confirm_add, cancel_add, notify,
}
use zerem.Session.Adding.Removing.{remove}
use zerem.Session.Publishing.{
  Reports, publish, watch_details, set_add_paused, set_keep_dir, set_output_dir, forget_history,
}
use zerem.Arrival.{Task, Ending, rebuilt, relocate_arrived, recheck}

-- The watched folder is set in the sweeper and the caps in the library: neither is part of the session.
pub data Command : Type 0 where
  add_link inspect : Text → Command
  confirm : Option (List ℕ) → Option Text → Option FilePath → Command
  cancel : Command
  start pause recheck_files : ℕ → Command
  remove_torrent : ℕ → Bool → Command
  max_active : ℕ → Command
  watch_dir : Option Text → Command
  add_stopped : Bool → Command
  keep_dir : Option FilePath → Command
  limits : Option ℕ → Option ℕ → Command
  file_wanted : ℕ → Option (List ℕ) → Bool → Command
  file_first : ℕ → ℕ → Bool → Command
  details_of : Option ℕ → Command
  download_dir : FilePath → Command

-- The answers of one turn.
pub record World : Type 0 where
  pub os : Answers
  pub cut : Text → FilePath
  pub adder : Adder
  pub answer : Text → Answer
  pub forgets : Bool
  pub exists : FilePath → Bool
  pub made : Bool
  pub words : Command → Text
  pub says : Ending → Text
  pub task : Task
  pub reports : Reports
  pub stream : Option StreamAt
  pub sweep : Session → Session

pub record Engine : Type 0 where
  pub session : Session
  pub latest : Snapshot
  pub was_paused : Bool

abbrev pub is_rebuilt : Ending → Bool
is_rebuilt rebuilt = true
is_rebuilt _ = false

-- What a command makes of the session, and whether it went well.
unfoldable pub obey : World → Session → Command → Session × Bool
unfolding add begin_inspect confirm_add cancel_add set_running recheck remove set_max_active
    set_file_wanted set_file_first watch_details set_add_paused set_keep_dir set_output_dir
obey w s (add_link source) = add w.cut w.adder s (w.answer source)
obey w s (inspect source) = (begin_inspect s source, true)
obey w s (confirm only folder destination) = confirm_add w.cut w.adder s only folder destination
obey w s cancel = (cancel_add s, true)
obey w s (start id) = set_running w.os s id true
obey w s (pause id) = set_running w.os s id false
obey w s (recheck_files id) =
    let (after, ending) = recheck w.forgets w.adder s id in (after, is_rebuilt ending)
obey w s (remove_torrent id delete_data) =
    let (after, went, files, dirs) = remove w.forgets w.exists s id delete_data in (after, went)
obey w s (max_active limit) = (set_max_active w.os s limit, true)
obey w s (watch_dir folder) = (s, true)
obey w s (add_stopped stopped) = (set_add_paused s stopped, true)
obey w s (keep_dir folder) = (set_keep_dir s folder, true)
obey w s (limits down up) = (s, true)
obey w s (file_wanted id files wanted) = set_file_wanted w.os s id files wanted
obey w s (file_first id file first) = set_file_first w.os s id file first
obey w s (details_of id) = (watch_details s id, true)
obey w s (download_dir dir) = set_output_dir w.made s dir

-- A command that failed says so in the status bar.
unfoldable pub told : World → Command → Session × Bool → Session
unfolding notify
told w c (s, went) = if went then s else notify s (w.words c)

-- A read that begins is published at once.
abbrev pub shown_now : World → Command → Session → Engine → Engine
unfolding publish
shown_now w (inspect source) s e =
    let (after, snap) = publish w.reports w.stream s in record e { session = after; latest = snap }
shown_now w _ s e = record e { session = s }

unfoldable pub apply : World → Engine → Command → Engine
unfolding obey told publish
apply w e c = shown_now w c (told w c (obey w e.session c)) e

-- What wakes the loop.
pub data Event : Type 0 where
  tick : Event
  command : Command → Event
  answered : Read → Event

abbrev pub is_tick : Event → Bool
is_tick tick = true
is_tick _ = false

unfoldable pub act : World → Engine → Event → Engine
unfolding apply adopt_read
act w e tick = e
act w e (command c) = apply w e c
act w e (answered r) = record e { session = adopt_read e.session r }

-- What every turn does behind its event, before anything is published.
unfoldable pub settle_turn : World → Session → Session
unfolding reconcile enforce_queue relocate_arrived
settle_turn w s = w.sweep (
    relocate_arrived w.cut w.os w.forgets w.adder w.says (enforce_queue w.os (reconcile w.os s))
      w.task)

-- One turn of the loop. While the window is hidden a tick is worked out and its snapshot dropped; the
-- first turn that is shown again starts the history anew.
unfoldable pub turn : World → Bool → Engine → Event → Engine
unfolding act settle_turn publish forget_history
turn w hidden e event =
    let acted = act w e event in
    let settled = settle_turn w acted.session in
    if hidden && is_tick event
    then record acted { session = (publish w.reports w.stream settled).0; was_paused = true }
    else (let ready = if acted.was_paused then forget_history settled else settled in
        let (after, snap) = publish w.reports w.stream ready in
        record { session = after; latest = snap; was_paused = false })
