-- ===== src/Session.antt =====
-- crates/zerem-engine/src/session.rs: the torrents that the engine holds, and the queue that it enforces
-- over them. What the torrent library knows of a torrent stands in the entry too, from `name` of the
-- handle to `only_files`; its answers, by the id of the torrent, are a parameter. `seq`, `generation`,
-- `position` and `next_front`, which are u64 and i64 in the source and go up or down by one, have no
-- bounds here. The children hold the choice of files, adding and removing, and what is published.
pub mod Enforcing
pub mod Entries
pub mod Selecting
pub mod Adding
pub mod Publishing
use zerem.Prelude.{
  is_nil, ℕ, zero, suc, ◌+◌, ◌-◌, Bool, true, false, not, ◌&&◌, ◌||◌, Option, none, some, List, [],
  ◌∷◌, map, any, ◌==◌, if◌then◌else◌, leb, length, get_or, position_from,
}
use zerem.Prelude.Text.{Text, text_eq}
use zerem.Prelude.Int.{ℤ, pos, negsuc}
use zerem.Prelude.Paths.{FilePath}
use zerem.Prelude.Sorting.{sort}
use zerem.Queue.{Waiting, admit}
use zerem.Content.{Content}
use zerem.Pending.{Pending}
use zerem.History.{History}
use zerem.Journal.{Journal}
use zerem.Relocate.{Step}

-- What `with_metadata` gives out: the relative paths and lengths of the files, and the metainfo.
pub record Metadata : Type 0 where
  pub files : List (FilePath × ℕ)
  pub bytes : List ℕ

-- A torrent as the library hands it out.
pub record Handle : Type 0 where
  pub id : ℕ
  pub info_hash : Text
  pub name : Option Text
  pub folder : FilePath
  pub metadata : Option Metadata
  pub progress : List ℕ
  pub only_files : Option (List ℕ)
  pub paused : Bool
  pub failed : Bool
  pub finished : Bool

pub record Entry : Type 0 where
  pub id : ℕ
  pub info_hash : Text
  pub name : Option Text
  pub folder : FilePath
  pub metadata : Option Metadata
  pub progress : List ℕ
  pub only_files : Option (List ℕ)
  pub paused : Bool
  pub failed : Bool
  pub finished : Bool
  pub known_name : Option (Text × Text)
  pub content : Option Content
  pub still : ℕ
  pub wanted : List Bool
  pub first : List Bool
  pub wanted_running : Bool
  pub position : ℤ
  pub was_complete : Option Bool

-- `Entry::new`.
unfoldable pub new_entry : Handle → Entry
new_entry h = record {
  id = h.id;
  info_hash = h.info_hash;
  name = h.name;
  folder = h.folder;
  metadata = h.metadata;
  progress = h.progress;
  only_files = h.only_files;
  paused = h.paused;
  failed = h.failed;
  finished = h.finished;
  known_name = none;
  content = none;
  still = 0;
  wanted = [];
  first = [];
  wanted_running = true;
  position = pos 0;
  was_complete = none;
}

pub record Notice : Type 0 where
  pub text : Text
  pub ticks_left : ℕ

-- `Keepsake` and `Move` of arrival.rs: what rebuilds a torrent, and the move that is under way.
pub record Keepsake : Type 0 where
  pub bytes : List ℕ
  pub only_files : Option (List ℕ)
  pub plan : List Step
  pub output : FilePath
  pub was_running : Bool

pub record Move : Type 0 where
  pub id : ℕ
  pub keepsake : Keepsake

-- `queued` is the roster of the info hashes that the queue holds back, `reading` the source of the read
-- that is in flight.
pub record Session : Type 0 where
  pub entries : List Entry
  pub seq : ℕ
  pub generation : ℕ
  pub notice : Option Notice
  pub output_dir : FilePath
  pub watching : Option ℕ
  pub reading : Option Text
  pub pending : Option Pending
  pub pending_bytes : Option (List ℕ)
  pub keep_dir : Option FilePath
  pub arrived : List ℕ
  pub moving : Option Move
  pub history : History
  pub journal : Journal
  pub limit : ℕ
  pub next_back : ℤ
  pub next_front : ℤ
  pub queued : List Text
  pub add_paused : Bool

-- Whether the library does what it is asked to for a torrent, and whether a file can be written.
pub record Answers : Type 0 where
  pub unpause_ok : ℕ → Bool
  pub pause_ok : ℕ → Bool
  pub update_ok : ℕ → Bool
  pub write_ok : Bool

abbrev pub waiting_of : Entry → Waiting
waiting_of e = record {
  id = e.id;
  position = e.position;
  wanted = e.wanted_running;
  complete = e.finished;
}

abbrev pub holds : List ℕ → ℕ → Bool
holds ids id = any (λ i. i == id) ids

-- What the second loop does with one torrent.
unfoldable pub settle_one : Answers → List ℕ → Entry → Entry
settle_one os admitted e =
    let should_run = holds admitted e.id in
    if e.failed
    then e
    else if should_run && e.paused
    then (if os.unpause_ok e.id then record e { paused = false } else e)
    else if not should_run && (not e.paused && e.wanted_running)
    then (if os.pause_ok e.id then record e { paused = true } else e)
    else e

-- The torrents that the queue holds back.
pub held_back : List ℕ → List Entry → List Text
held_back admitted [] = []
held_back admitted (e ∷ entries) =
    let rest = held_back admitted entries in
    if e.wanted_running && not (holds admitted e.id) then e.info_hash ∷ rest else rest

abbrev pub admitted_of : Session → List ℕ
admitted_of s = admit (map waiting_of s.entries) s.limit

unfoldable pub enforce_queue : Answers → Session → Session
unfolding held_back
enforce_queue os s = if s.limit == 0 && is_nil s.queued then s else record s {
  entries = map (settle_one os (admitted_of s)) s.entries;
  queued = held_back (admitted_of s) s.entries;
}

unfoldable pub set_max_active : Answers → Session → ℕ → Session
unfolding enforce_queue
set_max_active os s limit = enforce_queue os (record s { limit = limit })

abbrev pub before : ℤ → ℤ
before (pos zero) = negsuc 0
before (pos (suc n)) = pos n
before (negsuc n) = negsuc (n + 1)

unfoldable pub change : (Entry → Entry) → ℕ → List Entry → List Entry
change f id [] = []
change f id (e ∷ entries) = (if e.id == id then f e else e) ∷ change f id entries

-- `set_running`: what is left of the session, and whether it went well.
unfoldable pub set_running : Answers → Session → ℕ → Bool → Session × Bool
unfolding enforce_queue change
set_running os s id running =
    if not (any (λ e. e.id == id) s.entries)
    then (s, false)
    else if running
    then (let asked = record s {
      entries =
          change (λ e. record e { wanted_running = true; position = s.next_front }) id s.entries;
      next_front = before s.next_front;
    } in
        if os.unpause_ok id
        then (
          enforce_queue os (record asked {
            entries = change (λ e. record e { paused = false }) id asked.entries;
          }),
          true,
        )
        else (asked, false))
    else (let asked = record s {
      entries = change (λ e. record e { wanted_running = false }) id s.entries;
    } in
        if os.pause_ok id
        then (
          enforce_queue os (record asked {
            entries = change (λ e. record e { paused = true }) id asked.entries;
          }),
          true,
        )
        else (asked, false))

-- The ids in the order in which they were given out, and the place of each in it.
abbrev pub place_of : List ℕ → ℕ → ℕ
place_of ids id = get_or (position_from 0 (λ i. i == id) ids) 0

-- The body of the loop of `adopt_queue`.
abbrev pub placed : List Text → List ℕ → Entry → Entry
placed queued ids e = record e {
  position = pos (place_of ids e.id);
  wanted_running = not e.paused || any (λ h. text_eq h e.info_hash) queued;
}

unfoldable pub adopt_queue : Session → Session
unfolding sort
adopt_queue s = record s {
  entries = map (placed s.queued (sort leb (map (λ e. e.id) s.entries))) s.entries;
  next_back = pos (length s.entries);
}
