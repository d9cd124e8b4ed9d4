-- ===== src/Session/Adding.antt =====
-- crates/zerem-engine/src/session.rs and crates/zerem-core/src/folder.rs: reading a torrent before it is
-- accepted, adding and removing torrents, and notices. How a platform cuts a name into components, what
-- the library reads from a link and what it makes of a torrent that is added are parameters.
pub mod Reading
pub mod Removing
use zerem.Prelude.{
  ℕ, suc, ◌+◌, Bool, true, false, not, ◌&&◌, ◌||◌, Option, none, some, List, [], ◌∷◌, ◌++◌, length,
  ltb, ◌==◌, if◌then◌else◌, get_or, is_some, map, any,
}
use zerem.Prelude.Text.{Text, codes, text_eq, is_empty}
use zerem.Prelude.Paths.{
  FilePath, Component, normal, join, path_starts_with, component_eq, parent_dir,
}
use zerem.Choice.{flag_at}
use zerem.Pending.{Pending, PendingFile, fetching, failed}
use zerem.Session.{Entry, Handle, Session, Notice, Metadata, new_entry}
use zerem.Session.Entries.{get_entry, put_entry, drop_entry}

-- What the library read from a link: the list, or why there is none.
pub record Listing : Type 0 where
  pub name : Option Text
  pub info_hash : Text
  pub files : List (Text × ℕ)
  pub bytes : List ℕ

pub data Answer : Type 0 where
  listed : Listing → Answer
  already timed_out : Answer
  refused : Text → Answer

-- A finished read.
pub record Read : Type 0 where
  pub source : Text
  pub pending : Pending
  pub bytes : Option (List ℕ)

abbrev pub pending_files : List (Text × ℕ) → List PendingFile
pending_files = map (λ f. record { path = f.0; size = f.1; wanted = true })

abbrev pub failed_read : Text → Text → Read
unfolding failed
failed_read source why = record { source = source; pending = failed source why; bytes = none }

-- `read_torrent`, for what the library answers.
unfoldable pub read_torrent : (Text → Text) → Text → Answer → Read
unfolding failed
read_torrent tr source (listed l) = record {
  source = source;
  pending = record {
    source = source;
    name = if is_empty (get_or l.name []) then source else get_or l.name [];
    info_hash = l.info_hash;
    files = pending_files l.files;
    fetching = false;
    error = none;
  };
  bytes = some l.bytes;
}
read_torrent tr source already = failed_read source (codes "that torrent is already in the list")
read_torrent tr source timed_out =
    failed_read source (tr (codes "Nobody answered with the file list"))
read_torrent tr source (refused why) = failed_read source why

unfoldable pub notify : Session → Text → Session
notify s text = record s { notice = some (record { text = text; ticks_left = 8 }) }

-- `stop_reading`: the read in flight is dropped.
unfoldable pub stop_reading : Session → Session
stop_reading s = record s { reading = none }

unfoldable pub begin_inspect : Session → Text → Session
unfolding stop_reading fetching
begin_inspect s source = record (stop_reading s) {
  pending = some (fetching source);
  reading = some source;
}

unfoldable pub adopt_read : Session → Read → Session
adopt_read s read = elim (s.pending) as (λ _. Session) [
  | none ↦ s
  | some p ↦
      if text_eq p.source read.source
      then record s { pending_bytes = read.bytes; pending = some read.pending }
      else s
]

unfoldable pub cancel_add : Session → Session
unfolding stop_reading
cancel_add s = record (stop_reading s) { pending = none; pending_bytes = none }

-- `subfolder`: the name, if the torrent has a folder of its own and the name is one plain component.
abbrev pub one_normal : FilePath → Bool
one_normal (normal n ∷ []) = true
one_normal _ = false

unfoldable pub subfolder : (Text → FilePath) → Text → ℕ → Option Text
subfolder cut name files =
    if ltb files 2 || is_empty name then none else if one_normal (cut name) then some name else none

-- The folder below a root, for the name that `subfolder` gave.
abbrev pub below : (Text → FilePath) → FilePath → Option Text → FilePath
below cut root none = root
below cut root (some name) = join root (cut name)

unfoldable pub folder_for : (Text → FilePath) → Session → Text → ℕ → FilePath
unfolding subfolder
folder_for cut s name files = below cut s.output_dir (subfolder cut name files)

-- What the library makes of a torrent that is added: from its bytes, with a selection, a folder, and
-- whether it is to be stopped.
abbrev pub Adder : Type 0
Adder = List ℕ → Option (List ℕ) → FilePath → Bool → Option Handle

unfoldable pub admit_handle : Session → Handle → Session
unfolding new_entry put_entry
admit_handle s h = record s {
  entries = put_entry (new_entry h) s.entries;
  generation = s.generation + 1;
}

-- `folder.filter(|f| subfolder(f, files).is_some())`.
abbrev pub named : (Text → FilePath) → Option Text → ℕ → Option Text
named cut none files = none
named cut (some f) files = if is_some (subfolder cut f files) then some f else none

abbrev pub destined :
    (Text → FilePath) → Session → Pending → Option Text → Option FilePath → FilePath
destined cut s p folder destination =
    let n = length p.files in
    below cut (get_or destination s.output_dir)
      (subfolder cut (get_or (named cut folder n) p.name) n)

-- Accepting what was read. The answer is used up even where the library then refuses.
unfoldable pub confirm_add :
    (Text → FilePath)
    → Adder
    → Session
    → Option (List ℕ)
    → Option Text
    → Option FilePath
    → Session × Bool
unfolding admit_handle subfolder
confirm_add cut add s only_files folder destination =
    elim (s.pending_bytes) as (λ _. Session × Bool) [
      | none ↦ (s, false)
      | some bytes ↦ elim (s.pending) as (λ _. Session × Bool) [
        | none ↦ (record s { pending_bytes = none }, false)
        | some p ↦
            let taken = record s { pending_bytes = none; pending = none } in
            elim (add bytes only_files (destined cut s p folder destination) s.add_paused)
              as (λ _. Session × Bool) [
                | none ↦ (taken, false)
                | some h ↦ (admit_handle taken h, true)
              ]
      ]
    ]

-- Adding without asking, for what the library reads from the link.
unfoldable pub add : (Text → FilePath) → Adder → Session → Answer → Session × Bool
unfolding admit_handle folder_for
add cut adder s (listed l) =
    elim (adder l.bytes none (folder_for cut s (get_or l.name []) (length l.files)) s.add_paused)
      as (λ _. Session × Bool) [ none ↦ (s, false) | some h ↦ (admit_handle s h, true) ]
add cut adder s _ = (s, false)

-- A path that climbs out of the root, or does not stand below it, is not inside.
unfoldable pub is_inside : FilePath → FilePath → Bool
is_inside root path = not (any (λ c. component_eq c parent_dir) path) && path_starts_with root path
