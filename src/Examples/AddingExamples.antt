-- ===== src/Examples/AddingExamples.antt =====
-- Tests of adding and removing in crates/zerem-engine/src/session.rs.
use zerem.Prelude.{none, some, true, false, [], ◌∷◌, ◌≡◌, refl, List, All, if◌then◌else◌, is_nil}
use zerem.Prelude.Text.{Text, codes}
use zerem.Prelude.Paths.{FilePath, root_dir, normal, parent_dir}
use zerem.Pending.{Pending}
use zerem.Session.{Handle, Session}
use zerem.Session.Entries.{get_entry}
use zerem.Session.Adding.{
  Adder, Answer, Listing, listed, timed_out, read_torrent, begin_inspect, subfolder, destined,
  is_inside,
}
use zerem.Session.Adding.Reading.{adopt_all, reads_of, last_answer, Shows, dialog-Shows}
use zerem.Session.Adding.Removing.{remove, IsInside, remove-IsInside}
use zerem.Examples.Fixtures.{session, running_one, handle_one}

abbrev cut : Text → FilePath
cut name = normal name ∷ []

abbrev listing : Listing
listing = record {
  name = some (codes "Show");
  info_hash = codes "cc";
  files = (codes "a", 1) ∷ (codes "b", 2) ∷ [];
  bytes = 9 ∷ [];
}

abbrev handle_three : Handle
handle_three = record handle_one { id = 3; info_hash = codes "cc"; name = some (codes "Show") }

abbrev adder : Adder
adder bytes only folder stopped = if is_nil bytes then none else some handle_three

abbrev shown : Pending
shown = record {
  source = codes "link";
  name = codes "Show";
  info_hash = codes "cc";
  files =
      record { path = codes "a"; size = 1; wanted = true }
      ∷ record { path = codes "b"; size = 2; wanted = true }
      ∷ [];
  fetching = false;
  error = none;
}

read_shown : (read_torrent (λ t. t) (codes "link") (listed listing)).pending ≡ shown
unfolding read_torrent
read_shown = refl

abbrev ready : Session
ready = record session { pending = some shown; pending_bytes = some (9 ∷ []) }

own_folder :
    destined cut ready shown none none ≡ root_dir ∷ normal (codes "in") ∷ normal (codes "Show") ∷ []
unfolding subfolder
own_folder = refl

climbs_out :
    is_inside
      (root_dir ∷ normal (codes "in") ∷ [])
      (root_dir ∷ normal (codes "in") ∷ parent_dir ∷ [])
    ≡ false
unfolding is_inside
climbs_out = refl

abbrev asked : List (Text × Answer)
asked = (codes "other", listed listing) ∷ (codes "link", timed_out) ∷ []

dialog-Shows_example :
    Shows
      (λ t. t)
      (codes "link")
      session.pending_bytes
      (last_answer (codes "link") none asked)
      (adopt_all (begin_inspect session (codes "link")) (reads_of (λ t. t) asked))
dialog-Shows_example = dialog-Shows (λ t. t) session (codes "link") asked

remove-IsInside_example :
    All (IsInside running_one.folder) (remove true (λ p. true) session 1 true).2
    × (true ≡ false → (remove true (λ p. true) session 1 true).2 ≡ [])
unfolding get_entry
remove-IsInside_example = remove-IsInside true (λ p. true) session 1 true running_one refl

abbrev watched : Session
watched = record session { watching = some 1 }
