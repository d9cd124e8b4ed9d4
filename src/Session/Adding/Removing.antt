-- ===== src/Session/Adding/Removing.antt =====
-- crates/zerem-engine/src/session.rs: removing a torrent with its files, and putting a rebuilt one in the
-- place of the one that it was.
use zerem.Prelude.{
  ℕ, ◌+◌, Bool, true, false, not, Option, none, some, List, [], ◌∷◌, keep, map, length, leb, ◌==◌,
  if◌then◌else◌, any, All, All-keep, keep-All, ◌≡◌, refl, arith, &&-true, inl, inr, Option-cases,
}
use zerem.Prelude.Paths.{
  FilePath, join, path_eq, path_leb, path_starts_with, parent, dedup, component_eq, parent_dir,
}
use zerem.Prelude.Sorting.{sort}
use zerem.Session.{Entry, Handle, Session, new_entry}
use zerem.Session.Entries.{get_entry, put_entry, drop_entry, get-put, get-drop}
use zerem.Session.Adding.{is_inside}

-- Every path that the torrent wrote and that lies inside its folder.
unfoldable pub collect_files : Entry → List FilePath
unfolding is_inside
collect_files e = elim (e.metadata) as (λ _. List FilePath) [
  | none ↦ []
  | some meta ↦ keep (is_inside e.folder) (map (λ f. join e.folder f.0) meta.files)
]

abbrev pub parents_of : FilePath → List FilePath → List FilePath
parents_of root [] = []
parents_of root (p ∷ paths) =
    let rest = parents_of root paths in
    elim (parent p) as (λ _. List FilePath) [
      | none ↦ rest
      | some above ↦ if path_eq above root then rest else above ∷ rest
    ]

-- `trash_all`: what goes to the recycle bin, and the folders that go after it if they are empty then,
-- the deepest first.
unfoldable pub trash_all :
    (FilePath → Bool) → FilePath → List FilePath → List FilePath × List FilePath
unfolding sort
trash_all exists root files = (
  keep exists files,
  sort (λ p q. leb (length q) (length p)) (dedup (sort path_leb (parents_of root files))),
)

-- `remove`, for whether the library lets go of the torrent and which files there are: the session,
-- whether it went well, and what was handed to the recycle bin.
unfoldable pub remove :
    Bool → (FilePath → Bool) → Session → ℕ → Bool → Session × Bool × List FilePath × List FilePath
unfolding collect_files trash_all get_entry drop_entry
remove deleted exists s id delete_data =
    elim (get_entry id s.entries) as (λ _. Session × Bool × List FilePath × List FilePath) [
      | none ↦ (s, false, [], [])
      | some e ↦
          let after = record s {
            entries = drop_entry id s.entries;
            generation = s.generation + 1;
          } in
          let doomed = if delete_data then collect_files e else [] in
          let (files, dirs) = trash_all exists e.folder doomed in
          if deleted then (after, true, files, dirs) else (after, false, [], [])
    ]

-- `adopt_moved`.
abbrev pub heir : Handle → Option Entry → Entry
unfolding new_entry
heir h none = new_entry h
heir h (some old) = record (new_entry h) {
  position = old.position;
  wanted_running = old.wanted_running;
  was_complete = some true;
}

abbrev pub follow : Option ℕ → ℕ → ℕ → Option ℕ
follow none was id = none
follow (some w) was id = if w == was then some id else some w

unfoldable pub adopt_moved : Session → ℕ → Handle → Session
unfolding get_entry put_entry drop_entry new_entry
adopt_moved s was h = record s {
  entries = put_entry (heir h (get_entry was s.entries)) (drop_entry was s.entries);
  watching = follow s.watching was h.id;
  generation = s.generation + 1;
}

-- A path that lies in a folder and never climbs.
abbrev pub IsInside : FilePath → FilePath → Type 0
IsInside root path =
    (any (λ c. component_eq c parent_dir) path ≡ false) × (path_starts_with root path ≡ true)

inside : (root path : FilePath) → is_inside root path ≡ true → IsInside root path
unfolding is_inside
inside root path h =
    let (low, under) =
      &&-true (not (any (λ c. component_eq c parent_dir) path)) (path_starts_with root path) h in
    (ground arith, under)

All-IsInside :
    (root : FilePath) (paths : List FilePath)
    → All (λ p. is_inside root p ≡ true) paths
    → All (IsInside root) paths
All-IsInside root [] h = tt
All-IsInside root (p ∷ paths) h = (inside root p h.0, All-IsInside root paths h.1)

collected : (e : Entry) → All (IsInside e.folder) (collect_files e)
unfolding collect_files
collected e = elim (Option-cases (e.metadata)) [
  | inl absent ↦ rw absent tt
  | inr (meta, there) ↦
      let paths = map (λ f. join e.folder f.0) meta.files in
      rw there (
        All-IsInside e.folder (keep (is_inside e.folder) paths)
          (keep-All (is_inside e.folder) paths))
]

removed_files :
    (deleted : Bool) (exists : FilePath → Bool) (s : Session) (id : ℕ) (delete_data : Bool)
    (e : Entry)
    → get_entry id s.entries ≡ some e
    → (remove deleted exists s id delete_data).2
      ≡ (if deleted then keep exists (if delete_data then collect_files e else []) else [])
unfolding remove trash_all
removed_files true exists s id delete_data e there = rw (there, remove) refl
removed_files false exists s id delete_data e there = rw (there, remove) refl

-- Whatever the paths in a torrent are, removing it hands only files to the recycle bin that lie below
-- the torrent's own folder and whose paths never climb; and none where its data is to stay.
pub remove-IsInside :
    (deleted : Bool) (exists : FilePath → Bool) (s : Session) (id : ℕ) (delete_data : Bool)
    (e : Entry)
    → get_entry id s.entries ≡ some e
    → All (IsInside e.folder) (remove deleted exists s id delete_data).2
      × (delete_data ≡ false → (remove deleted exists s id delete_data).2 ≡ [])
remove-IsInside deleted exists s id delete_data e there =
    rw (removed_files deleted exists s id delete_data e there) (split deleted delete_data)
  where
    split :
        (deleted delete_data : Bool)
        → All
            (IsInside e.folder)
            (if deleted then keep exists (if delete_data then collect_files e else []) else [])
          × (delete_data ≡ false
              → (if deleted then keep exists (if delete_data then collect_files e else []) else [])
                ≡ [])
    split true true = (All-keep (IsInside e.folder) exists (collect_files e) (collected e), λ h. cc)
    split true false = (tt, λ h. refl)
    split false d = (tt, λ h. refl)

-- A torrent that was moved is found under its new id, in its old turn and as much wanted as before; the
-- old id is gone, and the panel that showed it shows the new one. It is asked that the library gave it
-- another id.
adopt_moved-turn :
    (s : Session) (was : ℕ) (h : Handle) (old : Entry)
    → get_entry was s.entries ≡ some old
    → (h.id == was) ≡ false
    → (get_entry h.id (adopt_moved s was h).entries ≡ some (heir h (some old)))
      × (get_entry was (adopt_moved s was h).entries ≡ none)
      × (s.watching ≡ some was → (adopt_moved s was h).watching ≡ some h.id)
unfolding adopt_moved
adopt_moved-turn s was h old there other = (
  rw there (ground (arith, get-put h.id (heir h (some old)) (drop_entry was s.entries))),
  rw there (
      ground (
        arith,
        get-put was (heir h (some old)) (drop_entry was s.entries),
        get-drop was was s.entries,
      )),
  λ open_panel. rw open_panel (ground arith),
)
