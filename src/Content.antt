-- ===== src/Content.antt =====
-- crates/zerem-core/src/content.rs: what a torrent mostly holds, judged by its files' extensions.
pub mod Majority
use zerem.Prelude.{
  ℕ, zero, suc, ◌+◌, ◌*◌, ◌≤◌, min, Bool, true, false, ◌&&◌, Option, none, some, List, [], ◌∷◌, any,
  leb, ltb, ◌==◌, if◌then◌else◌, get_elem?, set, get_or, position_from, ◌>>=◌, replicate,
}
use zerem.Prelude.Text.{Text, codes, eq_ignore_ascii_case}
use zerem.Prelude.Paths.{FilePath, extension}
use zerem.Prelude.Words.{u64_max, saturating_add}

pub data Content : Type 0 where
  unknown video audio image archive disc document mixed : Content

abbrev pub named : List Content
named = video ∷ audio ∷ image ∷ archive ∷ disc ∷ document ∷ []

abbrev pub extensions : List (List Text)
extensions =
    (codes "mkv"
      ∷ codes "mp4"
      ∷ codes "avi"
      ∷ codes "mov"
      ∷ codes "wmv"
      ∷ codes "m4v"
      ∷ codes "mpg"
      ∷ codes "mpeg"
      ∷ codes "webm"
      ∷ codes "flv"
      ∷ codes "ts"
      ∷ codes "m2ts"
      ∷ codes "vob"
      ∷ codes "ogv"
      ∷ [])
    ∷ (codes "mp3"
        ∷ codes "flac"
        ∷ codes "wav"
        ∷ codes "aac"
        ∷ codes "ogg"
        ∷ codes "opus"
        ∷ codes "m4a"
        ∷ codes "wma"
        ∷ codes "alac"
        ∷ codes "aiff"
        ∷ codes "ape"
        ∷ codes "mka"
        ∷ [])
    ∷ (codes "jpg"
        ∷ codes "jpeg"
        ∷ codes "png"
        ∷ codes "gif"
        ∷ codes "webp"
        ∷ codes "bmp"
        ∷ codes "tiff"
        ∷ codes "tif"
        ∷ codes "heic"
        ∷ codes "avif"
        ∷ codes "svg"
        ∷ codes "psd"
        ∷ [])
    ∷ (codes "zip"
        ∷ codes "rar"
        ∷ codes "7z"
        ∷ codes "tar"
        ∷ codes "gz"
        ∷ codes "bz2"
        ∷ codes "xz"
        ∷ codes "zst"
        ∷ codes "cab"
        ∷ [])
    ∷ (codes "iso"
        ∷ codes "img"
        ∷ codes "bin"
        ∷ codes "cue"
        ∷ codes "mdf"
        ∷ codes "nrg"
        ∷ codes "dmg"
        ∷ codes "vhd"
        ∷ [])
    ∷ (codes "pdf"
        ∷ codes "epub"
        ∷ codes "mobi"
        ∷ codes "azw3"
        ∷ codes "djvu"
        ∷ codes "txt"
        ∷ codes "doc"
        ∷ codes "docx"
        ∷ codes "cbz"
        ∷ codes "cbr"
        ∷ [])
    ∷ []

-- An item of the iterator that the judgement runs over.
pub record Sized : Type 0 where
  pub path : FilePath
  pub len : ℕ

unfoldable pub slot_of : FilePath → Option ℕ
slot_of path = do
  ext ← extension path
  position_from 0 (λ exts. any (λ known. eq_ignore_ascii_case known ext) exts) extensions

-- `held[kind] = held[kind].saturating_add(len)` over the slot of the file, where it has one.
pub hold : List ℕ → Option ℕ → ℕ → List ℕ
hold held none len = held
hold held (some kind) len =
    set held kind (saturating_add u64_max (get_or (get_elem? held kind) 0) len)

-- The loop over the files: the bytes of each kind, and of all.
pub tally : List ℕ → ℕ → List Sized → List ℕ × ℕ
unfolding hold
tally held total [] = (held, total)
tally held total (f ∷ files) =
    tally (hold held (slot_of f.path) f.len) (saturating_add u64_max total f.len) files

-- `max_by_key`: of equal maxima the last.
pub max_held : Content × ℕ → List Content → List ℕ → Content × ℕ
max_held best (kind ∷ kinds) (bytes ∷ held) =
    max_held (if leb best.1 bytes then (kind, bytes) else best) kinds held
max_held best _ _ = best

pub largest : List Content → List ℕ → Option (Content × ℕ)
unfolding max_held
largest (kind ∷ kinds) (bytes ∷ held) = some (max_held (kind, bytes) kinds held)
largest _ _ = none

unfoldable pub judge : List ℕ → ℕ → Content
unfolding largest
judge held total = if total == 0 then unknown else elim (largest named held) [
  | none ↦ mixed
  | some (kind, bytes) ↦ if leb (total * 2) (bytes * 3) then kind else mixed
]

unfoldable pub of_files : List Sized → Content
unfolding tally judge
of_files files = let (held, total) = tally (replicate 6 0) 0 files in judge held total

-- The number that the window draws the icon by.
unfoldable pub content_kind : Content → ℕ
content_kind unknown = 0
content_kind video = 1
content_kind audio = 2
content_kind image = 3
content_kind archive = 4
content_kind disc = 5
content_kind document = 6
content_kind mixed = 7
