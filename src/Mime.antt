-- ===== src/Mime.antt =====
-- crates/zerem-core/src/mime.rs: what a player is told a file is, and where it is pointed.
pub mod Routing
use zerem.Prelude.{ℕ, Bool, true, false, ◌||◌, Option, none, some, List, [], ◌∷◌, ◌++◌, find}
use zerem.Prelude.Text.{Text, codes, text_eq, rsplit_once, to_ascii_lowercase, starts_with, decimal}
use zerem.Snapshot.{StreamAt}

abbrev pub table : List (Text × Text)
table =
    (codes "aac", codes "audio/aac")
    ∷ (codes "avi", codes "video/x-msvideo")
    ∷ (codes "flac", codes "audio/flac")
    ∷ (codes "m4a", codes "audio/mp4")
    ∷ (codes "m4v", codes "video/x-m4v")
    ∷ (codes "mka", codes "audio/x-matroska")
    ∷ (codes "mkv", codes "video/x-matroska")
    ∷ (codes "mov", codes "video/quicktime")
    ∷ (codes "mp3", codes "audio/mpeg")
    ∷ (codes "mp4", codes "video/mp4")
    ∷ (codes "mpeg", codes "video/mpeg")
    ∷ (codes "mpg", codes "video/mpeg")
    ∷ (codes "ogg", codes "audio/ogg")
    ∷ (codes "ogv", codes "video/ogg")
    ∷ (codes "opus", codes "audio/opus")
    ∷ (codes "srt", codes "application/x-subrip")
    ∷ (codes "ts", codes "video/mp2t")
    ∷ (codes "wav", codes "audio/wav")
    ∷ (codes "webm", codes "video/webm")
    ∷ (codes "wmv", codes "video/x-ms-wmv")
    ∷ []

-- `mime::of`.
unfoldable pub mime_of : Text → Option Text
mime_of name = elim (rsplit_once 46 name) as (λ _. Option Text) [
  | none ↦ none
  | some parts ↦
      elim (find (λ row. text_eq row.0 (to_ascii_lowercase parts.1)) table) as (λ _. Option Text) [
        | none ↦ none
        | some row ↦ some row.1
      ]
]

unfoldable pub is_playable : Text → Bool
unfolding mime_of
is_playable name = elim (mime_of name) as (λ _. Bool) [
  | none ↦ false
  | some type ↦ starts_with (codes "video/") type || starts_with (codes "audio/") type
]

-- The part of the address behind the host.
abbrev pub path_of : Text → ℕ → ℕ → Text
path_of key torrent file =
    codes "/" ++ (key ++ (codes "/t/" ++ (decimal torrent ++ (codes "/" ++ decimal file))))

unfoldable pub url : StreamAt → ℕ → ℕ → Text
url at torrent file = codes "http://127.0.0.1:" ++ (decimal at.port ++ path_of at.key torrent file)
