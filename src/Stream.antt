-- ===== src/Stream.antt =====
-- crates/zerem-engine/src/stream.rs: serving a file that has not finished downloading. A text is the
-- list of its Unicode scalar values.
pub mod Secret
pub mod Guard
use zerem.Prelude.{
  ℕ, zero, suc, ◌+◌, ◌-◌, ◌*◌, ◌/◌, ◌%◌, ◌^◌, Bool, true, false, ◌&&◌, Option, none, some, List, [],
  ◌∷◌, ◌++◌, length, ltb, leb, ◌==◌, if◌then◌else◌, ◌>>=◌,
}
use zerem.Prelude.Text.{
  Text, codes, strip_prefix, split_once, split, split_whitespace, trim, parse_uint, is_empty,
}
use zerem.Prelude.Words.{xor_u8, or_u8, u32_max, u64_max}

-- How much is left to send, and whether the answer is a partial one.
unfoldable pub span : ℕ → ℕ → Option (ℕ × Bool)
span from total =
    if from == 0
    then some (total, false)
    else if leb total from
    then none
    else some (total - from, true)

-- The bytes of a text.
abbrev pub utf8_char : ℕ → List ℕ
utf8_char c =
    if ltb c 128
    then c ∷ []
    else if ltb c 2048
    then (192 + c / 64) ∷ (128 + c % 64) ∷ []
    else if ltb c 65536
    then (224 + c / 4096) ∷ (128 + (c / 64) % 64) ∷ (128 + c % 64) ∷ []
    else (240 + c / 262144) ∷ (128 + (c / 4096) % 64) ∷ (128 + (c / 64) % 64) ∷ (128 + c % 64) ∷ []

unfoldable pub utf8 : Text → List ℕ
utf8 [] = []
utf8 (c ∷ text) = utf8_char c ++ utf8 text

-- The fold of `same`, over as many bytes as both have.
unfoldable pub differs : ℕ → List ℕ → List ℕ → ℕ
differs seen (a ∷ given) (b ∷ key) = differs (or_u8 seen (xor_u8 a b)) given key
differs seen _ _ = seen

unfoldable pub same : Text → Text → Bool
unfolding differs utf8
same given key =
    (length (utf8 given) == length (utf8 key)) && (differs 0 (utf8 given) (utf8 key) == 0)

abbrev pub first_of {ℓ} : {A : Type ℓ} → List A → Option A
first_of [] = none
first_of (x ∷ xs) = some x

-- The torrent and the file that a request line names, once the key was right.
abbrev pub numbers_of : Text → Option (ℕ × ℕ)
numbers_of rest = do
  rest ← strip_prefix (codes "t/") rest
  parts ← split_once 47 rest
  id ← parse_uint u32_max parts.0
  file ← parse_uint u64_max parts.1
  some (id, file)

unfoldable pub target : Text → Text → Option (ℕ × ℕ)
unfolding same
target line key = do
  rest ← strip_prefix (codes "GET ") line
  path ← first_of (split_whitespace rest)
  path ← strip_prefix (codes "/") path
  parts ← split_once 47 path
  if same parts.0 key then numbers_of parts.1 else none

abbrev pub or_else {ℓ} : {A : Type ℓ} → Option A → Option A → Option A
or_else none b = b
or_else (some a) b = some a

-- Where a `Range` header starts reading, if the header is one.
unfoldable pub range_start : Text → Option ℕ
range_start header = do
  value ←
      or_else (strip_prefix (codes "Range:") (trim header))
        (strip_prefix (codes "range:") (trim header))
  bytes ← strip_prefix (codes "bytes=") (trim value)
  start ← first_of (split (λ c. c == 45) bytes)
  parse_uint u64_max (trim start)

-- What the player is answered, where the socket itself does not fail: a refusal with its status, or the
-- bytes `from` on, of a file of `total` bytes, `remaining` of them announced.
pub data Reply : Type 0 where
  too_large bad_request not_found not_satisfiable : Reply
  sends : (id file from remaining total : ℕ) → Bool → Reply

-- The loop over the headers: the answers of `bounded`, each a line or (`none`) one that hit the
-- ceiling. An empty line, and the end of the connection, is an empty text.
unfoldable pub headers : ℕ → ℕ → List (Option Text) → Option ℕ
headers zero from lines = some from
headers (suc more) from [] = some from
headers (suc more) from (none ∷ lines) = none
headers (suc more) from (some header ∷ lines) =
    let rest =
      headers more (elim (range_start header) as (λ _. ℕ) [ none ↦ from | some start ↦ start ])
        lines in
    if is_empty (trim header) then some from else rest

module _ (Torrent : Type 0) (lookup : ℕ → Option Torrent) (stream : Torrent → ℕ → Option ℕ) where
  -- `serve` behind the headers; `stream` gives the length of the stream of a file, or fails.
  unfoldable pub answer_from : ℕ → ℕ → ℕ → Reply
  unfolding span
  answer_from id file from = elim (lookup id) as (λ _. Reply) [
    | none ↦ not_found
    | some handle ↦ elim (stream handle file) as (λ _. Reply) [
      | none ↦ not_found
      | some total ↦ elim (span from total) as (λ _. Reply) [
        | none ↦ not_satisfiable
        | some (remaining, partial) ↦ sends id file from remaining total partial
      ]
    ]
  ]

  unfoldable pub serve : Text → List (Option Text) → Reply
  unfolding target headers answer_from
  serve key [] = bad_request
  serve key (none ∷ lines) = too_large
  serve key (some line ∷ lines) = elim (target line key) as (λ _. Reply) [
    | none ↦ bad_request
    | some (id, file) ↦ elim (headers 64 0 lines) as (λ _. Reply) [
      | none ↦ too_large
      | some from ↦ answer_from id file from
    ]
  ]
