-- ===== src/Flag.antt =====
-- crates/zerem-core/src/flag.rs: the picture of a country's flag, packed as runs of colours. The packed
-- flags are an argument.
pub mod Unpacking
use zerem.Prelude.{
  ℕ, zero, suc, ◌+◌, ◌*◌, ◌%◌, ◌^◌, Bool, true, false, ◌&&◌, Option, none, some, List, [], ◌∷◌,
  ◌++◌, length, get_elem?, take, drop, ltb, leb, ◌==◌, if◌then◌else◌, get_or, ◌>>=◌,
}
use zerem.Prelude.Text.{Text, codes, text_eq, ascii_upper}
use zerem.Geo.{byte_at, le32, chunk}

pub record Flag : Type 0 where
  pub width : ℕ
  pub height : ℕ
  pub pixels : List ℕ

-- So many pixels of one colour.
pub copies : ℕ → List ℕ → List ℕ
copies zero colour = []
copies (suc n) colour = colour ++ copies n colour

-- The loop over the runs, until there are so many bytes; what is too much is cut off.
unfoldable pub fill : ℕ → List ℕ → List ℕ → List ℕ → Option (List ℕ)
unfolding copies
fill total palette pixels (n ∷ c ∷ runs) =
    elim (ltb (length pixels) total) as (λ _. Option (List ℕ)) [
      | false ↦ some (take total pixels)
      | true ↦ elim (chunk 4 (drop (c * 4) palette)) as (λ _. Option (List ℕ)) [
        | none ↦ none
        | some (colour, rest) ↦ fill total palette (pixels ++ copies n colour) runs
      ]
    ]
fill total palette pixels _ = if ltb (length pixels) total then none else some (take total pixels)

-- `width * height` is of u32.
abbrev pub area : ℕ → ℕ → ℕ
area width height = (width * height) % 2 ^ 32

unfoldable pub decode_flag : List ℕ → ℕ → ℕ → Option Flag
unfolding fill
decode_flag packed width height = do
  (first, rest) ← chunk 1 packed
  (palette, runs) ← chunk (byte_at first 0 * 4) rest
  pixels ← fill (area width height * 4) palette [] runs
  some (record { width = width; height = height; pixels = pixels })

-- Where the row of a code stands in the directory: `chunks_exact(6).position(…)`.
unfoldable pub find_row : ℕ → ℕ → List ℕ → Option (List ℕ)
find_row a b (p ∷ q ∷ o0 ∷ o1 ∷ o2 ∷ o3 ∷ rows) =
    let later = find_row a b rows in
    if p == a && q == b then some (o0 ∷ o1 ∷ o2 ∷ o3 ∷ []) else later
find_row a b _ = none

-- `flag::of`, for a code of two letters.
unfoldable pub flag_of : List ℕ → Text → Option Flag
unfolding decode_flag find_row
flag_of blob (a ∷ b ∷ []) = do
  (magic, rest) ← chunk 5 blob
  (sizes, rest) ← (if text_eq magic (codes "ZFLG1") then chunk 4 rest else none)
  (directory, rest) ← chunk ((byte_at sizes 2 + byte_at sizes 3 * 256) * 6) rest
  start ← find_row (ascii_upper a) (ascii_upper b) directory
  (skipped, packed) ← chunk (le32 start 0) blob
  decode_flag packed (byte_at sizes 0) (byte_at sizes 1)
flag_of blob _ = none
