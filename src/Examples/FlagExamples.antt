-- ===== src/Examples/FlagExamples.antt =====
-- Tests of crates/zerem-core/src/flag.rs.
use zerem.Prelude.{ℕ, ◌*◌, none, some, [], ◌∷◌, List, length, take, ◌≡◌, refl}
use zerem.Prelude.Text.{codes}
use zerem.Geo.{chunk, byte_at}
use zerem.Flag.{Flag, area, decode_flag, flag_of}
use zerem.Flag.Unpacking.{expand, decode_flag-pixels}

-- Two colours; three pixels of the first, then two of the second.
abbrev packed : List ℕ
packed = 2 ∷ 9 ∷ 8 ∷ 7 ∷ 255 ∷ 1 ∷ 2 ∷ 3 ∷ 255 ∷ 3 ∷ 0 ∷ 2 ∷ 1 ∷ []

abbrev square : Flag
square = record {
  width = 2;
  height = 2;
  pixels = 9 ∷ 8 ∷ 7 ∷ 255 ∷ 9 ∷ 8 ∷ 7 ∷ 255 ∷ 9 ∷ 8 ∷ 7 ∷ 255 ∷ 1 ∷ 2 ∷ 3 ∷ 255 ∷ [];
}

cut_off : decode_flag packed 2 2 ≡ some square
unfolding decode_flag
cut_off = refl

too_short : decode_flag packed 3 2 ≡ none
unfolding decode_flag
too_short = refl

-- Two rows in the directory, both at the same picture.
abbrev blob : List ℕ
blob =
    90 ∷ 70 ∷ 76 ∷ 71 ∷ 49 ∷ 2 ∷ 2 ∷ 2 ∷ 0 ∷ 69 ∷ 83 ∷ 21 ∷ 0 ∷ 0 ∷ 0 ∷ 70 ∷ 82 ∷ 21 ∷ 0 ∷ 0 ∷ 0
    ∷ packed

any_case : flag_of blob (codes "fR") ≡ some square
unfolding flag_of
any_case = refl

not_there : flag_of blob (codes "de") ≡ none
unfolding flag_of
not_there = refl

decode_flag-pixels_example :
    (square.width ≡ 2)
    × (square.height ≡ 2)
    × (length square.pixels ≡ area 2 2 * 4)
    × ((first rest palette runs : List ℕ)
        → chunk 1 packed ≡ some (first, rest)
        → chunk (byte_at first 0 * 4) rest ≡ some (palette, runs)
        → square.pixels ≡ take (area 2 2 * 4) (expand palette runs))
decode_flag-pixels_example = decode_flag-pixels packed 2 2 cut_off
