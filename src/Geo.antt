-- ===== src/Geo.antt =====
-- crates/zerem-core/src/geo.rs: the country of an address, by a table of ranges. The table's bytes are an
-- argument, and reading past a table that breaks off is `none`. A cursor into the stream is the rest of
-- the stream behind it.
pub mod Searching
pub mod Walking
pub mod Looking
use zerem.Prelude.{
  ℕ, zero, suc, ◌+◌, ◌-◌, ◌*◌, ◌/◌, ◌%◌, ◌^◌, Bool, true, false, ◌&&◌, ◌||◌, Option, none, some,
  List, [], ◌∷◌, length, get_elem?, take, drop, ltb, leb, ◌==◌, if◌then◌else◌, get_or, ◌>>=◌, all,
}
use zerem.Prelude.Text.{Text, codes, text_eq}
use zerem.Prelude.Words.{checked_sub}

abbrev pub index_row : ℕ
index_row = 8

abbrev pub byte_at : List ℕ → ℕ → ℕ
byte_at bytes at = get_or (get_elem? bytes at) 0

-- `u32::from_le_bytes` of four bytes.
abbrev pub le32 : List ℕ → ℕ → ℕ
le32 bytes at =
    byte_at bytes at
    + byte_at bytes (at + 1) * 256
    + byte_at bytes (at + 2) * 65536
    + byte_at bytes (at + 3) * 16777216

pub record Family : Type 0 where
  pub shift : ℕ
  pub index : List ℕ
  pub stream : List ℕ

unfoldable pub rows_of : Family → ℕ
rows_of f = length f.index / index_row

unfoldable pub row_key : Family → ℕ → ℕ
row_key f row = le32 f.index (row * index_row)

unfoldable pub row_offset : Family → ℕ → ℕ
row_offset f row = le32 f.index (row * index_row + 4)

-- The binary search for the first row behind the key, with as many rounds as there are rows at most.
unfoldable pub seek : (ℕ → ℕ) → ℕ → ℕ → ℕ → ℕ → ℕ
seek keys key zero lo hi = lo
seek keys key (suc rounds) lo hi = elim (ltb lo hi) as (λ _. ℕ) [
  | false ↦ lo
  | true ↦
      let mid = lo + (hi - lo) / 2 in
      elim (leb (keys mid) key) as (λ _. ℕ) [
        | true ↦ seek keys key rounds (mid + 1) hi
        | false ↦ seek keys key rounds lo mid
      ]
]

-- What stands behind a number of variable length.
unfoldable pub skip_varint : List ℕ → Option (List ℕ)
skip_varint [] = none
skip_varint (b ∷ rest) = let later = skip_varint rest in if leb 128 b then later else some rest

-- The number itself, its low groups first; the groups are disjoint, so `|=` adds them.
-- It is the number of the source as long as its shifts stay below 64, that is over ten bytes at most.
unfoldable pub decode_from : ℕ → ℕ → List ℕ → ℕ
decode_from value shift [] = value
decode_from value shift (b ∷ rest) =
    let value' = (value + (b % 128) * 2 ^ shift) % 2 ^ 64 in
    let later = decode_from value' (shift + 7) rest in if ltb b 128 then value' else later

abbrev pub decode : List ℕ → ℕ
decode rest = decode_from 0 0 rest

-- The loop over the ranges from a row on. A round takes a byte at least, so the stream's own length is
-- rounds enough; `none` is a stream that breaks off in front of a country. Keys are of u64.
unfoldable pub walk : ℕ → ℕ → ℕ → ℕ → List ℕ → Option ℕ
walk zero key current country rest = some country
walk (suc rounds) key current country [] = some country
walk (suc rounds) key current country (b ∷ rest) =
    let next = (current + decode (b ∷ rest)) % 2 ^ 64 in
    elim (skip_varint (b ∷ rest)) as (λ _. Option ℕ) [
      | none ↦ some country
      | some [] ↦ if ltb key next then some country else none
      | some (c ∷ behind) ↦ elim (ltb key next) as (λ _. Option ℕ) [
        | true ↦ some country
        | false ↦ walk rounds key next c behind
      ]
    ]

abbrev pub first_country : List ℕ → Option (ℕ × List ℕ)
first_country rest = elim (skip_varint rest) as (λ _. Option (ℕ × List ℕ)) [
  | none ↦ none
  | some [] ↦ none
  | some (c ∷ behind) ↦ some (c, behind)
]

abbrev pub known : ℕ → Option ℕ
known country = if country == 0 then none else some country

unfoldable pub lookup_key : Family → ℕ → Option ℕ
unfolding rows_of row_key row_offset seek skip_varint walk
lookup_key f key = do
  row ← checked_sub (seek (row_key f) key (rows_of f) 0 (rows_of f)) 1
  (country, rest) ← first_country (drop (row_offset f row) f.stream)
  found ← walk (length rest) key (row_key f row) country rest
  known found

-- So many bytes, and the rest.
abbrev pub chunk : ℕ → List ℕ → Option (List ℕ × List ℕ)
chunk n bytes = if leb n (length bytes) then some (take n bytes, drop n bytes) else none

unfoldable pub word : List ℕ → Option (ℕ × List ℕ)
word bytes = do (four, rest) ← chunk 4 bytes; some (le32 four 0, rest)

-- The four bytes behind the shift are not read.
unfoldable pub parse_family : List ℕ → Option (Family × List ℕ)
unfolding word
parse_family bytes = do
  (shift, rest) ← chunk 1 bytes
  (rows, rest) ← word (drop 4 rest)
  (index, rest) ← chunk (rows * index_row) rest
  (size, rest) ← word rest
  (stream, rest) ← chunk size rest
  some (record { shift = byte_at shift 0; index = index; stream = stream }, rest)

pub record Table : Type 0 where
  pub codes : List ℕ
  pub v4 : Family
  pub v6 : Family

unfoldable pub parse_table : List ℕ → Option Table
unfolding parse_family
parse_table blob = do
  (magic, rest) ← chunk 5 blob
  (counted, rest) ← (if text_eq magic (codes "ZGEO1") then chunk 2 rest else none)
  (names, rest) ← chunk ((byte_at counted 0 + byte_at counted 1 * 256) * 2) rest
  (v4, rest) ← parse_family rest
  (v6, rest) ← parse_family rest
  some (record { codes = names; v4 = v4; v6 = v6 })

pub data IpAddr : Type 0 where
  ipv4 : ℕ → ℕ → ℕ → ℕ → IpAddr
  ipv6 : List ℕ → IpAddr

abbrev pub be32 : ℕ → ℕ → ℕ → ℕ → ℕ
be32 a b c d = a * 16777216 + b * 65536 + c * 256 + d

-- `to_ipv4_mapped`: ten zero bytes and two full ones in front.
abbrev pub is_mapped : List ℕ → Bool
is_mapped octets =
    all (λ b. b == 0) (take 10 octets) && (byte_at octets 10 == 255 && byte_at octets 11 == 255)

abbrev pub key_of : Table → IpAddr → ℕ × Family
key_of table (ipv4 a b c d) = (be32 a b c d, table.v4)
key_of table (ipv6 o) =
    if is_mapped o
    then (be32 (byte_at o 12) (byte_at o 13) (byte_at o 14) (byte_at o 15), table.v4)
    else (be32 (byte_at o 0) (byte_at o 1) (byte_at o 2) (byte_at o 3), table.v6)

-- Whether two bytes are valid UTF-8.
abbrev pub is_utf8 : ℕ → ℕ → Bool
is_utf8 a b = (ltb a 128 && ltb b 128) || (leb 0xC2 a && leb a 0xDF && leb 0x80 b && leb b 0xBF)

unfoldable pub country : Table → IpAddr → Option (List ℕ)
unfolding lookup_key
country table addr = do
  let (key, family) = key_of table addr
  at ← lookup_key family (key / 2 ^ family.shift)
  (name, rest) ← chunk 2 (drop ((at - 1) * 2) table.codes)
  if is_utf8 (byte_at name 0) (byte_at name 1) then some name else none
