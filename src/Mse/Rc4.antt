-- ===== src/Mse/Rc4.antt =====
-- crates/zerem-mse/src/rc4.rs: the stream cipher. A byte is a number below 256.
pub mod Keystream
pub mod Discarding
use zerem.Prelude.{
  ℕ, zero, suc, ◌+◌, ◌-◌, ◌%◌, min, Option, none, some, List, [], ◌∷◌, length, get_elem?, get_or,
  set, replicate, range_from, take, drop, ◌++◌,
}
use zerem.Prelude.Words.{xor_u8}

-- One direction of a stream.
pub record Rc4 : Type 0 where
  pub s : List ℕ
  pub i : ℕ
  pub j : ℕ

-- `s[at]`; the indices are bytes, and there are 256 entries.
abbrev pub entry : List ℕ → ℕ → ℕ
entry s at = get_or (get_elem? s at) 0

abbrev pub swap : List ℕ → ℕ → ℕ → List ℕ
swap s a b = set (set s a (entry s b)) b (entry s a)

-- The second loop of `Rc4::new`, over the numbers `n` still to come.
pub mix : List ℕ → List ℕ → ℕ → List ℕ → List ℕ
mix key [] j s = s
mix key (n ∷ rest) j s =
    let j = ((j + entry s n) % 256 + entry key (n % length key)) % 256 in
    mix key rest j (swap s n j)

-- The cipher under a key that is not empty.
unfoldable pub keyed : List ℕ → Rc4
unfolding mix
keyed key = record { s = mix key (range_from 0 256) 0 (range_from 0 256); i = 0; j = 0 }

-- `Rc4::new`: the remainder by the length of an empty key panics.
unfoldable pub new : List ℕ → Option Rc4
new [] = none
new (k ∷ key) = some (keyed (k ∷ key))

-- What the loop of `apply` does to the state for one byte, and the byte of keystream that it gives.
unfoldable pub advance : Rc4 → Rc4
advance c =
    let i = (c.i + 1) % 256 in
    let j = (c.j + entry c.s i) % 256 in record { s = swap c.s i j; i = i; j = j }

unfoldable pub output : Rc4 → ℕ
output c = entry c.s ((entry c.s c.i + entry c.s c.j) % 256)

unfoldable pub apply : Rc4 → List ℕ → Rc4 × List ℕ
apply c [] = (c, [])
apply c (byte ∷ buf) =
    let next = advance c in
    let (after, rest) = apply next buf in (after, xor_u8 byte (output next) ∷ rest)

-- The loop of `discard`, of at most `fuel` rounds. What comes out of the buffer goes into it again: it
-- is never cleared, and nothing reads it.
pub discard_loop : ℕ → List ℕ → ℕ → Rc4 → Rc4
discard_loop zero sink left c = c
discard_loop (suc fuel) sink zero c = c
discard_loop (suc fuel) sink (suc left) c =
    let step = min (suc left) 64 in
    let (after, rest) = apply c (take step sink) in
    discard_loop fuel (rest ++ drop step sink) (suc left - step) after

unfoldable pub discard : ℕ → Rc4 → Rc4
unfolding discard_loop
discard n c = discard_loop n (replicate 64 0) n c
