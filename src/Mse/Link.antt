-- ===== src/Mse/Link.antt =====
-- crates/zerem-mse/src/handshake.rs: what both ends do their reading and writing with.
pub mod Scanning
pub mod Reading
use zerem.Prelude.{
  ℕ, zero, suc, ◌+◌, ◌*◌, ◌/◌, ◌%◌, Bool, List, [], ◌∷◌, ◌++◌, Option, none, some, length, take,
  drop, ltb, ◌==◌, if◌then◌else◌,
}
use zerem.Prelude.Text.{text_eq}
use zerem.Mse.Rc4.{Rc4, apply}

pub data Failure : Type 0 where
  ended no_sync no_cipher_in_common unknown_torrent absurd_length io no_random : Failure

pub data Outcome (A : Type 0) : Type 0 where
  ok : A → Outcome A
  err : Failure → Outcome A

-- The connection as one end sees it: the bytes that the other end will send before it hangs up, what
-- was sent, whether the next write succeeds, and the answers of the random source, one for each
-- request. A request is for a number of bytes.
pub record Link : Type 0 where
  pub incoming : List ℕ
  pub sent : List ℕ
  pub writable : List ℕ → Bool
  pub draws : List (ℕ → Option (List ℕ))

abbrev pub Act : Type 0 → Type 0
Act A = Link → Outcome A × Link

abbrev pub pure : {A : Type 0} → A → Act A
pure a l = (ok a, l)

abbrev pub fail : {A : Type 0} → Failure → Act A
fail why l = (err why, l)

abbrev pub continue : {A B : Type 0} → (A → Act B) → Outcome A × Link → Outcome B × Link
continue f (ok a, l) = f a l
continue f (err why, l) = (err why, l)

infixl 5 ◌>>=◌ ◌>>◌
unfoldable pub ◌>>=◌ : {A B : Type 0} → Act A → (A → Act B) → Act B
◌>>=◌ m f l = continue f (m l)

abbrev pub ◌>>◌ : {B : Type 0} → Act (Unit {0}) → Act B → Act B
m >> k = m >>= λ _. k

unfoldable pub write : List ℕ → Act (Unit {0})
write bytes l =
    if l.writable l.sent then (ok tt, record l { sent = l.sent ++ bytes }) else (err io, l)

unfoldable pub read : ℕ → Act (List ℕ)
read n l =
    if ltb (length l.incoming) n
    then (err ended, record l { incoming = [] })
    else (ok (take n l.incoming), record l { incoming = drop n l.incoming })

-- `SystemRandom::fill`.
abbrev pub fill_from : ℕ → List (ℕ → Option (List ℕ)) → Link → Outcome (List ℕ) × Link
fill_from n [] l = (err no_random, l)
fill_from n (draw ∷ draws) l = elim (draw n) as (λ _. Outcome (List ℕ) × Link) [
  | none ↦ (err no_random, record l { draws = draws })
  | some bytes ↦ (ok bytes, record l { draws = draws })
]

unfoldable pub fill : ℕ → Act (List ℕ)
fill n l = fill_from n l.draws l

-- `u16::from_be_bytes` and `u32::from_be_bytes`, of as many bytes as there are.
unfoldable pub from_be : ℕ → List ℕ → ℕ
from_be acc [] = acc
from_be acc (b ∷ bytes) = from_be (acc * 256 + b) bytes

abbrev pub be_u16 : ℕ → List ℕ
be_u16 n = (n / 256) % 256 ∷ n % 256 ∷ []

abbrev pub be_u32 : ℕ → List ℕ
be_u32 n = (n / 16777216) % 256 ∷ (n / 65536) % 256 ∷ (n / 256) % 256 ∷ n % 256 ∷ []

abbrev pub max_pad : ℕ
max_pad = 512

unfoldable pub padding : Act (List ℕ)
unfolding from_be ◌>>=◌ fill
padding = do
  pick ← fill 2
  let n = (from_be 0 pick % 65536) % (max_pad + 1)
  if n == 0 then pure [] else fill n

-- The window slides on by one byte once it is as long as the pattern. (The patterns of this file are
-- not empty.)
abbrev pub slide : List ℕ → List ℕ → ℕ → List ℕ
slide pattern window byte =
    (if length window == length pattern then drop 1 window else window) ++ byte ∷ []

-- The loop of `scan`; the recursion is on the incoming bytes, within the allowance that is left.
pub scan_loop : ℕ → List ℕ → List ℕ → List ℕ → Link → Outcome (Unit {0}) × Link
scan_loop zero pattern window incoming l = (err no_sync, record l { incoming = incoming })
scan_loop (suc more) pattern window [] l = (err ended, record l { incoming = [] })
scan_loop (suc more) pattern window (byte ∷ rest) l =
    let going = scan_loop more pattern (slide pattern window byte) rest l in
    if text_eq (slide pattern window byte) pattern
    then (ok tt, record l { incoming = rest })
    else going

unfoldable pub scan : List ℕ → Act (Unit {0})
unfolding scan_loop
scan pattern l = scan_loop (max_pad + length pattern) pattern [] l.incoming l

-- `take` and then `receive.apply`: the bytes in the clear, and the cipher behind them.
unfoldable pub opened : ℕ → Rc4 → Act (List ℕ × Rc4)
unfolding ◌>>=◌ read
opened n receive = do bytes ← read n; let (after, clear) = apply receive bytes; pure (clear, after)
