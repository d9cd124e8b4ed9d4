-- ===== src/Mse/Dh.antt =====
-- crates/zerem-mse/src/dh.rs: the key exchange.
pub mod Agreement
use zerem.Prelude.{
  ℕ, ◌-◌, ◌+◌, ◌≡◌, ◌≤◌, ◌<◌, ◌%◌, ◌^◌, List, [], ◌∷◌, ◌++◌, length, drop, replicate, All,
}

-- What is used of the crate num-bigint.
pub record BigUint : Type 0 where
  pub from_bytes_be : List ℕ → ℕ
  pub to_bytes_be : ℕ → List ℕ
  pub modpow : ℕ → ℕ → ℕ → ℕ

-- What its documentation says of it.
pub record IsBigUint (big : BigUint) : Type 0 where
  pub modpow_lem : (b e m : ℕ) → 0 < m → big.modpow b e m ≡ (b ^ e) % m
  pub from_to : (n : ℕ) → big.from_bytes_be (big.to_bytes_be n) ≡ n
  pub leading_zero : (bytes : List ℕ) → big.from_bytes_be (0 ∷ bytes) ≡ big.from_bytes_be bytes
  pub width_lem : (n k : ℕ) → 0 < k → n < 256 ^ k → length (big.to_bytes_be n) ≤ k

-- The modulus: the 768-bit MODP group, RFC 2409 §6.1.
abbrev pub prime_bytes : List ℕ
prime_bytes =
    255 ∷ 255 ∷ 255 ∷ 255 ∷ 255 ∷ 255 ∷ 255 ∷ 255 ∷ 201 ∷ 15 ∷ 218 ∷ 162 ∷ 33 ∷ 104 ∷ 194 ∷ 52 ∷ 196
    ∷ 198 ∷ 98 ∷ 139 ∷ 128 ∷ 220 ∷ 28 ∷ 209 ∷ 41 ∷ 2 ∷ 78 ∷ 8 ∷ 138 ∷ 103 ∷ 204 ∷ 116 ∷ 2 ∷ 11 ∷ 190
    ∷ 166 ∷ 59 ∷ 19 ∷ 155 ∷ 34 ∷ 81 ∷ 74 ∷ 8 ∷ 121 ∷ 142 ∷ 52 ∷ 4 ∷ 221 ∷ 239 ∷ 149 ∷ 25 ∷ 179 ∷ 205
    ∷ 58 ∷ 67 ∷ 27 ∷ 48 ∷ 43 ∷ 10 ∷ 109 ∷ 242 ∷ 95 ∷ 20 ∷ 55 ∷ 79 ∷ 225 ∷ 53 ∷ 109 ∷ 109 ∷ 81 ∷ 194
    ∷ 69 ∷ 228 ∷ 133 ∷ 181 ∷ 118 ∷ 98 ∷ 94 ∷ 126 ∷ 198 ∷ 244 ∷ 76 ∷ 66 ∷ 233 ∷ 166 ∷ 58 ∷ 54 ∷ 33
    ∷ 0 ∷ 0 ∷ 0 ∷ 0 ∷ 0 ∷ 9 ∷ 5 ∷ 99 ∷ []

abbrev pub width : ℕ
width = 96

pub record Half : Type 0 where
  pub private : ℕ
  pub public : List ℕ

module _ (big : BigUint) where
  abbrev pub prime : ℕ
  prime = big.from_bytes_be prime_bytes

  -- A number as exactly `width` bytes, zeros at the front; of a longer one the last bytes.
  unfoldable pub pad : ℕ → List ℕ
  pad n =
      let bytes = big.to_bytes_be n in
      replicate (width - length bytes) 0 ++ drop (length bytes - width) bytes

  -- `Half::new`, from the twenty bytes that were drawn.
  unfoldable pub new : List ℕ → Half
  unfolding pad
  new bytes =
      let private = big.from_bytes_be bytes in
      record { private = private; public = pad (big.modpow 2 private prime) }

  unfoldable pub secret : Half → List ℕ → List ℕ
  unfolding pad
  secret ours theirs = pad (big.modpow (big.from_bytes_be theirs) ours.private prime)
