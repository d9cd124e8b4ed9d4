-- ===== src/Examples/MseExamples.antt =====
-- Tests of crates/zerem-mse.
use native.Mathlib.Nat.{pow-suc}
use zerem.Prelude.{
  ℕ, zero, suc, ◌+◌, ◌-◌, ◌*◌, ◌/◌, ◌%◌, ◌^◌, ◌<◌, ◌≤◌, true, List, [], ◌∷◌, ◌++◌, some, All,
  length, drop, replicate, ◌==◌, if◌then◌else◌, ◌≡◌, refl, sym, ap, ◌∙◌, arith, length-append,
  Bool-cases, inl, inr,
}
use zerem.Prelude.Text.{codes}
use zerem.Mse.Rc4.{Rc4, keyed, apply, advance, output}
use zerem.Prelude.Words.{xor_u8}
use zerem.Mse.Rc4.Keystream.{apply_twice}
use zerem.Mse.Dh
use zerem.Mse.Dh.{BigUint, IsBigUint, prime, width}
use zerem.Mse.Dh.Agreement.{secret_agrees, length-new}
use zerem.Mse.Link.{ok, from_be, scan, max_pad}
use zerem.Mse.Link.Scanning.{Silent, last_bytes, scan_finds, scan_sound}
use zerem.Mse.Handshake.{Library, IsLibrary, initiate, accept}
use zerem.Mse.Handshake.Sealing.{link, deal}
use zerem.Mse.Handshake.Meeting.{Drawn, IsGood, initiate-accept}

-- The published vector: "Key" and "Plaintext".
vector :
    (apply (keyed (codes "Key")) (codes "Plaintext")).1
    ≡ 187 ∷ 243 ∷ 22 ∷ 232 ∷ 217 ∷ 64 ∷ 175 ∷ 10 ∷ 211 ∷ []
unfolding keyed apply advance output xor_u8
vector = refl

apply_twice_example :
    apply (keyed (codes "Key")) (apply (keyed (codes "Key")) (1 ∷ 255 ∷ [])).1
    ≡ ((apply (keyed (codes "Key")) (1 ∷ 255 ∷ [])).0, 1 ∷ 255 ∷ [])
apply_twice_example =
    apply_twice (keyed (codes "Key")) (1 ∷ 255 ∷ []) (omega arith, (omega arith, tt))

-- Numbers as their big-endian digits; zero is one digit.
to_go : ℕ → ℕ → List ℕ → List ℕ
to_go zero n acc = acc
to_go (suc fuel) n acc =
    let rest = to_go fuel (n / 256) (n % 256 ∷ acc) in if n == 0 then acc else rest

to_bytes : ℕ → List ℕ
unfolding to_go
to_bytes n = if n == 0 then 0 ∷ [] else to_go n n []

abbrev numbers : BigUint
numbers = record {
  from_bytes_be = λ bytes. from_be 0 bytes;
  to_bytes_be = to_bytes;
  modpow = λ b e m. (b ^ e) % m;
}

from_be-to_go :
    (fuel n : ℕ) (acc : List ℕ) → n ≤ fuel → from_be 0 (to_go fuel n acc) ≡ from_be n acc
unfolding to_go from_be
from_be-to_go zero n acc h = let z : 0 ≡ n = omega arith in ap (λ m. from_be m acc) z
from_be-to_go (suc fuel) n acc h = elim (Bool-cases (n == 0)) [
  | inl z ↦ let same : 0 ≡ n = ground arith in rw z (ap (λ m. from_be m acc) same)
  | inr nz ↦
      let digits : n / 256 * 256 + n % 256 ≡ n = omega arith in
      rw nz (
        from_be-to_go fuel (n / 256) (n % 256 ∷ acc) (ground arith)
        ∙ ap (λ m. from_be m acc) digits)
]

length-to_go :
    (fuel n k : ℕ) (acc : List ℕ) → n < 256 ^ k → length (to_go fuel n acc) ≤ k + length acc
unfolding to_go
length-to_go zero n k acc h = omega arith
length-to_go (suc fuel) n zero acc h = let z : (n == 0) ≡ true = ground arith in rw z (omega arith)
length-to_go (suc fuel) n (suc k) acc h = elim (Bool-cases (n == 0)) [
  | inl z ↦ rw z (omega arith)
  | inr nz ↦
      let power = pow-suc 256 k in
      let ih = length-to_go fuel (n / 256) k (n % 256 ∷ acc) (omega arith) in rw nz (omega arith)
]

numbers_width : (n k : ℕ) → 0 < k → n < 256 ^ k → length (to_bytes n) ≤ k
unfolding to_bytes
numbers_width n k h small = elim (Bool-cases (n == 0)) [
  | inl z ↦ rw z (omega arith)
  | inr nz ↦ let fits = length-to_go n n k [] small in rw nz (omega arith)
]

numbers_back : (n : ℕ) → from_be 0 (to_bytes n) ≡ n
unfolding to_bytes from_be
numbers_back n = elim (Bool-cases (n == 0)) [
  | inl z ↦ let same : 0 ≡ n = ground arith in rw z same
  | inr nz ↦ rw nz (from_be-to_go n n [] (omega arith))
]

numbers-IsBigUint : IsBigUint numbers
unfolding from_be
numbers-IsBigUint = record {
  modpow_lem = λ b e m h. refl;
  from_to = numbers_back;
  leading_zero = λ bytes. refl;
  width_lem = numbers_width;
}

prime_positive : 0 < prime numbers
unfolding from_be
prime_positive = omega arith

prime_fits : prime numbers ≤ 256 ^ width
unfolding from_be
prime_fits = omega arith

-- A private value of twenty bytes, small enough to be raised to.
abbrev private_value : ℕ → List ℕ
private_value n = replicate 19 0 ++ n ∷ []

secret_agrees_example :
    Dh.secret numbers (Dh.new numbers (private_value 5)) (Dh.new numbers (private_value 3)).public
    ≡ Dh.secret numbers (Dh.new numbers (private_value 3)) (Dh.new numbers (private_value 5)).public
secret_agrees_example =
    secret_agrees numbers numbers-IsBigUint (private_value 5) (private_value 3) prime_positive
      prime_fits

-- A digest that depends on the length alone.
abbrev toy : Library
toy = record { sha1 = λ bytes. replicate 20 (length bytes % 256); big = numbers }

same_bytes : (n b : ℕ) → b < 256 → All (λ x. x < 256) (replicate n b)
same_bytes zero b h = tt
same_bytes (suc n) b h = (h, same_bytes n b h)

toy-IsLibrary : IsLibrary toy
toy-IsLibrary = record {
  digest_size = λ bytes. refl;
  digest_bytes = λ bytes. same_bytes 20 (length bytes % 256) (omega arith);
}

abbrev drawn : Drawn
drawn = record {
  private_a = private_value 5;
  private_b = private_value 3;
  greeting_a = [];
  greeting_b = [];
  inner_a = 9 ∷ 9 ∷ [];
  inner_b = [];
}

length-drop_le : (n : ℕ) (q : List ℕ) → length (drop n q) ≤ length q
length-drop_le zero q = omega arith
length-drop_le (suc n) [] = omega arith
length-drop_le (suc n) (x ∷ q) = let ih = length-drop_le n q in omega arith

-- Without padding nothing stands before the marker.
length-last_bytes : (n : ℕ) (q : List ℕ) → length (last_bytes n q) ≤ length q
length-last_bytes n q = length-drop_le (length q - n) q

Silent-empty : (pattern : List ℕ) → Silent [] pattern
Silent-empty pattern q r b e same =
    let whole = ap length e in
    let parts = length-append q (b ∷ r) in
    let short = length-last_bytes (length pattern) q in
    let size = ap length same in absurd (omega arith)

abbrev info : List ℕ
info = replicate 20 170

abbrev payload : List ℕ
payload = codes "Bit"

good : IsGood toy drawn info payload
good = record {
  agreed = sym secret_agrees_example;
  wide_a = length-new numbers numbers-IsBigUint (private_value 5) prime_positive prime_fits;
  wide_b = length-new numbers numbers-IsBigUint (private_value 3) prime_positive prime_fits;
  short_a = omega arith;
  short_b = omega arith;
  inner_short_a = omega arith;
  inner_short_b = omega arith;
  inner_bytes_a = (omega arith, (omega arith, tt));
  inner_bytes_b = tt;
  silent_a = Silent-empty _;
  silent_b = Silent-empty _;
  payload = omega arith;
  payload_bytes = (omega arith, (omega arith, (omega arith, tt)));
}

initiate-accept_example :
    (said_a said_b : List ℕ) × (sending receiving : Rc4) × (initiate toy info payload
        (link said_b [] ((λ _. some (private_value 5)) ∷ deal [] (deal (9 ∷ 9 ∷ []) [])))
      ≡ (
        ok (record { info_hash = info; outgoing = some sending; incoming = some receiving }),
        link [] said_a [],
      ))
    × (accept toy
          (info ∷ [])
          (link said_a [] ((λ _. some (private_value 3)) ∷ deal [] (deal [] [])))
        ≡ (
          ok (
            record { info_hash = info; outgoing = some receiving; incoming = some sending },
            payload,
          ),
          link [] said_b [],
        ))
initiate-accept_example = initiate-accept toy drawn info payload (info ∷ []) toy-IsLibrary good refl

Silent-pad : Silent (5 ∷ []) (1 ∷ 2 ∷ [])
Silent-pad [] r b e same = cc
Silent-pad (x ∷ []) r b e same = cc
Silent-pad (x ∷ y ∷ []) r b e same = let first : x ≡ 5 = cc in cc
Silent-pad (x ∷ y ∷ z ∷ q) r b e same =
    let whole = ap length e in let parts = length-append q (b ∷ r) in absurd (omega arith)

scan_finds_example :
    scan (1 ∷ 2 ∷ []) (link (5 ∷ 1 ∷ 2 ∷ 7 ∷ []) [] []) ≡ (ok tt, link (7 ∷ []) [] [])
scan_finds_example =
    scan_finds (5 ∷ []) (1 ∷ 2 ∷ []) (7 ∷ []) (link (5 ∷ 1 ∷ 2 ∷ 7 ∷ []) [] []) (omega arith)
      (omega arith) Silent-pad refl

scan_found : scan (1 ∷ 2 ∷ []) (link (5 ∷ 1 ∷ 2 ∷ 7 ∷ []) [] []) ≡ (ok tt, link (7 ∷ []) [] [])
unfolding scan
scan_found = refl

scan_sound_example :
    (r : List ℕ) × (5 ∷ 1 ∷ 2 ∷ 7 ∷ [] ≡ r ++ 7 ∷ [])
    × (length r ≤ max_pad + 2)
    × (last_bytes 2 r ≡ 1 ∷ 2 ∷ [])
scan_sound_example =
    scan_sound (1 ∷ 2 ∷ []) (link (5 ∷ 1 ∷ 2 ∷ 7 ∷ []) [] []) (link (7 ∷ []) [] []) (omega arith)
      scan_found
