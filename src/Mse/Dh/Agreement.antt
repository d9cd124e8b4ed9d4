-- ===== src/Mse/Dh/Agreement.antt =====
-- Both ends of the key exchange arrive at the same secret, of a fixed width.
use native.Mathlib.Nat.{pow-zero, pow-suc, add-mul-mod_self_left, mod-lt, mod-add-div, mul_comm}
use zerem.Prelude.{
  ℕ, zero, suc, ◌+◌, ◌-◌, ◌*◌, ◌/◌, ◌%◌, ◌^◌, ◌<◌, ◌≤◌, List, ◌++◌, length, drop, replicate, ◌≡◌,
  refl, sym, ap, ◌∙◌, arith, length-append, length-replicate,
}
use zerem.Mse.Dh.{BigUint, IsBigUint, width, prime, pad, new, secret}

mul_swap : (x y z : ℕ) → x * y * z ≡ x * z * y
mul_swap x y z = grind arith

pow_add : (g a b : ℕ) → g ^ (a + b) ≡ g ^ a * g ^ b
pow_add g zero b =
    let left : 0 + b ≡ b = omega arith in let one = pow-zero g in ap (λ n. g ^ n) left ∙ grind arith
pow_add g (suc a) b =
    let left : suc a + b ≡ suc (a + b) = omega arith in
    let ih = pow_add g a b in
    ap (λ n. g ^ n) left
    ∙ pow-suc g (a + b)
    ∙ ap (λ x. x * g) ih
    ∙ mul_swap (g ^ a) (g ^ b) g
    ∙ ap (λ x. x * g ^ b) (sym (pow-suc g a))

pow_twice : (g a b : ℕ) → (g ^ a) ^ b ≡ g ^ (a * b)
pow_twice g a zero =
    let none_left : 0 ≡ a * 0 = omega arith in
    pow-zero (g ^ a) ∙ sym (pow-zero g) ∙ ap (λ n. g ^ n) none_left
pow_twice g a (suc b) =
    let more : a * b + a ≡ a * suc b = grind arith in
    pow-suc (g ^ a) b
    ∙ ap (λ x. x * g ^ a) (pow_twice g a b)
    ∙ sym (pow_add g (a * b) a)
    ∙ ap (λ n. g ^ n) more

pow_swap : (g a b : ℕ) → (g ^ a) ^ b ≡ (g ^ b) ^ a
pow_swap g a b = pow_twice g a b ∙ ap (λ n. g ^ n) (mul_comm a b) ∙ sym (pow_twice g b a)

mul_mod : (a b p : ℕ) → ((a % p) * b) % p ≡ (a * b) % p
mul_mod a b p =
    let parts = mod-add-div a p in
    let spread : (a % p + p * (a / p)) * b ≡ (a % p) * b + p * ((a / p) * b) = grind arith in
    sym (add-mul-mod_self_left ((a % p) * b) p ((a / p) * b))
    ∙ ap (λ n. n % p) (sym spread)
    ∙ ap (λ n. (n * b) % p) parts

pow_mod : (x n p : ℕ) → ((x % p) ^ n) % p ≡ (x ^ n) % p
pow_mod x zero p = ap (λ n. n % p) (pow-zero (x % p) ∙ sym (pow-zero x))
pow_mod x (suc n) p =
    ap (λ n. n % p) (pow-suc (x % p) n)
    ∙ sym (mul_mod ((x % p) ^ n) (x % p) p)
    ∙ ap (λ y. (y * (x % p)) % p) (pow_mod x n p)
    ∙ mul_mod (x ^ n) (x % p) p
    ∙ ap (λ n. n % p) (mul_comm (x ^ n) (x % p))
    ∙ mul_mod x (x ^ n) p
    ∙ ap (λ n. n % p) (mul_comm x (x ^ n) ∙ sym (pow-suc x n))

module _ (big : BigUint) (lib : IsBigUint big) where
  from_zeros :
      (n : ℕ) (bytes : List ℕ)
      → big.from_bytes_be (replicate n 0 ++ bytes) ≡ big.from_bytes_be bytes
  from_zeros zero bytes = refl
  from_zeros (suc n) bytes = lib.leading_zero (replicate n 0 ++ bytes) ∙ from_zeros n bytes

  drop_none : (bytes : List ℕ) (n : ℕ) → n ≡ 0 → drop n bytes ≡ bytes
  drop_none bytes n e = rw e refl

  pad_fits :
      (n : ℕ)
      → n < 256 ^ width
      → pad big n ≡ replicate (width - length (big.to_bytes_be n)) 0 ++ big.to_bytes_be n
  unfolding pad
  pad_fits n h =
      let short = lib.width_lem n width (omega arith) h in
      ap (λ bytes. replicate (width - length (big.to_bytes_be n)) 0 ++ bytes)
        (drop_none (big.to_bytes_be n) (length (big.to_bytes_be n) - width) (omega arith))

  -- What is padded is read back as the same number.
  pub from-pad : (n : ℕ) → n < 256 ^ width → big.from_bytes_be (pad big n) ≡ n
  from-pad n h =
      ap big.from_bytes_be (pad_fits n h)
      ∙ from_zeros (width - length (big.to_bytes_be n)) (big.to_bytes_be n)
      ∙ lib.from_to n

  -- A number is always padded to exactly `width` bytes, however many leading zeros it has.
  pub length-pad : (n : ℕ) → n < 256 ^ width → length (pad big n) ≡ width
  length-pad n h =
      let short = lib.width_lem n width (omega arith) h in
      let joined =
        length-append (replicate (width - length (big.to_bytes_be n)) 0) (big.to_bytes_be n) in
      let zeros : length {A = ℕ} (replicate (width - length (big.to_bytes_be n)) 0)
          ≡ width - length (big.to_bytes_be n) =
        length-replicate {A = ℕ} (width - length (big.to_bytes_be n)) 0 in
      ap length (pad_fits n h) ∙ (omega arith)

  public_value :
      (bytes : List ℕ)
      → 0 < prime big
      → prime big ≤ 256 ^ width
      → big.from_bytes_be (new big bytes).public ≡ (2 ^ (new big bytes).private) % prime big
  unfolding new
  public_value bytes positive fits =
      let private = big.from_bytes_be bytes in
      let value = lib.modpow_lem 2 private (prime big) positive in
      let small = mod-lt (2 ^ private) positive in
      from-pad (big.modpow 2 private (prime big)) (rw value (omega arith)) ∙ value

  -- What is put on the wire always has exactly `width` bytes.
  pub length-new :
      (bytes : List ℕ)
      → 0 < prime big
      → prime big ≤ 256 ^ width
      → length (new big bytes).public ≡ width
  unfolding new
  length-new bytes positive fits =
      let private = big.from_bytes_be bytes in
      let value = lib.modpow_lem 2 private (prime big) positive in
      let small = mod-lt (2 ^ private) positive in
      length-pad (big.modpow 2 private (prime big)) (rw value (omega arith))

  secret_value :
      (ours theirs : List ℕ)
      → 0 < prime big
      → prime big ≤ 256 ^ width
      → secret big (new big ours) (new big theirs).public
        ≡ pad big (((2 ^ big.from_bytes_be theirs) ^ big.from_bytes_be ours) % prime big)
  unfolding secret new
  secret_value ours theirs positive fits =
      let a = big.from_bytes_be ours in
      let b = big.from_bytes_be theirs in
      let value =
        lib.modpow_lem (big.from_bytes_be (new big theirs).public) a (prime big) positive in
      let public = public_value theirs positive fits in
      ap (pad big) (value ∙ ap (λ n. (n ^ a) % prime big) public ∙ pow_mod (2 ^ b) a (prime big))

  -- Both ends arrive at the same secret, whatever bytes they drew: for a library of big numbers that does
  -- what its documentation says, and a modulus that is positive and fits the width.
  pub secret_agrees :
      (ours theirs : List ℕ)
      → 0 < prime big
      → prime big ≤ 256 ^ width
      → secret big (new big ours) (new big theirs).public
        ≡ secret big (new big theirs) (new big ours).public
  secret_agrees ours theirs positive fits =
      secret_value ours theirs positive fits
      ∙ ap (λ n. pad big (n % prime big))
          (pow_swap 2 (big.from_bytes_be theirs) (big.from_bytes_be ours))
      ∙ sym (secret_value theirs ours positive fits)
