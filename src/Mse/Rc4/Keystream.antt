-- ===== src/Mse/Rc4/Keystream.antt =====
-- The cipher is the exclusive or with a keystream that the data does not touch.
use zerem.Prelude.{
  ℕ, zero, suc, ◌+◌, ◌%◌, ◌<◌, List, [], ◌∷◌, ◌++◌, length, set, range_from, ◌≡◌, refl, ap, ◌∙◌,
  arith, All, length-set,
}
use zerem.Prelude.Words.{xor_u8, xor_u8_twice, xor_u8_bound}
use zerem.Mse.Rc4.{Rc4, entry, swap, mix, keyed, advance, output, apply}

-- The state behind so many bytes.
unfoldable pub after : ℕ → Rc4 → Rc4
after zero c = c
after (suc n) c = after n (advance c)

pub apply-after : (c : Rc4) (buf : List ℕ) → (apply c buf).0 ≡ after (length buf) c
unfolding apply after
apply-after c [] = refl
apply-after c (byte ∷ buf) = apply-after (advance c) buf

pub length-apply : (c : Rc4) (buf : List ℕ) → length (apply c buf).1 ≡ length buf
unfolding apply
length-apply c [] = refl
length-apply c (byte ∷ buf) = ap suc (length-apply (advance c) buf)

-- Two ends whose states agree read each other: what one applies, the other takes off again, and their
-- states agree afterwards.
pub apply_twice :
    (c : Rc4) (buf : List ℕ)
    → All (λ b. b < 256) buf
    → apply c (apply c buf).1 ≡ ((apply c buf).0, buf)
unfolding apply
apply_twice c [] h = refl
apply_twice c (byte ∷ buf) (b, h) =
    let next = advance c in
    let ih = apply_twice next buf h in cc (xor_u8_twice byte (output next) b, ih)

-- Applying to a message in two parts is applying to the whole.
pub apply-append :
    (c : Rc4) (a b : List ℕ) → (apply c (a ++ b)).1 ≡ (apply c a).1 ++ (apply (apply c a).0 b).1
unfolding apply
apply-append c [] b = refl
apply-append c (byte ∷ a) b =
    ap (λ r. xor_u8 byte (output (advance c)) ∷ r) (apply-append (advance c) a b)

pub apply_nothing : (c : Rc4) → (apply c []).1 ≡ []
unfolding apply
apply_nothing c = refl

-- And the state behind both parts is the state behind the whole.
pub state-append : (c : Rc4) (a b : List ℕ) → (apply c (a ++ b)).0 ≡ (apply (apply c a).0 b).0
unfolding apply
state-append c [] b = refl
state-append c (byte ∷ a) b = state-append (advance c) a b

pub after_add : (m n : ℕ) (c : Rc4) → after n (after m c) ≡ after (m + n) c
unfolding after
after_add zero n c = let sum : n ≡ 0 + n = omega arith in ap (λ k. after k c) sum
after_add (suc m) n c =
    let sum : suc (m + n) ≡ suc m + n = omega arith in
    after_add m n (advance c) ∙ ap (λ k. after k c) sum

-- What keeps every index of the code in range.
pub record IsBox (c : Rc4) : Type 0 where
  pub size : length c.s ≡ 256
  pub bytes : All (λ b. b < 256) c.s
  pub i_byte : c.i < 256
  pub j_byte : c.j < 256

entry_byte : (s : List ℕ) (at : ℕ) → All (λ b. b < 256) s → entry s at < 256
entry_byte [] at h = omega arith
entry_byte (b ∷ s) zero h = h.0
entry_byte (b ∷ s) (suc at) h = entry_byte s at h.1

set_bytes :
    (s : List ℕ) (at v : ℕ) → v < 256 → All (λ b. b < 256) s → All (λ b. b < 256) (set s at v)
set_bytes [] at v hv h = tt
set_bytes (b ∷ s) zero v hv h = (hv, h.1)
set_bytes (b ∷ s) (suc at) v hv h = (h.0, set_bytes s at v hv h.1)

swap_bytes : (s : List ℕ) (a b : ℕ) → All (λ b. b < 256) s → All (λ b. b < 256) (swap s a b)
swap_bytes s a b h =
    set_bytes (set s a (entry s b)) b (entry s a) (entry_byte s a h)
      (set_bytes s a (entry s b) (entry_byte s b h) h)

length-swap : (s : List ℕ) (a b : ℕ) → length (swap s a b) ≡ length s
length-swap s a b = length-set (set s a (entry s b)) b (entry s a) ∙ length-set s a (entry s b)

mix_box :
    (key ns : List ℕ) (j : ℕ) (s : List ℕ)
    → length s ≡ 256
    → All (λ b. b < 256) s
    → (length (mix key ns j s) ≡ 256) × All (λ b. b < 256) (mix key ns j s)
unfolding mix
mix_box key [] j s l h = (l, h)
mix_box key (n ∷ ns) j s l h =
    let k = ((j + entry s n) % 256 + entry key (n % length key)) % 256 in
    mix_box key ns k (swap s n k) (length-swap s n k ∙ l) (swap_bytes s n k h)

range_bytes : (n k : ℕ) → n + k < 257 → All (λ b. b < 256) (range_from n k)
range_bytes n zero h = tt
range_bytes n (suc k) h = (omega arith, range_bytes (n + 1) k (omega arith))

-- Keying gives a state in which no index can be out of range, under any key.
pub keyed-IsBox : (key : List ℕ) → IsBox (keyed key)
unfolding keyed
keyed-IsBox key =
    let box =
      mix_box key (range_from 0 256) 0 (range_from 0 256) refl (range_bytes 0 256 (omega arith)) in
    record { size = box.0; bytes = box.1; i_byte = omega arith; j_byte = omega arith }

advance-IsBox : (c : Rc4) → IsBox c → IsBox (advance c)
unfolding advance
advance-IsBox c box =
    let i = (c.i + 1) % 256 in
    let j = (c.j + entry c.s i) % 256 in
    record {
      size = length-swap c.s i j ∙ box.size;
      bytes = swap_bytes c.s i j box.bytes;
      i_byte = omega arith;
      j_byte = omega arith;
    }

-- Applying keeps every index in range, and gives out bytes.
pub apply-IsBox :
    (c : Rc4) (buf : List ℕ) → IsBox c → IsBox (apply c buf).0 × All (λ b. b < 256) (apply c buf).1
unfolding apply
apply-IsBox c [] box = (box, tt)
apply-IsBox c (byte ∷ buf) box =
    let (b, h) = apply-IsBox (advance c) buf (advance-IsBox c box) in
    (b, (xor_u8_bound byte (output (advance c)), h))
