-- ===== src/Mse/Link/Reading.antt =====
-- The steps of the handshake, where they go well.
use zerem.Prelude.{
  ℕ, ◌<◌, true, false, List, [], ◌∷◌, ◌++◌, length, take, drop, ltb, ◌≡◌, refl, sym, ap, ◌∙◌, arith,
  All, append_assoc, length-append,
}
use zerem.Mse.Rc4.{Rc4, apply}
use zerem.Mse.Rc4.Keystream.{apply_twice, apply-append, length-apply}
use zerem.Mse.Link.{
  ok, Link, Act, pure, continue, ◌>>=◌, write, read, from_be, be_u16, be_u32, opened,
}

-- A step that went well is followed by the rest.
pub then_ok :
    {A B : Type 0} (m : Act A) (f : A → Act B) (l l' : Link) (a : A)
    → m l ≡ (ok a, l')
    → (m >>= f) l ≡ f a l'
unfolding ◌>>=◌
then_ok m f l l' a e = ap (continue f) e

take-append : (xs ys : List ℕ) → take (length xs) (xs ++ ys) ≡ xs
take-append [] ys = refl
take-append (x ∷ xs) ys = ap (λ r. x ∷ r) (take-append xs ys)

pub drop-append : (xs ys : List ℕ) → drop (length xs) (xs ++ ys) ≡ ys
drop-append [] ys = refl
drop-append (x ∷ xs) ys = drop-append xs ys

pub read_lem :
    (l : Link) (bytes rest : List ℕ) (n : ℕ)
    → l.incoming ≡ bytes ++ rest
    → length bytes ≡ n
    → read n l ≡ (ok bytes, record l { incoming = rest })
unfolding read
read_lem l bytes rest n e k =
    let total = ap length e ∙ length-append bytes rest in
    let enough : ltb (length l.incoming) n ≡ false = ground arith in
    let taken : take n l.incoming ≡ bytes =
      ap (take n) e ∙ ap (λ m. take m (bytes ++ rest)) (sym k) ∙ take-append bytes rest in
    let left : drop n l.incoming ≡ rest =
      ap (drop n) e ∙ ap (λ m. drop m (bytes ++ rest)) (sym k) ∙ drop-append bytes rest in
    rw (enough, taken, left) refl

pub write_lem :
    (l : Link) (bytes : List ℕ)
    → l.writable l.sent ≡ true
    → write bytes l ≡ (ok tt, record l { sent = l.sent ++ bytes })
unfolding write
write_lem l bytes e = rw e refl

-- What was sealed under the state that this end is in is read in the clear.
pub opened_last :
    (l : Link) (c : Rc4) (clear rest : List ℕ) (n : ℕ)
    → l.incoming ≡ (apply c clear).1 ++ rest
    → length clear ≡ n
    → All (λ b. b < 256) clear
    → opened n c l ≡ (ok (clear, (apply c clear).0), record l { incoming = rest })
unfolding opened ◌>>=◌
opened_last l c clear rest n e k bytes =
    ap (continue (λ bytes. pure ((apply c bytes).1, (apply c bytes).0)))
      (read_lem l (apply c clear).1 rest n e (length-apply c clear ∙ k))
    ∙ ap (λ r. (ok (r.1, r.0), record l { incoming = rest })) (apply_twice c clear bytes)

-- What was sealed behind it stands next.
pub opened_lem :
    (l : Link) (c : Rc4) (clear later rest : List ℕ) (n : ℕ)
    → l.incoming ≡ (apply c (clear ++ later)).1 ++ rest
    → length clear ≡ n
    → All (λ b. b < 256) clear
    → opened n c l ≡ (
      ok (clear, (apply c clear).0),
      record l { incoming = (apply (apply c clear).0 later).1 ++ rest },
    )
opened_lem l c clear later rest n e k bytes =
    let beyond = (apply (apply c clear).0 later).1 ++ rest in
    opened_last l c clear beyond n
      (e
        ∙ ap (λ x. x ++ rest) (apply-append c clear later)
        ∙ append_assoc (apply c clear).1 (apply (apply c clear).0 later).1 rest)
      k bytes

pub from-be_u16 : (n : ℕ) → n < 65536 → from_be 0 (be_u16 n) ≡ n
unfolding from_be
from-be_u16 n h = omega arith

pub from-be_u32 : (n : ℕ) → n < 4294967296 → from_be 0 (be_u32 n) ≡ n
unfolding from_be
from-be_u32 n h = omega arith

pub be_u16_bytes : (n : ℕ) → All (λ b. b < 256) (be_u16 n)
be_u16_bytes n = (omega arith, (omega arith, tt))
