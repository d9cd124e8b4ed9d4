-- ===== src/Stream/Secret.antt =====
-- The comparison of the secret, which looks at every byte.
use zerem.Prelude.{
  ℕ, ◌<◌, true, &&-true, List, [], ◌∷◌, length, ltb, ◌==◌, ==→eq, ==-self, ◌≡◌, refl, ap, ◌∙◌,
  arith, All, Bool-cases, inl, inr, All-append,
}
use zerem.Prelude.Text.{Text}
use zerem.Prelude.Words.{
  xor_u8, or_u8, xor_u8_self, xor_u8_zero, or_u8_zero, or_u8_bound, xor_u8_bound,
}
use zerem.Stream.{utf8_char, utf8, differs, same}

utf8_char_bytes : (c : ℕ) → c < 1114112 → All (λ b. b < 256) (utf8_char c)
utf8_char_bytes c h = elim (Bool-cases (ltb c 128)) [
  | inl e ↦ rw e ((ground arith), tt)
  | inr e ↦ elim (Bool-cases (ltb c 2048)) [
    | inl e' ↦ rw (e, e') (ground arith, (ground arith, tt))
    | inr e' ↦ elim (Bool-cases (ltb c 65536)) [
      | inl e'' ↦ rw (e, e', e'') (ground arith, (ground arith, (ground arith, tt)))
      | inr e'' ↦ rw (e, e', e'') (ground arith, (ground arith, (ground arith, (ground arith, tt))))
    ]
  ]
]

utf8_bytes : (s : Text) → All (λ c. c < 1114112) s → All (λ b. b < 256) (utf8 s)
unfolding utf8
utf8_bytes [] h = tt
utf8_bytes (c ∷ s) h =
    All-append (λ b. b < 256) (utf8_char c) (utf8 s) (utf8_char_bytes c h.0) (utf8_bytes s h.1)

differs_zero :
    (seen : ℕ) (a b : List ℕ)
    → differs seen a b ≡ 0
    → length a ≡ length b
    → seen < 256
    → All (λ b. b < 256) a
    → All (λ b. b < 256) b
    → (seen ≡ 0) × (a ≡ b)
unfolding differs
differs_zero seen [] [] e l hs ha hb = (e, refl)
differs_zero seen [] (y ∷ b) e l hs ha hb = absurd (omega arith)
differs_zero seen (x ∷ a) [] e l hs ha hb = absurd (omega arith)
differs_zero seen (x ∷ a) (y ∷ b) e l hs ha hb =
    let (none_seen, rest) =
      differs_zero (or_u8 seen (xor_u8 x y)) a b e (omega arith) (or_u8_bound seen (xor_u8 x y))
        ha.1 hb.1 in
    let (before, here) = or_u8_zero seen (xor_u8 x y) none_seen hs (xor_u8_bound x y) in
    (before, cc (xor_u8_zero x y here ha.0 hb.0, rest))

differs_self : (seen : ℕ) (a : List ℕ) → seen ≡ 0 → differs seen a a ≡ 0
unfolding differs or_u8
differs_self seen [] e = e
differs_self seen (x ∷ a) e = differs_self (or_u8 seen (xor_u8 x x)) a (rw (e, xor_u8_self x) refl)

pub same_sound :
    (given key : Text)
    → All (λ c. c < 1114112) given
    → All (λ c. c < 1114112) key
    → same given key ≡ true
    → utf8 given ≡ utf8 key
unfolding same
same_sound given key hg hk h =
    let (sizes, bytes) =
      &&-true (length (utf8 given) == length (utf8 key)) (differs 0 (utf8 given) (utf8 key) == 0)
        h in
    let zero_left = ==→eq (differs 0 (utf8 given) (utf8 key)) 0 bytes in
    let size = ==→eq (length (utf8 given)) (length (utf8 key)) sizes in
    (differs_zero 0 (utf8 given) (utf8 key) zero_left size (omega arith) (utf8_bytes given hg)
      (utf8_bytes key hk)).1

pub same_complete : (given key : Text) → utf8 given ≡ utf8 key → same given key ≡ true
unfolding same
same_complete given key e =
    let zero_left = ap (λ b. differs 0 b (utf8 key)) e ∙ differs_self 0 (utf8 key) refl in
    let size = ap length e in rw (size, zero_left) (rw (==-self (length (utf8 key))) refl)
