-- ===== src/Mse/Link/Scanning.antt =====
-- The scan for a marker behind padding of unknown length.
use zerem.Prelude.{
  ℕ, zero, suc, ◌+◌, ◌-◌, ◌≤◌, ◌<◌, true, false, List, [], ◌∷◌, ◌++◌, length, drop, ◌==◌, ◌≡◌, ◌≢◌,
  refl, sym, ap, ◌∙◌, arith, Bool-cases, inl, inr, length-append, append_assoc,
}
use zerem.Prelude.Text.{text_eq, text_eq→eq, text_eq_self}
use zerem.Mse.Link.{ok, Link, max_pad, slide, scan_loop, scan}
use zerem.Mse.Link.Reading.{drop-append}

-- The last `n` bytes, or all if there are fewer.
abbrev pub last_bytes : ℕ → List ℕ → List ℕ
last_bytes n q = drop (length q - n) q

drop-append_le : (k : ℕ) (q r : List ℕ) → k ≤ length q → drop k (q ++ r) ≡ drop k q ++ r
drop-append_le zero q r h = refl
drop-append_le (suc k) [] r h = absurd (omega arith)
drop-append_le (suc k) (x ∷ q) r h = drop-append_le k q r (omega arith)

length-drop : (k : ℕ) (q : List ℕ) → length (drop k q) ≡ length q - k
length-drop zero q = omega arith
length-drop (suc k) [] = omega arith
length-drop (suc k) (x ∷ q) = let ih = length-drop k q in omega arith

drop_none : (n : ℕ) → drop {A = ℕ} n [] ≡ []
drop_none zero = refl
drop_none (suc n) = refl

drop_more : (j k : ℕ) (q : List ℕ) → drop j (drop k q) ≡ drop (k + j) q
drop_more j zero q = let sum : j ≡ 0 + j = omega arith in ap (λ n. drop n q) sum
drop_more j (suc k) [] = drop_none j ∙ sym (drop_none (suc k + j))
drop_more j (suc k) (x ∷ q) =
    let sum : suc (k + j) ≡ suc k + j = omega arith in
    drop_more j k q ∙ ap (λ n. drop n (x ∷ q)) sum

-- The window is always the last bytes that were read, as many as the pattern has.
slide-last_bytes :
    (pattern q : List ℕ) (b : ℕ)
    → 0 < length pattern
    → slide pattern (last_bytes (length pattern) q) b ≡ last_bytes (length pattern) (q ++ b ∷ [])
slide-last_bytes pattern q b h =
    let n = length pattern in
    let size = length-drop (length q - n) q in
    let grown : length (q ++ b ∷ []) ≡ length q + 1 = length-append q (b ∷ []) in
    elim (Bool-cases (length (last_bytes n q) == n)) [
      | inl full ↦
          let from : length q - n + 1 ≡ length (q ++ b ∷ []) - n = ground arith in
          rw full (
            ap (λ w. w ++ b ∷ []) (drop_more 1 (length q - n) q)
            ∙ sym (drop-append_le (length q - n + 1) q (b ∷ []) (ground arith))
            ∙ ap (λ k. drop k (q ++ b ∷ [])) from)
      | inr short ↦
          let from : length q - n ≡ length (q ++ b ∷ []) - n = ground arith in
          rw short (
            sym (drop-append_le (length q - n) q (b ∷ []) (ground arith))
            ∙ ap (λ k. drop k (q ++ b ∷ [])) from)
    ]

-- No part of the padding, with what follows it, ends in the marker before the marker itself does.
abbrev pub Silent : List ℕ → List ℕ → Type 0
Silent pad pattern =
    (q r : List ℕ) (b : ℕ) → q ++ b ∷ r ≡ pad ++ pattern → last_bytes (length pattern) q ≢ pattern

last_bytes-append : (pad pattern : List ℕ) → last_bytes (length pattern) (pad ++ pattern) ≡ pattern
last_bytes-append pad pattern =
    let total = length-append pad pattern in
    let start : length (pad ++ pattern) - length pattern ≡ length pad = omega arith in
    ap (λ k. drop k (pad ++ pattern)) start ∙ drop-append pad pattern

text_eq-false : (s t : List ℕ) → s ≢ t → text_eq s t ≡ false
text_eq-false s t ne = elim (Bool-cases (text_eq s t)) [
  | inl same ↦ absurd (ne (text_eq→eq s t same))
  | inr e ↦ e
]

scan_loop_finds :
    (more : ℕ) (pad pattern q r rest : List ℕ) (l : Link)
    → 0 < length pattern
    → Silent pad pattern
    → q ++ r ≡ pad ++ pattern
    → 0 < length r
    → length r ≤ more
    → scan_loop more pattern (last_bytes (length pattern) q) (r ++ rest) l
      ≡ (ok tt, record l { incoming = rest })
unfolding scan_loop
scan_loop_finds zero pad pattern q r rest l n silent e some_left room = absurd (omega arith)
scan_loop_finds (suc more) pad pattern q [] rest l n silent e some_left room = absurd (omega arith)
scan_loop_finds (suc more) pad pattern q (b ∷ []) rest l n silent e some_left room =
    let window = slide-last_bytes pattern q b n in
    let found = window ∙ ap (last_bytes (length pattern)) e ∙ last_bytes-append pad pattern in
    let hit : text_eq (slide pattern (last_bytes (length pattern) q) b) pattern ≡ true =
      ap (λ w. text_eq w pattern) found ∙ text_eq_self pattern in
    rw hit refl
scan_loop_finds (suc more) pad pattern q (b ∷ b' ∷ r) rest l n silent e some_left room =
    let read = q ++ b ∷ [] in
    let window = slide-last_bytes pattern q b n in
    let whole : read ++ b' ∷ r ≡ pad ++ pattern = append_assoc q (b ∷ []) (b' ∷ r) ∙ e in
    let miss : text_eq (slide pattern (last_bytes (length pattern) q) b) pattern ≡ false =
      ap (λ w. text_eq w pattern) window
      ∙ text_eq-false (last_bytes (length pattern) read) pattern (silent read r b' whole) in
    let ih =
      scan_loop_finds more pad pattern read (b' ∷ r) rest l n silent whole (omega arith)
        (omega arith) in
    rw miss (ap (λ w. scan_loop more pattern w (b' ∷ r ++ rest) l) window ∙ ih)

from_nothing :
    (pattern incoming : List ℕ) (l : Link)
    → scan_loop (max_pad + length pattern) pattern [] incoming l
      ≡ scan_loop (max_pad + length pattern) pattern (last_bytes (length pattern) []) incoming l
from_nothing pattern incoming l =
    ap (λ w. scan_loop (max_pad + length pattern) pattern w incoming l)
      (sym (drop_none (0 - length pattern)))

-- A marker behind padding that the protocol allows is found, and nothing behind it is taken off the
-- connection, if no earlier byte of the padding completes the same marker.
pub scan_finds :
    (pad pattern rest : List ℕ) (l : Link)
    → 0 < length pattern
    → length pad ≤ max_pad
    → Silent pad pattern
    → l.incoming ≡ pad ++ pattern ++ rest
    → scan pattern l ≡ (ok tt, record l { incoming = rest })
unfolding scan
scan_finds pad pattern rest l n room silent e =
    let total = length-append pad pattern in
    ap (λ bytes. scan_loop (max_pad + length pattern) pattern [] bytes l) e
    ∙ from_nothing pattern (pad ++ pattern ++ rest) l
    ∙ scan_loop_finds (max_pad + length pattern) pad pattern [] (pad ++ pattern) rest l n silent
        refl (omega arith) (omega arith)

scan_loop_sound :
    (more : ℕ) (pattern q incoming : List ℕ) (l l' : Link)
    → 0 < length pattern
    → scan_loop more pattern (last_bytes (length pattern) q) incoming l ≡ (ok tt, l')
    → (r : List ℕ) × (incoming ≡ r ++ l'.incoming)
      × (length r ≤ more)
      × (last_bytes (length pattern) (q ++ r) ≡ pattern)
unfolding scan_loop
scan_loop_sound zero pattern q incoming l l' n h = cc
scan_loop_sound (suc more) pattern q [] l l' n h = cc
scan_loop_sound (suc more) pattern q (b ∷ rest) l l' n h =
    let window = slide-last_bytes pattern q b n in
    elim (Bool-cases (text_eq (slide pattern (last_bytes (length pattern) q) b) pattern)) [
      | inl hit ↦
          let ended_here = rw hit at h in
          (
            b ∷ [],
            ap (λ r. b ∷ (r.1).incoming) ended_here,
            omega arith,
            sym window ∙ text_eq→eq (slide pattern (last_bytes (length pattern) q) b) pattern hit,
          )
      | inr miss ↦
          let on = rw (miss, window) at h in
          let (r, joined, room, found) =
            scan_loop_sound more pattern (q ++ b ∷ []) rest l l' n on in
          (
            b ∷ r,
            ap (λ x. b ∷ x) joined,
            omega arith,
            ap (last_bytes (length pattern)) (sym (append_assoc q (b ∷ []) r)) ∙ found,
          )
    ]

-- A scan that succeeds has taken bytes that end in the marker, and never more than the padding the
-- protocol allows and the marker.
pub scan_sound :
    (pattern : List ℕ) (l l' : Link)
    → 0 < length pattern
    → scan pattern l ≡ (ok tt, l')
    → (r : List ℕ) × (l.incoming ≡ r ++ l'.incoming)
      × (length r ≤ max_pad + length pattern)
      × (last_bytes (length pattern) r ≡ pattern)
unfolding scan
scan_sound pattern l l' n h =
    scan_loop_sound (max_pad + length pattern) pattern [] l.incoming l l' n
      (sym (from_nothing pattern l.incoming l) ∙ h)
