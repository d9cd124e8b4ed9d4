-- ===== src/Content/Majority.antt =====
-- When a kind of content is the answer.
use zerem.Prelude.{
  ℕ, zero, suc, ◌+◌, ◌-◌, ◌*◌, ◌≤◌, ◌<◌, Option, none, some, List, [], ◌∷◌, ◌==◌, if◌then◌else◌,
  get_elem?, set, get_or, length, sum, replicate, map, ◌≡◌, refl, arith,
}
use zerem.Prelude.Words.{u64_max, saturating_add}
use zerem.Content.{Content, mixed, named, Sized, slot_of, hold, tally, judge, of_files}

abbrev pub at : List ℕ → ℕ → ℕ
at held k = get_or (get_elem? held k) 0

abbrev pub total_len : List Sized → ℕ
total_len files = sum (map (λ f. f.len) files)

-- What a file adds to the bytes of a kind.
abbrev pub share : Option ℕ → ℕ → ℕ → ℕ
share none k len = 0
share (some slot) k len = if slot == k then len else 0

-- The bytes of all files whose extension is of a kind.
abbrev pub bytes_in : ℕ → List Sized → ℕ
bytes_in k [] = 0
bytes_in k (f ∷ files) = share (slot_of f.path) k f.len + bytes_in k files

at-le-sum : (held : List ℕ) (k : ℕ) → at held k ≤ sum held
at-le-sum [] k = omega arith
at-le-sum (x ∷ held) zero = omega arith
at-le-sum (x ∷ held) (suc k) = omega (arith, at-le-sum held k)

at-set :
    (held : List ℕ) (i k v : ℕ)
    → k < length held
    → at (set held i v) k ≡ (if i == k then v else at held k)
at-set [] i k v h = elim h [ ]
at-set (x ∷ held) zero zero v h = refl
at-set (x ∷ held) zero (suc k) v h = ground arith
at-set (x ∷ held) (suc i) zero v h = ground arith
at-set (x ∷ held) (suc i) (suc k) v h = ground (arith, at-set held i k v)

sum-set : (held : List ℕ) (i v : ℕ) → sum (set held i v) ≤ (sum held + v) - at held i
sum-set [] i v = omega arith
sum-set (x ∷ held) zero v = omega arith
sum-set (x ∷ held) (suc i) v = omega (arith, sum-set held i v, at-le-sum held i)

length-set_lem : (held : List ℕ) (i v : ℕ) → length (set held i v) ≡ length held
length-set_lem [] i v = refl
length-set_lem (x ∷ held) zero v = refl
length-set_lem (x ∷ held) (suc i) v = omega (arith, length-set_lem held i v)

record Fits (held : List ℕ) (total : ℕ) : Type 0 where
  below : sum held ≤ total
  six : length held ≡ 6

hold-Fits :
    (held : List ℕ) (slot : Option ℕ) (len total : ℕ)
    → Fits held total
    → total + len ≤ u64_max
    → Fits (hold held slot len) (total + len)
unfolding hold
hold-Fits held none len total f h = record { below = omega arith; six = f.six }
hold-Fits held (some k) len total f h = record {
  below =
      omega
        (arith, f.below, at-le-sum held k, sum-set held k (saturating_add u64_max (at held k) len));
  six = omega (arith, f.six, length-set_lem held k (saturating_add u64_max (at held k) len));
}

at-hold :
    (held : List ℕ) (slot : Option ℕ) (len total k : ℕ)
    → Fits held total
    → total + len ≤ u64_max
    → k < 6
    → at (hold held slot len) k ≡ at held k + share slot k len
unfolding hold
at-hold held none len total k f h lt = omega arith
at-hold held (some i) len total k f h lt =
    ground (arith, at-set held i k (saturating_add u64_max (at held i) len), at-le-sum held i)

-- What the loop computes where nothing saturates.
record Tallies (held : List ℕ) (total : ℕ) (files : List Sized) (r : List ℕ × ℕ) : Type 0 where
  fits : Fits r.0 r.1
  exact : r.1 ≡ total + total_len files
  each : (k : ℕ) → k < 6 → at r.0 k ≡ at held k + bytes_in k files

saturate : (a b : ℕ) → a + b ≤ u64_max → saturating_add u64_max a b ≡ a + b
saturate a b le = omega arith

Tallies-cons :
    (held : List ℕ) (total : ℕ) (g : Sized) (files : List Sized) {r : List ℕ × ℕ}
    → Fits held total
    → total + g.len ≤ u64_max
    → Tallies (hold held (slot_of g.path) g.len) (total + g.len) files r
    → Tallies held total (g ∷ files) r
Tallies-cons held total g files f h rest = record {
  fits = rest.fits;
  exact = omega (arith, rest.exact);
  each = λ k lt. omega (arith, rest.each k lt, at-hold held (slot_of g.path) g.len total k f h lt);
}

tally-Tallies :
    (held : List ℕ) (total : ℕ) (files : List Sized)
    → Fits held total
    → total + total_len files ≤ u64_max
    → Tallies held total files (tally held total files)
unfolding tally
tally-Tallies held total [] f h = record {
  fits = f;
  exact = omega arith;
  each = λ k lt. omega arith;
}
tally-Tallies held total (g ∷ files) f h =
    let fits = hold-Fits held (slot_of g.path) g.len total f (omega arith) in
    rw (saturate total g.len (omega arith)) (
      Tallies-cons held total g files f (omega arith)
        (tally-Tallies (hold held (slot_of g.path) g.len) (total + g.len) files fits (omega arith)))

-- The answer by six tallies.
judge_six :
    (a b c d e f total : ℕ) (k : ℕ) {kind : Content}
    → a + b + c + d + e + f ≤ total
    → get_elem? named k ≡ some kind
    → 0 < total
    → total * 2 ≤ at (a ∷ b ∷ c ∷ d ∷ e ∷ f ∷ []) k * 3
    → judge (a ∷ b ∷ c ∷ d ∷ e ∷ f ∷ []) total ≡ kind
unfolding judge
judge_six a b c d e f total zero h k pos big = ground arith
judge_six a b c d e f total (suc zero) h k pos big = ground arith
judge_six a b c d e f total (suc (suc zero)) h k pos big = ground arith
judge_six a b c d e f total (suc (suc (suc zero))) h k pos big = ground arith
judge_six a b c d e f total (suc (suc (suc (suc zero)))) h k pos big = ground arith
judge_six a b c d e f total (suc (suc (suc (suc (suc zero))))) h k pos big = ground arith
judge_six a b c d e f total (suc (suc (suc (suc (suc (suc k')))))) h k pos big = cc

judge_mixed :
    (a b c d e f total : ℕ)
    → 0 < total
    → ((k : ℕ) → k < 6 → at (a ∷ b ∷ c ∷ d ∷ e ∷ f ∷ []) k * 3 < total * 2)
    → judge (a ∷ b ∷ c ∷ d ∷ e ∷ f ∷ []) total ≡ mixed
unfolding judge
judge_mixed a b c d e f total pos small = ground (
  arith,
  small 0 (omega arith),
  small 1 (omega arith),
  small 2 (omega arith),
  small 3 (omega arith),
  small 4 (omega arith),
  small 5 (omega arith),
)

-- A list of six, taken apart.
six_cases {ℓ} :
    (P : List ℕ → Type ℓ)
    → ((a b c d e f : ℕ) → P (a ∷ b ∷ c ∷ d ∷ e ∷ f ∷ []))
    → (held : List ℕ) → length held ≡ 6
    → P held
six_cases P h (a ∷ b ∷ c ∷ d ∷ e ∷ f ∷ []) n = h a b c d e f
six_cases P h [] n = absurd (omega arith)
six_cases P h (a ∷ []) n = absurd (omega arith)
six_cases P h (a ∷ b ∷ []) n = absurd (omega arith)
six_cases P h (a ∷ b ∷ c ∷ []) n = absurd (omega arith)
six_cases P h (a ∷ b ∷ c ∷ d ∷ []) n = absurd (omega arith)
six_cases P h (a ∷ b ∷ c ∷ d ∷ e ∷ []) n = absurd (omega arith)
six_cases P h (a ∷ b ∷ c ∷ d ∷ e ∷ f ∷ g ∷ r) n = absurd (omega arith)

tallied :
    (files : List Sized)
    → total_len files ≤ u64_max
    → Tallies (replicate 6 0) 0 files (tally (replicate 6 0) 0 files)
tallied files h =
    tally-Tallies (replicate 6 0) 0 files (record { below = omega arith; six = omega arith })
      (omega arith)

named-lt : (k : ℕ) {kind : Content} → get_elem? named k ≡ some kind → k < 6
named-lt zero h = omega arith
named-lt (suc zero) h = omega arith
named-lt (suc (suc zero)) h = omega arith
named-lt (suc (suc (suc zero))) h = omega arith
named-lt (suc (suc (suc (suc zero)))) h = omega arith
named-lt (suc (suc (suc (suc (suc zero))))) h = omega arith
named-lt (suc (suc (suc (suc (suc (suc k)))))) h = cc

at_zero : (k : ℕ) → k < 6 → at (replicate 6 0) k ≡ 0
at_zero zero h = refl
at_zero (suc zero) h = refl
at_zero (suc (suc zero)) h = refl
at_zero (suc (suc (suc zero))) h = refl
at_zero (suc (suc (suc (suc zero)))) h = refl
at_zero (suc (suc (suc (suc (suc zero))))) h = refl
at_zero (suc (suc (suc (suc (suc (suc k)))))) h = absurd (omega arith)

-- A kind that holds two thirds of the bytes, of more than none and no more than fit in 64 bits, is the
-- answer.
pub of_files-kind :
    (files : List Sized) (k : ℕ) {kind : Content}
    → total_len files ≤ u64_max
    → get_elem? named k ≡ some kind
    → 0 < total_len files
    → total_len files * 2 ≤ bytes_in k files * 3
    → of_files files ≡ kind
unfolding of_files
of_files-kind files k {kind} fits h pos big =
    let (held, total) = tally (replicate 6 0) 0 files in
    let t = tallied files fits in
    let lt = named-lt k h in
    six_cases (λ held'. sum held' ≤ total → total * 2 ≤ at held' k * 3 → judge held' total ≡ kind)
      (λ a b c d e f le two.
        judge_six a b c d e f total k (omega arith) h (omega (arith, t.exact)) two)
      held t.fits.six t.fits.below (omega (arith, t.exact, t.each k lt, at_zero k lt))

-- Where no kind holds two thirds of the bytes, of more than none and no more than fit in 64 bits, the
-- answer is a mix.
pub of_files-mixed :
    (files : List Sized)
    → total_len files ≤ u64_max
    → 0 < total_len files
    → ((k : ℕ) → k < 6 → bytes_in k files * 3 < total_len files * 2)
    → of_files files ≡ mixed
unfolding of_files
of_files-mixed files fits pos small =
    let (held, total) = tally (replicate 6 0) 0 files in
    let t = tallied files fits in
    six_cases (λ held'. ((k : ℕ) → k < 6 → at held' k * 3 < total * 2) → judge held' total ≡ mixed)
      (λ a b c d e f le. judge_mixed a b c d e f total (omega (arith, t.exact)) le) held t.fits.six
      (λ k lt. omega (arith, small k lt, t.exact, t.each k lt, at_zero k lt))
