-- ===== src/History.antt =====
-- crates/zerem-core/src/history.rs: the last minute of transfer rates, as a ring, and its sparkline.
pub mod Ring
pub mod Plot
use zerem.Prelude.{
  ℕ, zero, suc, ◌+◌, ◌-◌, ◌*◌, ◌/◌, ◌%◌, ◌^◌, max, Bool, ◌||◌, Option, none, some, List, [], ◌∷◌,
  ◌++◌, get_elem?, get_or, set, replicate, ltb, ◌==◌, if◌then◌else◌, ◌>>=◌,
}
use zerem.Prelude.Text.{Text, codes, decimal}

abbrev pub window : ℕ
window = 60

abbrev pub height : ℕ
height = 100

pub record History : Type 0 where
  pub down : List ℕ
  pub up : List ℕ
  pub next : ℕ
  pub len : ℕ

unfoldable pub default : History
default = record { down = replicate window 0; up = replicate window 0; next = 0; len = 0 }

unfoldable pub push : History → ℕ → ℕ → History
push h down up = record {
  down = set h.down h.next down;
  up = set h.up h.next up;
  next = (h.next + 1) % window;
  len = if ltb h.len window then h.len + 1 else h.len;
}

unfoldable pub clear : History → History
unfolding default
clear h = default

-- `array[slot]`, for a slot in range.
abbrev pub cell : List ℕ → ℕ → ℕ
cell array slot = get_or (get_elem? array slot) 0

abbrev pub sample : History → ℕ → ℕ × ℕ
sample h slot = (cell h.down slot, cell h.up slot)

-- `n` samples from the `i`-th behind `start`.
pub read_slots : History → ℕ → ℕ → ℕ → List (ℕ × ℕ)
read_slots h start i zero = []
read_slots h start i (suc n) = sample h ((start + i) % window) ∷ read_slots h start (i + 1) n

-- Oldest first.
unfoldable pub series : History → List (ℕ × ℕ)
unfolding read_slots
series h = read_slots h ((h.next + window - h.len) % window) 0 h.len

pub record Spark : Type 0 where
  pub down : Text
  pub up : Text

-- The largest of the rates; none where there is no sample.
abbrev pub top : ℕ → List (ℕ × ℕ) → ℕ
top best [] = best
top best ((down, up) ∷ samples) = top (max best (max down up)) samples

abbrev pub scale_of : List (ℕ × ℕ) → Option ℕ
scale_of [] = none
scale_of ((down, up) ∷ samples) = some (top (max down up) samples)

-- `HEIGHT - rate * HEIGHT / scale`, in u64.
unfoldable pub level : ℕ → ℕ → ℕ
level scale rate = (height + 2 ^ 64 - ((rate * height) % 2 ^ 64) / scale) % 2 ^ 64

abbrev pub point : Text → ℕ → ℕ → Text
point command x y = command ++ (codes " " ++ (decimal x ++ (codes " " ++ (decimal y ++ codes " "))))

-- The loop over the samples, the `i`-th of which it meets.
pub draw : ℕ → ℕ → ℕ → List (ℕ × ℕ) → Spark → Spark
unfolding level
draw scale first_x i [] spark = spark
draw scale first_x i ((down, up) ∷ samples) spark =
    let x = first_x + i in
    let command = if i == 0 then codes "M" else codes "L" in
    draw scale first_x (i + 1) samples (record {
      down = spark.down ++ point command x (level scale down);
      up = spark.up ++ point command x (level scale up);
    })

unfoldable pub spark : History → Option Spark
unfolding series draw
spark h = do
  scale ← scale_of (series h)
  let drawn = draw scale (window - h.len) 0 (series h) (record { down = []; up = [] })
  if ltb h.len 2 || scale == 0 then none else some drawn
