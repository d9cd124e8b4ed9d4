-- ===== src/History/Ring.antt =====
-- The ring against the list of what was pushed.
use zerem.Prelude.{
  ℕ, zero, suc, ◌+◌, ◌-◌, ◌%◌, ◌≤◌, ◌<◌, ◌≡◌, refl, sym, ap, ◌∙◌, arith, Bool-cases, inl, inr, List,
  [], ◌∷◌, ◌++◌, drop, length, length-set, get_elem?-set, get_elem?-set_other, ltb, if◌then◌else◌,
  ◌≢◌, append_assoc, append-nil, length-append,
}
use zerem.History.{History, window, default, push, clear, sample, read_slots, series}

-- What the ring keeps: two full arrays, a cursor inside them, and at most a window of samples.
pub record IsRing (h : History) : Type 0 where
  pub down_full : length h.down ≡ window
  pub up_full : length h.up ≡ window
  pub next_in : h.next < window
  pub len_in : h.len ≤ window

pub default-IsRing : IsRing default
unfolding default
default-IsRing = record {
  down_full = refl;
  up_full = refl;
  next_in = omega arith;
  len_in = omega arith;
}

pub push-IsRing : (h : History) (down up : ℕ) → IsRing h → IsRing (push h down up)
unfolding push
push-IsRing h down up r = record {
  down_full = omega (arith, r.down_full, length-set h.down h.next down);
  up_full = omega (arith, r.up_full, length-set h.up h.next up);
  next_in = omega arith;
  len_in = ground (arith, r.len_in);
}

read_slots-shift :
    (h : History) (start i n : ℕ)
    → read_slots h ((start + 1) % window) i n ≡ read_slots h start (i + 1) n
unfolding read_slots
read_slots-shift h start i zero = refl
read_slots-shift h start i (suc n) =
    let e : ((start + 1) % window + i) % window ≡ (start + (i + 1)) % window = omega arith in
    cc (e, read_slots-shift h start (i + 1) n)

read_slots_snoc :
    (h : History) (start i n : ℕ)
    → read_slots h start i (suc n)
      ≡ read_slots h start i n ++ sample h ((start + (i + n)) % window) ∷ []
unfolding read_slots
read_slots_snoc h start i zero = let e : i + 0 ≡ i = omega arith in rw e refl
read_slots_snoc h start i (suc n) =
    let e : i + 1 + n ≡ i + suc n = omega arith in cc (e, read_slots_snoc h start (i + 1) n)

sample-push_other :
    (h : History) (down up slot : ℕ) → h.next ≢ slot → sample (push h down up) slot ≡ sample h slot
unfolding push
sample-push_other h down up slot ne =
    cc (get_elem?-set_other h.down h.next slot down ne, get_elem?-set_other h.up h.next slot up ne)

sample-push : (h : History) (down up : ℕ) → IsRing h → sample (push h down up) h.next ≡ (down, up)
unfolding push
sample-push h down up r = cc (
  get_elem?-set h.down h.next down (omega (arith, r.down_full, r.next_in)),
  get_elem?-set h.up h.next up (omega (arith, r.up_full, r.next_in)),
)

read_slots-push :
    (h : History) (down up start i n : ℕ)
    → ((k : ℕ) → i ≤ k → k < i + n → h.next ≢ (start + k) % window)
    → read_slots (push h down up) start i n ≡ read_slots h start i n
unfolding read_slots
read_slots-push h down up start i zero ne = refl
read_slots-push h down up start i (suc n) ne = cc (
  sample-push_other h down up ((start + i) % window) (ne i (omega arith) (omega arith)),
  read_slots-push h down up start (i + 1) n (λ k a b. ne k (omega arith) (omega arith)),
)

length-read_slots : (h : History) (start i n : ℕ) → length (read_slots h start i n) ≡ n
unfolding read_slots
length-read_slots h start i zero = refl
length-read_slots h start i (suc n) = omega (arith, length-read_slots h start (i + 1) n)

-- The samples that a window has room for: the last sixty.
abbrev pub recent : List (ℕ × ℕ) → List (ℕ × ℕ)
recent samples = drop (length samples - window) samples

drop-append : (n : ℕ) (xs ys : List (ℕ × ℕ)) → n ≤ length xs → drop n (xs ++ ys) ≡ drop n xs ++ ys
drop-append zero xs ys h = refl
drop-append (suc n) [] ys h = absurd (omega arith)
drop-append (suc n) (x ∷ xs) ys h = drop-append n xs ys (omega arith)

drop-drop : (n m : ℕ) (xs : List (ℕ × ℕ)) → drop n (drop m xs) ≡ drop (m + n) xs
drop-drop n zero xs = let e : 0 + n ≡ n = omega arith in rw e refl
drop-drop zero (suc m) [] = let e : suc m + 0 ≡ suc (m + 0) = omega arith in rw e refl
drop-drop (suc n) (suc m) [] = let e : suc m + suc n ≡ suc (m + suc n) = omega arith in rw e refl
drop-drop n (suc m) (x ∷ xs) =
    let e : suc m + n ≡ suc (m + n) = omega arith in rw e (drop-drop n m xs)

length-drop : (n : ℕ) (xs : List (ℕ × ℕ)) → length (drop n xs) ≡ length xs - n
length-drop zero xs = omega arith
length-drop (suc n) [] = omega arith
length-drop (suc n) (x ∷ xs) = omega (arith, length-drop n xs)

recent-append : (xs ys : List (ℕ × ℕ)) → recent (recent xs ++ ys) ≡ recent (xs ++ ys)
recent-append xs ys =
    let k = length xs - window in
    let inner : drop k xs ++ ys ≡ drop k (xs ++ ys) = sym (drop-append k xs ys (omega arith)) in
    let e : k + (length (drop k (xs ++ ys)) - window) ≡ length (xs ++ ys) - window =
      omega (arith, length-drop k (xs ++ ys), length-append xs ys) in
    rw inner
      (drop-drop (length (drop k (xs ++ ys)) - window) k (xs ++ ys) ∙ ap (λ n. drop n (xs ++ ys)) e)

start_of : History → ℕ
start_of h = (h.next + window - h.len) % window

series_lem : (h : History) → series h ≡ read_slots h (start_of h) 0 h.len
unfolding series start_of
series_lem h = refl

start_of_room :
    (h : History) → IsRing h → h.len < window → (start_of h + (0 + h.len)) % window ≡ h.next
unfolding start_of
start_of_room h r lt = omega (arith, r.next_in)

start_of-ne :
    (h : History) (k : ℕ)
    → IsRing h
    → h.len < window
    → k < h.len
    → h.next ≢ (start_of h + k) % window
unfolding start_of
start_of-ne h k r lt b = omega (arith, r.next_in)

read_push_room :
    (h : History) (down up : ℕ)
    → IsRing h
    → h.len < window
    → read_slots (push h down up) (start_of h) 0 (suc h.len) ≡ series h ++ (down, up) ∷ []
read_push_room h down up r lt = cc (
  series_lem h,
  read_slots_snoc (push h down up) (start_of h) 0 h.len,
  read_slots-push h down up (start_of h) 0 h.len (λ k a b. start_of-ne h k r lt (omega arith)),
  start_of_room h r lt,
  sample-push h down up r,
)

drop-read_slots :
    (h : History) (start i n : ℕ)
    → drop 1 (read_slots h start i (suc n)) ≡ read_slots h start (i + 1) n
unfolding read_slots
drop-read_slots h start i n = refl

read_push_full :
    (h : History) (down up n : ℕ)
    → IsRing h
    → n ≡ 59
    → read_slots (push h down up) ((h.next + 1) % window) 0 (suc n)
      ≡ drop 1 (read_slots h h.next 0 (suc n)) ++ (down, up) ∷ []
read_push_full h down up n r e = cc (
  read_slots-shift (push h down up) h.next 0 (suc n),
  read_slots_snoc (push h down up) h.next (0 + 1) n,
  read_slots-push h down up h.next (0 + 1) n (λ k a b. omega (arith, r.next_in)),
  drop-read_slots h h.next 0 n,
  let at_next : (h.next + (0 + 1 + n)) % window ≡ h.next = omega (arith, r.next_in) in at_next,
  sample-push h down up r,
)

recent_room : (xs : List (ℕ × ℕ)) → length xs ≤ window → recent xs ≡ xs
recent_room xs h = let e : length xs - window ≡ 0 = omega arith in rw e refl

len-push :
    (h : History) (down up : ℕ)
    → (push h down up).len ≡ (if ltb h.len window then suc h.len else h.len)
unfolding push
len-push h down up = ground arith

start_of-push_room :
    (h : History) (down up : ℕ) → IsRing h → h.len < window → start_of (push h down up) ≡ start_of h
unfolding start_of push
start_of-push_room h down up r lt = ground (arith, r.next_in)

start_of-push_full :
    (h : History) (down up : ℕ)
    → IsRing h
    → h.len ≡ window
    → (start_of (push h down up) ≡ (h.next + 1) % window) × (start_of h ≡ h.next)
unfolding start_of push
start_of-push_full h down up r full = ground (arith, r.next_in)

length-series : (h : History) → length (series h) ≡ h.len
length-series h = rw series_lem (length-read_slots h (start_of h) 0 h.len)

series-push_room :
    (h : History) (down up : ℕ)
    → IsRing h
    → h.len < window
    → series (push h down up) ≡ series h ++ (down, up) ∷ []
series-push_room h down up r lt =
    let e : (push h down up).len ≡ suc h.len = ground (arith, len-push h down up) in
    cc (
      series_lem (push h down up),
      e,
      start_of-push_room h down up r lt,
      read_push_room h down up r lt,
    )

series-push_full :
    (h : History) (down up : ℕ)
    → IsRing h
    → h.len ≡ window
    → series (push h down up) ≡ drop 1 (series h) ++ (down, up) ∷ []
series-push_full h down up r full =
    let e : (push h down up).len ≡ suc 59 = ground (arith, len-push h down up) in
    let f : h.len ≡ suc 59 = omega arith in
    let (a, b) = start_of-push_full h down up r full in
    cc (series_lem (push h down up), series_lem h, e, f, a, b, read_push_full h down up 59 r refl)

-- A push adds the sample at the end of the series; where there is no room the oldest one goes.
pub series-push :
    (h : History) (down up : ℕ)
    → IsRing h
    → series (push h down up) ≡ recent (series h ++ (down, up) ∷ [])
series-push h down up r = elim (Bool-cases (ltb h.len window)) [
  | inl e ↦
      series-push_room h down up r (ground arith)
      ∙ sym (
          recent_room (series h ++ (down, up) ∷ [])
            (ground (arith, length-append (series h) ((down, up) ∷ []), length-series h)))
  | inr e ↦
      let full : h.len ≡ window = ground (arith, r.len_in) in
      let one : length (series h ++ (down, up) ∷ []) - window ≡ 1 =
        omega (arith, length-append (series h) ((down, up) ∷ []), length-series h) in
      series-push_full h down up r full
      ∙ rw one (sym (drop-append 1 (series h) ((down, up) ∷ []) (omega (arith, length-series h))))
]

abbrev pub push_all : History → List (ℕ × ℕ) → History
push_all h [] = h
push_all h ((down, up) ∷ samples) = push_all (push h down up) samples

series-push_all :
    (h : History) (samples : List (ℕ × ℕ))
    → IsRing h
    → series (push_all h samples) ≡ recent (series h ++ samples)
series-push_all h [] r =
    rw append-nil (sym (recent_room (series h) (omega (arith, length-series h, r.len_in))))
series-push_all h ((down, up) ∷ samples) r =
    series-push_all (push h down up) samples (push-IsRing h down up r)
    ∙ (ap (λ s. recent (s ++ samples)) (series-push h down up r)
        ∙ (recent-append (series h ++ (down, up) ∷ []) samples
            ∙ ap recent (append_assoc (series h) ((down, up) ∷ []) samples)))

series-default : series default ≡ []
unfolding series default
series-default = refl

-- After any pushes since the start, or since the last clearing, the series is the last sixty samples,
-- in the order in which they came.
pub series-recent :
    (h : History) (samples : List (ℕ × ℕ)) → series (push_all (clear h) samples) ≡ recent samples
unfolding clear
series-recent h samples = series-push_all default samples default-IsRing ∙ rw series-default refl
