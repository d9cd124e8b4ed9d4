-- ===== src/Mse/Rc4/Discarding.antt =====
-- Throwing keystream away.
use zerem.Prelude.{
  ℕ, zero, suc, ◌+◌, ◌-◌, ◌≤◌, min, List, ◌++◌, length, take, drop, replicate, ◌≡◌, refl, sym, ap,
  ◌∙◌, arith, length-append, length-take, take-append_drop,
}
use zerem.Mse.Rc4.{Rc4, apply, discard_loop, discard}
use zerem.Mse.Rc4.Keystream.{after, after_add, apply-after, length-apply}

length_sink :
    (c : Rc4) (step : ℕ) (sink : List ℕ)
    → length ((apply c (take step sink)).1 ++ drop step sink) ≡ length sink
length_sink c step sink =
    let out = apply c (take step sink) in
    let joined = length-append out.1 (drop step sink) in
    let same = length-apply c (take step sink) in
    let parts = length-append (take step sink) (drop step sink) in
    let whole = ap length (take-append_drop step sink) in omega arith

-- As many rounds as bytes are enough, and the rounds of 64 walk the state on by exactly that many bytes.
discard_loop-after :
    (fuel : ℕ) (sink : List ℕ) (left : ℕ) (c : Rc4)
    → length sink ≡ 64
    → left ≤ fuel
    → discard_loop fuel sink left c ≡ after left c
unfolding discard_loop after
discard_loop-after zero sink zero c l h = refl
discard_loop-after zero sink (suc left) c l h = absurd (omega arith)
discard_loop-after (suc fuel) sink zero c l h = refl
discard_loop-after (suc fuel) sink (suc left) c l h =
    let step = min (suc left) 64 in
    let out = apply c (take step sink) in
    let taken : length (take step sink) ≡ step = length-take step sink ∙ (omega arith) in
    let ih =
      discard_loop-after fuel (out.1 ++ drop step sink) (suc left - step) out.0
        (length_sink c step sink ∙ l) (omega arith) in
    let moved = apply-after c (take step sink) ∙ ap (λ k. after k c) taken in
    let total : step + (suc left - step) ≡ suc left = omega arith in
    ih
    ∙ ap (λ r. after (suc left - step) r) moved
    ∙ after_add step (suc left - step) c
    ∙ ap (λ k. after k c) total

-- Throwing `n` bytes away leaves the state that `n` applied bytes leave, whatever they were.
pub discard-apply :
    (n : ℕ) (c : Rc4) (buf : List ℕ) → length buf ≡ n → discard n c ≡ (apply c buf).0
unfolding discard
discard-apply n c buf h =
    discard_loop-after n (replicate 64 0) n c refl (omega arith)
    ∙ ap (λ k. after k c) (sym h)
    ∙ sym (apply-after c buf)
