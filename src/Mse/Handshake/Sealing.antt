-- ===== src/Mse/Handshake/Sealing.antt =====
-- The parts of the handshake, on a connection that takes every write.
use zerem.Prelude.{
  ℕ, suc, ◌%◌, ◌≤◌, ◌<◌, true, false, List, [], ◌∷◌, ◌++◌, Option, some, length, ltb, ◌==◌,
  if◌then◌else◌, All, ◌≡◌, refl, sym, ap, ◌∙◌, arith, append_assoc, append-nil,
}
use zerem.Prelude.Text.{codes}
use zerem.Prelude.Words.{xor_u8_twice}
use zerem.Mse.Rc4.{Rc4, apply}
use zerem.Mse.Rc4.Keystream.{apply-append, state-append, apply_nothing, length-apply}
use zerem.Mse.Dh
use zerem.Mse.Dh.{Half}
use zerem.Mse.Link.{
  absurd_length, ok, Link, pure, fail, ◌>>=◌, write, fill, from_be, be_u16, be_u32, max_pad,
  padding, opened,
}
use zerem.Mse.Link.Reading.{then_ok, opened_lem, opened_last, from-be_u16, be_u16_bytes}
use zerem.Mse.Link.Scanning.{Silent, scan_finds}
use zerem.Mse.Handshake.{
  Library, vc, zip_xor, req, greet, request, skip_padding, settle, choose, conclude, answer, unseal,
}

-- A connection that takes every write.
abbrev pub link : List ℕ → List ℕ → List (ℕ → Option (List ℕ)) → Link
link incoming sent draws = record {
  incoming = incoming;
  sent = sent;
  writable = λ _. true;
  draws = draws;
}

-- The answers of the random source from which `padding` makes this padding.
abbrev pub deal : List ℕ → List (ℕ → Option (List ℕ)) → List (ℕ → Option (List ℕ))
deal [] rest = (λ _. some (be_u16 0)) ∷ rest
deal (p ∷ pad) rest = (λ _. some (be_u16 (length (p ∷ pad)))) ∷ (λ _. some (p ∷ pad)) ∷ rest

pub padding-deal :
    (i s pad : List ℕ) (rest : List (ℕ → Option (List ℕ)))
    → length pad ≤ max_pad
    → padding (link i s (deal pad rest)) ≡ (ok pad, link i s rest)
unfolding padding ◌>>=◌ fill
padding-deal i s [] rest h = refl
padding-deal i s (p ∷ pad) rest h =
    let drawn : from_be 0 (be_u16 (suc (length pad))) % 65536 % 513 ≡ suc (length pad) =
      let read = from-be_u16 (suc (length pad)) (omega arith) in omega arith in
    let some_pad : (from_be 0 (be_u16 (suc (length pad))) % 65536 % 513 == 0) ≡ false =
      ground arith in
    rw (some_pad) refl

pub zip_xor-zip_xor :
    (a b : List ℕ) → length a ≡ length b → All (λ x. x < 256) a → zip_xor (zip_xor a b) b ≡ a
zip_xor-zip_xor [] [] e h = refl
zip_xor-zip_xor [] (y ∷ b) e h = refl
zip_xor-zip_xor (x ∷ a) [] e h = absurd (omega arith)
zip_xor-zip_xor (x ∷ a) (y ∷ b) e (hx, h) =
    cc (xor_u8_twice x y hx, zip_xor-zip_xor a b (omega arith) h)

pub length-zip_xor : (a b : List ℕ) → length a ≡ length b → length (zip_xor a b) ≡ length a
length-zip_xor [] [] e = refl
length-zip_xor [] (y ∷ b) e = refl
length-zip_xor (x ∷ a) [] e = absurd (omega arith)
length-zip_xor (x ∷ a) (y ∷ b) e = ap suc (length-zip_xor a b (omega arith))

module _ (lib : Library) where
  pub greet_lem :
      (i s bytes pad : List ℕ) (rest : List (ℕ → Option (List ℕ)))
      → length pad ≤ max_pad
      → greet lib (link i s ((λ _. some bytes) ∷ deal pad rest))
        ≡ (ok (Dh.new lib.big bytes), link i (s ++ (Dh.new lib.big bytes).public ++ pad) rest)
  unfolding greet ◌>>=◌ fill write
  greet_lem i s bytes pad rest h =
      let padded = padding-deal i (s ++ (Dh.new lib.big bytes).public) pad rest h in rw padded refl

  skip_padding_lem :
      (s pad later rest : List ℕ) (c : Rc4) (draws : List (ℕ → Option (List ℕ)))
      → length pad ≤ max_pad
      → All (λ b. b < 256) pad
      → let c' = (apply (apply c (be_u16 (length pad))).0 pad).0 in
        skip_padding lib c
          (link ((apply c (be_u16 (length pad) ++ (pad ++ later))).1 ++ rest) s draws)
        ≡ (ok c', link ((apply c' later).1 ++ rest) s draws)
  unfolding skip_padding
  skip_padding_lem s pad later rest c draws h bytes =
      let header = be_u16 (length pad) in
      let c1 = (apply c header).0 in
      let before = link ((apply c (header ++ (pad ++ later))).1 ++ rest) s draws in
      let between = link ((apply c1 (pad ++ later)).1 ++ rest) s draws in
      let one =
        opened_lem before c header (pad ++ later) rest 2 refl refl (be_u16_bytes (length pad)) in
      let two = opened_lem between c1 pad later rest (length pad) refl refl bytes in
      let read = from-be_u16 (length pad) (omega arith) in
      let fits : ltb max_pad (from_be 0 header) ≡ false = ground arith in
      then_ok (opened 2 c)
        (λ r.
          if ltb max_pad (from_be 0 r.0)
          then fail absurd_length
          else (opened (from_be 0 r.0) r.1 >>= λ p. pure p.1))
        before between (header, c1) one
      ∙ ap
          (λ b.
            (if b then fail absurd_length else (opened (from_be 0 header) c1 >>= λ p. pure p.1))
              between)
          fits
      ∙ ap (λ n. (opened n c1 >>= λ p. pure p.1) between) read
      ∙ then_ok (opened (length pad) c1) (λ p. pure p.1) between
          (link ((apply (apply c1 pad).0 later).1 ++ rest) s draws) (pad, (apply c1 pad).0) two

  -- What the initiator seals, and the message it stands in.
  abbrev pub sealed_request : List ℕ → List ℕ → List ℕ
  sealed_request pad first =
      vc ++ (be_u32 3 ++ (be_u16 (length pad) ++ (pad ++ (be_u16 (length first) ++ first))))

  abbrev pub masked_name : List ℕ → List ℕ → List ℕ
  masked_name secret info_hash =
      zip_xor (req lib (codes "req2") info_hash) (req lib (codes "req3") secret)

  pub request_lem :
      (i s secret info_hash first pad : List ℕ) (send : Rc4) (rest : List (ℕ → Option (List ℕ)))
      → length pad ≤ max_pad
      → request lib secret info_hash first send (link i s (deal pad rest)) ≡ (
        ok (apply send (sealed_request pad first)).0,
        link i
            (s
              ++ (req lib (codes "req1") secret
                  ++ masked_name secret info_hash
                  ++ (apply send (sealed_request pad first)).1))
            rest,
      )
  unfolding request write ◌>>=◌
  request_lem i s secret info_hash first pad send rest h = rw (padding-deal i s pad rest h) refl

  -- What the responder seals.
  abbrev pub sealed_answer : List ℕ → List ℕ
  sealed_answer pad = vc ++ (be_u32 2 ++ (be_u16 (length pad) ++ pad))

  pub answer_lem :
      (i s info_hash pad : List ℕ) (send receive : Rc4) (rest : List (ℕ → Option (List ℕ)))
      → length pad ≤ max_pad
      → answer lib info_hash 2 send receive (link i s (deal pad rest)) ≡ (
        ok (record {
          info_hash = info_hash;
          outgoing = some (apply send (sealed_answer pad)).0;
          incoming = some receive;
        }),
        link i (s ++ (apply send (sealed_answer pad)).1) rest,
      )
  unfolding answer write settle ◌>>=◌
  answer_lem i s info_hash pad send receive rest h = rw (padding-deal i s pad rest h) refl

  vc_bytes : All (λ b. b < 256) vc
  vc_bytes = (
    omega arith,
    (
      omega arith,
      (omega arith, (omega arith, (omega arith, (omega arith, (omega arith, (omega arith, tt)))))),
    ),
  )

  u32_bytes : (n : ℕ) → All (λ b. b < 256) (be_u32 n)
  u32_bytes n = (omega arith, (omega arith, (omega arith, (omega arith, tt))))

  -- The state of the cipher behind so much.
  abbrev state : Rc4 → List ℕ → Rc4
  state c bytes = (apply c bytes).0

  request_state :
      (c : Rc4) (pad first : List ℕ)
      → (apply c (sealed_request pad first)).0
        ≡ state
            (state
              (state (state (state (state c vc) (be_u32 3)) (be_u16 (length pad))) pad)
              (be_u16 (length first)))
            first
  request_state c pad first =
      let c1 = state c vc in
      let c2 = state c1 (be_u32 3) in
      let c3 = state c2 (be_u16 (length pad)) in
      let body4 = be_u16 (length first) ++ first in
      state-append c vc (be_u32 3 ++ (be_u16 (length pad) ++ (pad ++ body4)))
      ∙ state-append c1 (be_u32 3) (be_u16 (length pad) ++ (pad ++ body4))
      ∙ state-append c2 (be_u16 (length pad)) (pad ++ body4)
      ∙ state-append c3 pad body4
      ∙ state-append (state c3 pad) (be_u16 (length first)) first

  answer_state :
      (c : Rc4) (pad : List ℕ)
      → (apply c (sealed_answer pad)).0
        ≡ state (state (state (state c vc) (be_u32 2)) (be_u16 (length pad))) pad
  answer_state c pad =
      state-append c vc (be_u32 2 ++ (be_u16 (length pad) ++ pad))
      ∙ state-append (state c vc) (be_u32 2) (be_u16 (length pad) ++ pad)
      ∙ state-append (state (state c vc) (be_u32 2)) (be_u16 (length pad)) pad

  skip_padding_last :
      (s pad : List ℕ) (c : Rc4) (draws : List (ℕ → Option (List ℕ)))
      → length pad ≤ max_pad
      → All (λ b. b < 256) pad
      → skip_padding lib c (link (apply c (be_u16 (length pad) ++ pad)).1 s draws)
        ≡ (ok (state (state c (be_u16 (length pad))) pad), link [] s draws)
  skip_padding_last s pad c draws h bytes =
      let c' = state (state c (be_u16 (length pad))) pad in
      let padded : (apply c (be_u16 (length pad) ++ pad)).1
          ≡ (apply c (be_u16 (length pad) ++ (pad ++ []))).1 ++ [] =
        ap (λ p. (apply c (be_u16 (length pad) ++ p)).1) (sym (append-nil pad))
        ∙ sym (append-nil (apply c (be_u16 (length pad) ++ (pad ++ []))).1) in
      ap (λ b. skip_padding lib c (link b s draws)) padded
      ∙ skip_padding_lem s pad [] [] c draws h bytes
      ∙ ap (λ b. (ok c', link (b ++ []) s draws)) (apply_nothing c')

  pub unseal_lem :
      (s pad first rest : List ℕ) (c : Rc4) (draws : List (ℕ → Option (List ℕ)))
      → length pad ≤ max_pad
      → All (λ b. b < 256) pad
      → length first < 65536
      → All (λ b. b < 256) first
      → unseal lib c (link ((apply c (sealed_request pad first)).1 ++ rest) s draws)
        ≡ (ok (2, first, (apply c (sealed_request pad first)).0), link rest s draws)
  unfolding unseal ◌>>=◌ choose from_be
  unseal_lem s pad first rest c draws hp bp hf bf =
      let c1 = state c vc in
      let c2 = state c1 (be_u32 3) in
      let c3 = state (state c2 (be_u16 (length pad))) pad in
      let c4 = state c3 (be_u16 (length first)) in
      let body4 = be_u16 (length first) ++ first in
      let body3 = be_u16 (length pad) ++ (pad ++ body4) in
      let at = λ (c : Rc4) (body : List ℕ). link ((apply c body).1 ++ rest) s draws in
      let e1 =
        opened_lem (at c (vc ++ (be_u32 3 ++ body3))) c vc (be_u32 3 ++ body3) rest 8 refl refl
          vc_bytes in
      let e2 =
        opened_lem (at c1 (be_u32 3 ++ body3)) c1 (be_u32 3) body3 rest 4 refl refl (u32_bytes 3) in
      let e3 = skip_padding_lem s pad body4 rest c2 draws hp bp in
      let e4 =
        opened_lem (at c3 body4) c3 (be_u16 (length first)) first rest 2 refl refl
          (be_u16_bytes (length first)) in
      let e5 =
        opened_last (link ((apply c4 first).1 ++ rest) s draws) c4 first rest (length first) refl
          refl bf in
      let size = from-be_u16 (length first) hf in
      rw e1 (
        rw e2 (
          rw e3 (
            rw e4 (
              rw size (
                rw e5 (
                  ap (λ c'. (ok (2, first, c'), link rest s draws))
                    (sym (request_state c pad first))))))))

  pub conclude_lem :
      (s info_hash pad_before pad : List ℕ) (send c : Rc4) (draws : List (ℕ → Option (List ℕ)))
      → length pad_before ≤ max_pad
      → Silent pad_before (apply c vc).1
      → length pad ≤ max_pad
      → All (λ b. b < 256) pad
      → conclude lib info_hash send c (link (pad_before ++ (apply c (sealed_answer pad)).1) s draws)
        ≡ (
          ok (record {
            info_hash = info_hash;
            outgoing = some send;
            incoming = some (apply c (sealed_answer pad)).0;
          }),
          link [] s draws,
        )
  unfolding conclude settle ◌>>=◌ from_be
  conclude_lem s info_hash pad_before pad send c draws room silent hp bp =
      let c1 = state c vc in
      let c2 = state c1 (be_u32 2) in
      let body3 = be_u16 (length pad) ++ pad in
      let marker = length-apply c vc in
      let before = link (pad_before ++ (apply c (sealed_answer pad)).1) s draws in
      let split : before.incoming
          ≡ pad_before ++ (apply c vc).1 ++ (apply c1 (be_u32 2 ++ body3)).1 =
        ap (λ b. pad_before ++ b) (apply-append c vc (be_u32 2 ++ body3))
        ∙ sym (append_assoc pad_before (apply c vc).1 (apply c1 (be_u32 2 ++ body3)).1) in
      let found =
        scan_finds pad_before (apply c vc).1 (apply c1 (be_u32 2 ++ body3)).1 before (omega arith)
          room silent split in
      let e2 =
        opened_last (link (apply c1 (be_u32 2 ++ body3)).1 s draws) c1 (be_u32 2) (apply c2 body3).1
          4 (apply-append c1 (be_u32 2) body3) refl (u32_bytes 2) in
      let e3 = skip_padding_last s pad c2 draws hp bp in
      rw found (
        rw e2 (
          rw e3 (
            ap
              (λ c'. (
                ok (record { info_hash = info_hash; outgoing = some send; incoming = some c' }),
                link [] s draws,
              ))
              (sym (answer_state c pad)))))
