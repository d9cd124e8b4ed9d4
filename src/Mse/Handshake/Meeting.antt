-- ===== src/Mse/Handshake/Meeting.antt =====
-- The two ends of the handshake against each other: what one sends is what the other receives.
use zerem.Prelude.{
  ℕ, ◌≤◌, ◌<◌, false, List, [], ◌∷◌, ◌++◌, some, length, ltb, find, All, ◌≡◌, refl, sym, ap, ◌∙◌,
  arith, append_assoc, append-nil,
}
use zerem.Prelude.Text.{text_eq, codes}
use zerem.Mse.Rc4.{Rc4, apply}
use zerem.Mse.Dh
use zerem.Mse.Dh.{Half, width}
use zerem.Mse.Link.{ok, Link, ◌>>=◌, max_pad}
use zerem.Mse.Link.Reading.{read_lem}
use zerem.Mse.Link.Scanning.{Silent, scan_finds}
use zerem.Mse.Handshake.{
  Library, IsLibrary, vc, zip_xor, req, cipher, initiate, accept, identify, unseal,
}
use zerem.Mse.Handshake.Sealing.{
  link, deal, greet_lem, request_lem, answer_lem, unseal_lem, conclude_lem, zip_xor-zip_xor,
  length-zip_xor, sealed_request, sealed_answer, masked_name,
}

-- What the two ends draw: a private value each, and two paddings each.
pub record Drawn : Type 0 where
  pub private_a : List ℕ
  pub private_b : List ℕ
  pub greeting_a : List ℕ
  pub greeting_b : List ℕ
  pub inner_a : List ℕ
  pub inner_b : List ℕ

module _ (lib : Library) (drawn : Drawn) (info_hash first : List ℕ) where
  abbrev pub ours : Half
  ours = Dh.new lib.big drawn.private_a

  abbrev pub theirs : Half
  theirs = Dh.new lib.big drawn.private_b

  abbrev pub shared : List ℕ
  shared = Dh.secret lib.big ours theirs.public

  -- The ciphers from the initiator to the responder, and back.
  abbrev pub there : Rc4
  there = cipher lib (codes "keyA") shared info_hash

  abbrev pub back : Rc4
  back = cipher lib (codes "keyB") shared info_hash

  abbrev pub marker : List ℕ
  marker = req lib (codes "req1") shared

  abbrev pub said_a : List ℕ
  said_a =
      ours.public
      ++ drawn.greeting_a
      ++ (marker
          ++ masked_name lib shared info_hash
          ++ (apply there (sealed_request lib drawn.inner_a first)).1)

  abbrev pub said_b : List ℕ
  said_b = theirs.public ++ drawn.greeting_b ++ (apply back (sealed_answer lib drawn.inner_b)).1

  -- The ciphers as the handshake leaves them.
  abbrev pub there_after : Rc4
  there_after = (apply there (sealed_request lib drawn.inner_a first)).0

  abbrev pub back_after : Rc4
  back_after = (apply back (sealed_answer lib drawn.inner_b)).0

  -- The conditions of a good meeting: both arrive at one secret of the right width (the theorems of
  -- Dh.Agreement), the paddings are as `padding` makes them, neither greeting happens to complete the
  -- marker that ends it, and the payload has a length that fits its field.
  pub record IsGood : Type 0 where
    pub agreed : Dh.secret lib.big theirs ours.public ≡ shared
    pub wide_a : length ours.public ≡ width
    pub wide_b : length theirs.public ≡ width
    pub short_a : length drawn.greeting_a ≤ max_pad
    pub short_b : length drawn.greeting_b ≤ max_pad
    pub inner_short_a : length drawn.inner_a ≤ max_pad
    pub inner_short_b : length drawn.inner_b ≤ max_pad
    pub inner_bytes_a : All (λ b. b < 256) drawn.inner_a
    pub inner_bytes_b : All (λ b. b < 256) drawn.inner_b
    pub silent_a : Silent drawn.greeting_a marker
    pub silent_b : Silent drawn.greeting_b (apply back vc).1
    pub payload : length first < 65536
    pub payload_bytes : All (λ b. b < 256) first

  -- The initiator, given what the responder says, settles on RC4, and says what the responder is given
  -- in the next theorem.
  initiate_meets :
      IsGood
      → initiate lib info_hash first (
          link said_b []
            ((λ _. some drawn.private_a) ∷ deal drawn.greeting_a (deal drawn.inner_a [])))
        ≡ (
          ok (record {
            info_hash = info_hash;
            outgoing = some there_after;
            incoming = some back_after;
          }),
          link [] said_a [],
        )
  unfolding initiate ◌>>=◌
  initiate_meets good =
      let fits : ltb 65535 (length first) ≡ false = let p = good.payload in ground arith in
      let rest_b = drawn.greeting_b ++ (apply back (sealed_answer lib drawn.inner_b)).1 in
      let e1 =
        greet_lem lib said_b [] drawn.private_a drawn.greeting_a (deal drawn.inner_a [])
          good.short_a in
      let e2 =
        read_lem (link said_b (ours.public ++ drawn.greeting_a) (deal drawn.inner_a []))
          theirs.public rest_b width
          (append_assoc theirs.public drawn.greeting_b
            (apply back (sealed_answer lib drawn.inner_b)).1)
          good.wide_b in
      let e3 =
        request_lem lib rest_b (ours.public ++ drawn.greeting_a) shared info_hash first
          drawn.inner_a there [] good.inner_short_a in
      let e4 =
        conclude_lem lib said_a info_hash drawn.greeting_b drawn.inner_b there_after back []
          good.short_b good.silent_b good.inner_short_b good.inner_bytes_b in
      rw fits (rw e1 (rw e2 (rw e3 e4)))

  identify_meets :
      (known : List (List ℕ)) (l : Link)
      → IsLibrary lib
      → find
          (λ candidate.
            text_eq (req lib (codes "req2") candidate) (req lib (codes "req2") info_hash))
          known
        ≡ some info_hash
      → identify lib known shared (masked_name lib shared info_hash) l ≡ (ok info_hash, l)
  unfolding identify
  identify_meets known l laws held =
      let name = req lib (codes "req2") info_hash in
      let mask = req lib (codes "req3") shared in
      let same_size : length name ≡ length mask =
        laws.digest_size (codes "req2" ++ info_hash)
        ∙ sym (laws.digest_size (codes "req3" ++ shared)) in
      let unmasked : zip_xor (zip_xor name mask) mask ≡ name =
        zip_xor-zip_xor name mask same_size (laws.digest_bytes (codes "req2" ++ info_hash)) in
      let hit =
        ap (λ wanted. find (λ candidate. text_eq (req lib (codes "req2") candidate) wanted) known)
          unmasked
        ∙ held in
      rw (hit, identify) refl

  accept_meets :
      (known : List (List ℕ))
      → IsLibrary lib
      → IsGood
      → find
          (λ candidate.
            text_eq (req lib (codes "req2") candidate) (req lib (codes "req2") info_hash))
          known
        ≡ some info_hash
      → accept lib known (
          link said_a []
            ((λ _. some drawn.private_b) ∷ deal drawn.greeting_b (deal drawn.inner_b [])))
        ≡ (
          ok (
            record {
              info_hash = info_hash;
              outgoing = some back_after;
              incoming = some there_after;
            },
            first,
          ),
          link [] said_b [],
        )
  unfolding accept ◌>>=◌
  accept_meets known laws good held =
      let masked = masked_name lib shared info_hash in
      let sealed = (apply there (sealed_request lib drawn.inner_a first)).1 in
      let rest_a = drawn.greeting_a ++ (marker ++ masked ++ sealed) in
      let draws = deal drawn.greeting_b (deal drawn.inner_b []) in
      let sent = theirs.public ++ drawn.greeting_b in
      let e1 =
        read_lem (link said_a [] ((λ _. some drawn.private_b) ∷ draws)) ours.public rest_a width
          (append_assoc ours.public drawn.greeting_a (marker ++ masked ++ sealed)) good.wide_a in
      let e2 =
        greet_lem lib rest_a [] drawn.private_b drawn.greeting_b (deal drawn.inner_b [])
          good.short_b in
      let size = laws.digest_size (codes "req1" ++ shared) in
      let split : rest_a ≡ drawn.greeting_a ++ marker ++ (masked ++ sealed) =
        ap (λ b. drawn.greeting_a ++ b) (append_assoc marker masked sealed)
        ∙ sym (append_assoc drawn.greeting_a marker (masked ++ sealed)) in
      let e3 =
        scan_finds drawn.greeting_a marker (masked ++ sealed)
          (link rest_a sent (deal drawn.inner_b [])) (omega arith) good.short_a good.silent_a
          split in
      let name = req lib (codes "req2") info_hash in
      let mask = req lib (codes "req3") shared in
      let masked_size : length masked ≡ 20 =
        length-zip_xor name mask (
          laws.digest_size (codes "req2" ++ info_hash)
          ∙ sym (laws.digest_size (codes "req3" ++ shared)))
        ∙ laws.digest_size (codes "req2" ++ info_hash) in
      let e4 =
        read_lem (link (masked ++ sealed) sent (deal drawn.inner_b [])) masked sealed 20 refl
          masked_size in
      let e5 = identify_meets known (link sealed sent (deal drawn.inner_b [])) laws held in
      let e6 =
        ap (λ b. unseal lib there (link b sent (deal drawn.inner_b []))) (sym (append-nil sealed))
        ∙ unseal_lem lib sent drawn.inner_a first [] there (deal drawn.inner_b [])
            good.inner_short_a good.inner_bytes_a good.payload good.payload_bytes in
      let e7 =
        answer_lem lib [] sent info_hash drawn.inner_b back there_after [] good.inner_short_b in
      rw e1 (rw e2 (rw good.agreed (rw e3 (rw e4 (rw e5 (rw e6 (rw e7 refl)))))))

-- Two ends that meet settle on the same torrent and on RC4, the payload arrives as it was sent, each
-- end sends exactly what the other reads with nothing left over, and the cipher that one sends with
-- stands where the one that the other receives with does. It is asked that both arrive at one secret,
-- that no greeting completes its marker by chance, that the payload fits its field, and that the
-- torrent is the first of those held with its digest.
pub initiate-accept :
    (lib : Library) (drawn : Drawn) (info_hash first : List ℕ) (known : List (List ℕ))
    → IsLibrary lib
    → IsGood lib drawn info_hash first
    → find
        (λ candidate. text_eq (req lib (codes "req2") candidate) (req lib (codes "req2") info_hash))
        known
      ≡ some info_hash
    → (said_a' said_b' : List ℕ) × (sending receiving : Rc4) × (initiate lib info_hash first (
          link said_b' []
            ((λ _. some drawn.private_a) ∷ deal drawn.greeting_a (deal drawn.inner_a [])))
        ≡ (
          ok (record { info_hash = info_hash; outgoing = some sending; incoming = some receiving }),
          link [] said_a' [],
        ))
      × (accept lib known (
            link said_a' []
              ((λ _. some drawn.private_b) ∷ deal drawn.greeting_b (deal drawn.inner_b [])))
          ≡ (
            ok (
              record { info_hash = info_hash; outgoing = some receiving; incoming = some sending },
              first,
            ),
            link [] said_b' [],
          ))
initiate-accept lib drawn info_hash first known laws good held = (
  said_a lib drawn info_hash first,
  said_b lib drawn info_hash first,
  there_after lib drawn info_hash first,
  back_after lib drawn info_hash first,
  initiate_meets lib drawn info_hash first good,
  accept_meets lib drawn info_hash first known laws good held,
)
