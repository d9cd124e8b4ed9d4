-- ===== src/Mse/Handshake.antt =====
-- crates/zerem-mse/src/handshake.rs: both ends of the handshake.
pub mod Sealing
pub mod Meeting
use zerem.Prelude.{
  ℕ, ◌+◌, ◌/◌, ◌%◌, ◌<◌, ◌≤◌, Bool, true, false, not, List, [], ◌∷◌, ◌++◌, Option, none, some,
  length, ltb, find, ◌==◌, if◌then◌else◌, All, ◌≡◌,
}
use zerem.Prelude.Text.{text_eq, codes}
use zerem.Prelude.Words.{xor_u8}
use zerem.Mse.Rc4.{Rc4, keyed, apply, discard}
use zerem.Mse.Dh.{BigUint, Half, width}
use zerem.Mse.Dh
use zerem.Mse.Link.{
  Failure, ended, no_sync, no_cipher_in_common, unknown_torrent, absurd_length, Outcome, Act, pure,
  fail, ◌>>=◌, ◌>>◌, write, read, fill, from_be, be_u16, be_u32, max_pad, padding, scan, opened,
}

-- What is used of the crates ring and num-bigint.
pub record Library : Type 0 where
  pub sha1 : List ℕ → List ℕ
  pub big : BigUint

-- A digest is twenty bytes.
pub record IsLibrary (lib : Library) : Type 0 where
  pub digest_size : (bytes : List ℕ) → length (lib.sha1 bytes) ≡ 20
  pub digest_bytes : (bytes : List ℕ) → All (λ b. b < 256) (lib.sha1 bytes)

-- A settled connection.
pub record Agreed : Type 0 where
  pub info_hash : List ℕ
  pub outgoing : Option Rc4
  pub incoming : Option Rc4

-- The eight zero bytes that both ends encrypt.
abbrev pub vc : List ℕ
vc = 0 ∷ 0 ∷ 0 ∷ 0 ∷ 0 ∷ 0 ∷ 0 ∷ 0 ∷ []

abbrev pub plaintext : ℕ
plaintext = 1

abbrev pub rc4 : ℕ
rc4 = 2

abbrev pub zip_xor : List ℕ → List ℕ → List ℕ
zip_xor (a ∷ as') (b ∷ bs) = xor_u8 a b ∷ zip_xor as' bs
zip_xor _ _ = []

unfoldable pub settle : ℕ → List ℕ → Rc4 → Rc4 → Act Agreed
settle chosen info_hash send receive =
    if chosen == rc4
    then pure (record { info_hash = info_hash; outgoing = some send; incoming = some receive })
    else if chosen == plaintext
    then pure (record { info_hash = info_hash; outgoing = none; incoming = none })
    else fail no_cipher_in_common

-- RC4 before plaintext: the choice among what was offered, of which the two lowest digits matter.
unfoldable pub choose : ℕ → Act ℕ
choose offered =
    if (offered / 2) % 2 == 1
    then pure rc4
    else if offered % 2 == 1
    then pure plaintext
    else fail no_cipher_in_common

module _ (lib : Library) where
  -- The cipher for one direction. A digest is not empty, so the key can be used.
  unfoldable pub cipher : List ℕ → List ℕ → List ℕ → Rc4
  cipher role secret info_hash = discard 1024 (keyed (lib.sha1 (role ++ secret ++ info_hash)))

  abbrev pub req : List ℕ → List ℕ → List ℕ
  req tag bytes = lib.sha1 (tag ++ bytes)

  -- Drawing a private value, and sending the public one and padding.
  unfoldable pub greet : Act Half
  unfolding ◌>>=◌
  greet = do
    bytes ← fill 20
    let ours = Dh.new lib.big bytes
    write ours.public
    pad ← padding
    write pad
    pure ours

  -- What the initiator says once it knows the secret.
  unfoldable pub request : List ℕ → List ℕ → List ℕ → Rc4 → Act Rc4
  unfolding ◌>>=◌
  request secret info_hash first send = do
    pad ← padding
    let (after, sealed) = apply send (
        vc
        ++ (be_u32 (plaintext + rc4)
            ++ (be_u16 (length pad) ++ (pad ++ (be_u16 (length first) ++ first)))))
    write (
        req (codes "req1") secret
        ++ zip_xor (req (codes "req2") info_hash) (req (codes "req3") secret)
        ++ sealed)
    pure after

  -- The length of the padding, and the padding.
  unfoldable pub skip_padding : Rc4 → Act Rc4
  unfolding ◌>>=◌
  skip_padding receive = opened 2 receive >>= λ r.
      if ltb max_pad (from_be 0 r.0)
      then fail absurd_length
      else (opened (from_be 0 r.0) r.1 >>= λ p. pure p.1)

  -- What the initiator makes of the answer.
  unfoldable pub conclude : List ℕ → Rc4 → Rc4 → Act Agreed
  unfolding ◌>>=◌ skip_padding
  conclude info_hash send receive = do
    let expected = apply receive vc
    scan expected.1
    chosen ← opened 4 expected.0
    receive ← skip_padding chosen.1
    settle (from_be 0 chosen.0) info_hash send receive

  unfoldable pub initiate : List ℕ → List ℕ → Act Agreed
  unfolding ◌>>=◌ greet request conclude
  initiate info_hash first = if ltb 65535 (length first) then fail absurd_length else (do
    ours ← greet
    theirs ← read width
    let secret = Dh.secret lib.big ours theirs
    send ← request secret info_hash first (cipher (codes "keyA") secret info_hash)
    conclude info_hash send (cipher (codes "keyB") secret info_hash))

  -- Which torrent: the one of those held whose masked name was sent.
  unfoldable pub identify : List (List ℕ) → List ℕ → List ℕ → Act (List ℕ)
  identify known secret asked =
      elim (find
        (λ candidate.
          text_eq (req (codes "req2") candidate) (zip_xor asked (req (codes "req3") secret)))
        known) [ none ↦ fail unknown_torrent | some info_hash ↦ pure info_hash ]

  abbrev pub require : Bool → Failure → Act (Unit {0})
  require test why = if test then pure tt else fail why

  -- What the responder answers, and how it settles.
  unfoldable pub answer : List ℕ → ℕ → Rc4 → Rc4 → Act Agreed
  unfolding ◌>>=◌
  answer info_hash chosen send receive = do
    pad ← padding
    let sealed = apply send (vc ++ (be_u32 chosen ++ (be_u16 (length pad) ++ pad)))
    write sealed.1
    settle chosen info_hash sealed.0 receive

  -- The sealed request: the choice, the payload, and the cipher behind it.
  unfoldable pub unseal : Rc4 → Act (ℕ × List ℕ × Rc4)
  unfolding ◌>>=◌ skip_padding
  unseal receive = do
    opening ← opened 8 receive
    require (text_eq opening.0 vc) no_sync
    offered ← opened 4 opening.1
    receive ← skip_padding offered.1
    chosen ← choose (from_be 0 offered.0)
    raw ← opened 2 receive
    carried ← opened (from_be 0 raw.0) raw.1
    pure (chosen, carried.0, carried.1)

  -- The payload, which the code leaves in `first`, is given beside the result.
  unfoldable pub accept : List (List ℕ) → Act (Agreed × List ℕ)
  unfolding ◌>>=◌ greet unseal answer identify
  accept known = do
    theirs ← read width
    ours ← greet
    let secret = Dh.secret lib.big ours theirs
    scan (req (codes "req1") secret)
    asked ← read 20
    info_hash ← identify known secret asked
    request ← unseal (cipher (codes "keyA") secret info_hash)
    agreed ← answer info_hash request.0 (cipher (codes "keyB") secret info_hash) request.2
    pure (agreed, request.1)
