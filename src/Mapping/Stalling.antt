-- ===== src/Mapping/Stalling.antt =====
-- When a row says that it stands still.
use zerem.Prelude.{
  ℕ, zero, suc, ◌+◌, min, true, false, none, some, ltb, ◌==◌, if◌then◌else◌, ◌≡◌, refl, ap, ◌∙◌,
  arith,
}
use zerem.Prelude.Words.{u8_max}
use zerem.Torrent.{TorrentRow}
use zerem.Mapping.{stall_of, diagnosis, is_downloading, still_ticks}

-- A download with a size that moves nothing.
pub record IsStanding (row : TorrentRow) : Type 0 where
  pub sized : (row.size == 0) ≡ false
  pub wants : is_downloading row.state ≡ true
  pub nothing : row.down_bps ≡ 0

-- The counter, once the same row was seen `n` times from the start.
unfoldable pub counter : ℕ → TorrentRow → ℕ
counter zero row = 0
counter (suc n) row = (stall_of (counter n row) row).1

standing :
    (still : ℕ) (row : TorrentRow)
    → IsStanding row
    → stall_of still row ≡ (
      if ltb (min u8_max (still + 1)) still_ticks
          then none
          else some (diagnosis row.peers_total row.peers_connected),
      min u8_max (still + 1),
    )
unfolding stall_of
standing still row h =
    let at_rest : ltb 0 row.down_bps ≡ false = let n = h.nothing in ground arith in
    rw (h.sized, h.wants, at_rest) refl

counter_lem : (n : ℕ) (row : TorrentRow) → IsStanding row → counter n row ≡ min u8_max n
unfolding counter
counter_lem zero row h = refl
counter_lem (suc n) row h =
    let ih = counter_lem n row h in ap (λ r. r.1) (standing (counter n row) row h) ∙ (omega arith)

-- A download that stands still is not called stalled in the first nine ticks, and is from the tenth on,
-- for as long as it stands: the counter stops at the top of its byte and does not wrap.
stall_of_ticks :
    (n : ℕ) (row : TorrentRow)
    → IsStanding row
    → (stall_of (counter n row) row).0
      ≡ (if ltb n 9 then none else some (diagnosis row.peers_total row.peers_connected))
stall_of_ticks n row h =
    let seen = counter_lem n row h in
    let same : ltb (min u8_max (counter n row + 1)) still_ticks ≡ ltb n 9 = ground arith in
    ap (λ r. r.0) (standing (counter n row) row h)
    ∙ ap (λ b. if b then none else some (diagnosis row.peers_total row.peers_connected)) same
