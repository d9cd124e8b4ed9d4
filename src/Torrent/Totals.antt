-- ===== src/Torrent/Totals.antt =====
-- The totals of a session against a count of its rows.
use zerem.Prelude.{
  ℕ, suc, ◌+◌, ◌%◌, ◌^◌, ◌≤◌, Bool, true, false, List, [], ◌∷◌, length, ◌≡◌, arith, if◌then◌else◌,
}
use zerem.Prelude.Words.{u32_max}
use zerem.Torrent.{
  State, paused, checking, downloading, seeding, error, queued, TorrentRow, SessionStats, no_stats,
  count_row, fold_rows, stats_of,
}

abbrev pub state_eq : State → State → Bool
state_eq paused paused = true
state_eq checking checking = true
state_eq downloading downloading = true
state_eq seeding seeding = true
state_eq error error = true
state_eq queued queued = true
state_eq _ _ = false

-- How many rows are in a state.
abbrev pub in_state : State → List TorrentRow → ℕ
in_state s [] = 0
in_state s (t ∷ rows) = (if state_eq s t.state then 1 else 0) + in_state s rows

-- Every counter has room for so many rows more.
record HasRoom (acc : SessionStats) (n : ℕ) : Type 0 where
  active : acc.active + n ≤ u32_max
  inactive : acc.paused + n ≤ u32_max
  down : acc.downloading + n ≤ u32_max
  seeds : acc.seeding + n ≤ u32_max
  held : acc.queued + n ≤ u32_max
  bad : acc.failed + n ≤ u32_max

abbrev pub total_down : List TorrentRow → ℕ
total_down [] = 0
total_down (t ∷ rows) = t.down_bps + total_down rows

abbrev pub total_up : List TorrentRow → ℕ
total_up [] = 0
total_up (t ∷ rows) = t.up_bps + total_up rows

-- The counters after the rows, behind those of `acc`.
pub record Counts (acc : SessionStats) (rows : List TorrentRow) (r : SessionStats) : Type 0 where
  pub down :
      r.downloading
      ≡ acc.downloading + in_state State.downloading rows + in_state State.checking rows
  pub seeds : r.seeding ≡ acc.seeding + in_state State.seeding rows
  pub held : r.queued ≡ acc.queued + in_state State.queued rows
  pub bad : r.failed ≡ acc.failed + in_state State.error rows
  pub running :
      r.active
      ≡ acc.active
        + in_state State.downloading rows
        + in_state State.checking rows
        + in_state State.seeding rows
  pub still :
      r.paused
      ≡ acc.paused
        + in_state State.paused rows
        + in_state State.error rows
        + in_state State.queued rows
  pub rate_down : r.down_bps % 2 ^ 64 ≡ (acc.down_bps + total_down rows) % 2 ^ 64
  pub rate_up : r.up_bps % 2 ^ 64 ≡ (acc.up_bps + total_up rows) % 2 ^ 64

count_row-HasRoom :
    (acc : SessionStats) (t : TorrentRow) (n : ℕ)
    → HasRoom acc (suc n)
    → HasRoom (count_row acc t) n
unfolding count_row
count_row-HasRoom acc t n h = ground arith

Counts-cons :
    (acc : SessionStats) (t : TorrentRow) (rows : List TorrentRow) {r : SessionStats}
    → HasRoom acc (suc (length rows))
    → Counts (count_row acc t) rows r
    → Counts acc (t ∷ rows) r
unfolding count_row
Counts-cons acc t rows h c = ground arith

fold_rows-Counts :
    (acc : SessionStats) (rows : List TorrentRow)
    → HasRoom acc (length rows)
    → Counts acc rows (fold_rows acc rows)
unfolding fold_rows
fold_rows-Counts acc [] h = omega arith
fold_rows-Counts acc (t ∷ rows) h =
    let ih = fold_rows-Counts (count_row acc t) rows (count_row-HasRoom acc t (length rows) h) in
    Counts-cons acc t rows h ih

-- For no more rows than a u32 counts, the footer's totals are counts of the rows by state. A row that is checked counts as downloading;
-- the active rows are those that download, are checked or seed, and all others count as paused. The
-- rates agree with the sums over the rows modulo 2^64.
stats_of-Counts :
    (rows : List TorrentRow) → length rows ≤ u32_max → Counts no_stats rows (stats_of rows)
unfolding stats_of
stats_of-Counts rows h = fold_rows-Counts no_stats rows (omega arith)

in_state_total :
    (rows : List TorrentRow)
    → in_state State.downloading rows
        + in_state State.checking rows
        + in_state State.seeding rows
        + in_state State.paused rows
        + in_state State.error rows
        + in_state State.queued rows
      ≡ length rows
in_state_total [] = omega arith
in_state_total (t ∷ rows) = ground (arith, in_state_total rows)

-- So, for no more rows than a u32 counts, the totals account for every row: each is active or paused, and every active one downloads or
-- seeds.
pub stats_of_balance :
    (rows : List TorrentRow)
    → length rows ≤ u32_max
    → ((stats_of rows).active + (stats_of rows).paused ≡ length rows)
      × ((stats_of rows).active ≡ (stats_of rows).downloading + (stats_of rows).seeding)
      × ((stats_of rows).queued + (stats_of rows).failed ≤ (stats_of rows).paused)
stats_of_balance rows h =
    let c = stats_of-Counts rows h in
    (
      omega (arith, c.running, c.still, in_state_total rows),
      omega (arith, c.running, c.down, c.seeds),
      omega (arith, c.still, c.held, c.bad),
    )
