-- ===== src/Torrent/Transitions.antt =====
-- What `pause`, `fail` and `resume` leave of a row, and what the window is told of it.
use zerem.Prelude.{true, false, none, some, ◌≡◌, ◌↔◌, refl, arith}
use zerem.Prelude.Text.{Text}
use zerem.Torrent.{
  Stall, State, error, TorrentRow, kind, is_fault, pause, fail, resume, is_active, status_kind,
  status_text,
}

-- The window tells a state by its number: no two states share one.
pub kind-injective : (a b : State) → kind a ≡ kind b → a ≡ b
unfolding kind
kind-injective a b h = ground arith

-- The number 5 is shown exactly for a row that is stalled by a fault: no state has it.
pub status_kind_stalled :
    (row : TorrentRow)
    → (status_kind row ≡ 5) ↔ ((s : Stall) × (row.stall ≡ some s) × (is_fault s ≡ true))
unfolding status_kind
status_kind_stalled row = (λ h. ground arith, λ (s, e, f). ground arith)

-- A row that failed is not active, shows its reason and not its stall, and moves nothing.
pub record Failed (tr : Text → Text) (reason : Text) (row : TorrentRow) : Type 0 where
  pub inactive : is_active row ≡ false
  pub shown : status_text tr row ≡ reason
  pub numbered : status_kind row ≡ kind error
  pub down : row.down_bps ≡ 0
  pub up : row.up_bps ≡ 0
  pub no_eta : row.eta ≡ none

pub fail-Failed :
    (tr : Text → Text) (row : TorrentRow) (reason : Text) → Failed tr reason (fail row reason)
unfolding fail is_active status_text status_kind
fail-Failed tr row reason = record {
  inactive = refl;
  shown = refl;
  numbered = refl;
  down = refl;
  up = refl;
  no_eta = refl;
}

-- Resuming forgets the failure: it is as if the row had only been paused. And a resumed row is
-- active, whatever it was.
pub resume-fail :
    (row : TorrentRow) (reason : Text)
    → (resume (fail row reason) ≡ resume (pause row)) × (is_active (resume row) ≡ true)
unfolding fail resume is_active
resume-fail row reason = (refl, ground arith)
