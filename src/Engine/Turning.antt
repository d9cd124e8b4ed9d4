-- ===== src/Engine/Turning.antt =====
-- What the loop keeps to, turn by turn.
use zerem.Prelude.{true, false, List, [], ◌∷◌, ◌≡◌, refl, Bool-cases, inl, inr}
use zerem.Prelude.Text.{Text}
use zerem.History.{History}
use zerem.Session.{Entry}
use zerem.Session.Publishing.{Reports, publish_all, publish, forget_history}
use zerem.Session.Publishing.Announcing.{published_again}
use zerem.Engine.{World, Engine, tick, act, settle_turn, turn}

-- A second publish of the same reports names no torrent as finished.
no_names :
    (r : Reports) (queue : List Text) (entries : List Entry)
    → (publish_all r queue (publish_all r queue entries).0).2 ≡ []
no_names r queue [] = refl
no_names r queue (e ∷ entries) = rw (published_again r queue e) (no_names r queue entries)

-- A tick does the same to the session whether or not the window is hidden, the history of the rates
-- aside: no torrent's turn or move and no notice's time waits for the window. The snapshot of a hidden
-- tick is dropped, and with it the names of the torrents that finished: the window still reads the one
-- before, and a snapshot made behind the hidden tick from the same reports names none of them.
pub turn-hidden :
    (w : World) (e : Engine) (h : History)
    → (record ((turn w true e tick).session) { history = h }
        ≡ record ((turn w false e tick).session) { history = h })
      × ((turn w true e tick).latest ≡ e.latest)
      × ((publish w.reports w.stream (turn w true e tick).session).1.finished ≡ [])
unfolding turn act publish forget_history
turn-hidden w e h = (
  elim (Bool-cases (e.was_paused)) [ inl was ↦ rw was refl | inr was_not ↦ rw was_not refl ],
  refl,
  no_names w.reports (settle_turn w e.session).queued (settle_turn w e.session).entries,
)
