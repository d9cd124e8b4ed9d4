-- ===== src/Arrival/Moving.antt =====
-- When a torrent is let go for a move, and what a move that failed leaves it in.
use zerem.Prelude.{
  ℕ, Bool, true, ◌&&◌, none, some, [], ◌==◌, if◌then◌else◌, is_nil, ◌≡◌, refl, ap, ◌∙◌, arith,
  Bool-cases, inl, inr,
}
use zerem.Prelude.Text.{Text}
use zerem.Carry
use zerem.Carry.{Fault}
use zerem.Session.{Entry, Session, Keepsake, Move, Answers, enforce_queue}
use zerem.Session.Entries.{get_entry, get-change}
use zerem.Session.Adding.{Adder, notify}
use zerem.Arrival.{carried, Ending, failed, pause_for_move, after_failure, finish_move}

finish-fault :
    (forgets : Bool) (adder : Adder) (says : Ending → Text) (s : Session) (m : Move) (why : Fault)
    → s.moving ≡ some m
    → finish_move forgets adder says s (carried (some why))
      ≡ (after_failure (notify (record s { moving = none }) (says failed)) m.id m.keepsake, failed)
unfolding finish_move
finish-fault forgets adder says s m why moving = rw (moving, finish_move) refl

idle_queue :
    (os : Answers) (s : Session) → (s.limit == 0) ≡ true → s.queued ≡ [] → enforce_queue os s ≡ s
unfolding enforce_queue
idle_queue os s unlimited none_held =
    let free : (s.limit == 0 && is_nil s.queued) ≡ true = rw unlimited (ap is_nil none_held) in
    simp (free)

-- What a move leaves of a torrent that it stopped and could not move.
abbrev stopped : Keepsake → Entry → Entry
stopped k e =
    if k.was_running
    then record e { paused = true; wanted_running = true }
    else record e { paused = true }

paused-entry :
    (os : Answers) (s : Session) (id : ℕ) (e : Entry)
    → get_entry id s.entries ≡ some e
    → os.pause_ok id ≡ true
    → get_entry id (pause_for_move os s id).entries ≡ some (record e { paused = true })
unfolding pause_for_move
paused-entry os s id e there stops =
    rw stops (get-change (λ f. record f { paused = true }) id s.entries (λ f. refl) ∙ rw there refl)

after-entry :
    (s : Session) (id : ℕ) (k : Keepsake) (e : Entry)
    → get_entry id s.entries ≡ some e
    → get_entry id (after_failure s id k).entries
      ≡ some (if k.was_running then record e { wanted_running = true } else e)
unfolding after_failure
after-entry s id k e there = elim (Bool-cases (k.was_running)) [
  | inl was ↦ rw was (
      get-change (λ f. record f { wanted_running = true }) id s.entries (λ f. refl) ∙ rw there refl)
  | inr was_not ↦ rw was_not there
]

-- A move that fails leaves its torrent stopped for good where no limit is set and nothing is held back,
-- however much it is wanted: the queue that is to start it again has nothing to do then. It is asked
-- that the library stopped the torrent for the move.
pub failed_move-stopped :
    (os : Answers) (forgets : Bool) (adder : Adder) (says : Ending → Text) (s : Session) (m : Move)
    (why : Fault) (e : Entry)
    → get_entry m.id s.entries ≡ some e
    → os.pause_ok m.id ≡ true
    → (s.limit == 0) ≡ true
    → s.queued ≡ []
    → m.keepsake.was_running ≡ true
    → get_entry m.id
        (enforce_queue os
          (finish_move forgets adder says
            (record (pause_for_move os s m.id) { moving = some m })
            (carried (some why))).0).entries
      ≡ some (record e { paused = true; wanted_running = true })
failed_move-stopped os forgets adder says s m why e there stops unlimited none_held was =
    let under_way = record (pause_for_move os s m.id) { moving = some m } in
    let over = notify (record under_way { moving = none }) (says failed) in
    let left = after_failure over m.id m.keepsake in
    let ended : (finish_move forgets adder says under_way (carried (some why))).0 ≡ left =
      ap (λ r. r.0) (finish-fault forgets adder says under_way m why refl) in
    ap (λ t. get_entry m.id (enforce_queue os t).entries) ended
    ∙ ap (λ t. get_entry m.id t.entries)
        (idle_queue os left (same_limit os s m says unlimited) (same_queue os s m says none_held))
    ∙ after-entry over m.id m.keepsake (record e { paused = true })
        (kept os s m says e (paused-entry os s m.id e there stops))
    ∙ rw was refl
  where
    same_limit :
        (os : Answers) (s : Session) (m : Move) (says : Ending → Text)
        → (s.limit == 0) ≡ true
        → ((after_failure
              (notify (record (pause_for_move os s m.id) { moving = none }) (says failed))
              m.id
              m.keepsake).limit
            == 0)
          ≡ true
    same_limit os s m says h = unfold after_failure notify pause_for_move in ground arith

    same_queue :
        (os : Answers) (s : Session) (m : Move) (says : Ending → Text)
        → s.queued ≡ []
        → (after_failure
            (notify (record (pause_for_move os s m.id) { moving = none }) (says failed))
            m.id
            m.keepsake).queued
          ≡ []
    same_queue os s m says h = unfold after_failure notify pause_for_move in ground arith

    kept :
        (os : Answers) (s : Session) (m : Move) (says : Ending → Text) (e : Entry)
        → get_entry m.id (pause_for_move os s m.id).entries ≡ some (record e { paused = true })
        → get_entry m.id
            (notify (record (pause_for_move os s m.id) { moving = none }) (says failed)).entries
          ≡ some (record e { paused = true })
    kept os s m says e h = unfold notify in h
