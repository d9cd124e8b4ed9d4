-- ===== src/Examples/SessionExamples.antt =====
-- Tests of crates/zerem-engine/src/session.rs.
use zerem.Prelude.{true, false, [], ◌∷◌, map, All, ◌≡◌, refl}
use zerem.Prelude.Text.{codes}
use zerem.Queue.{admit}
use zerem.Session.{new_entry, settle_one, admitted_of, enforce_queue, set_running}
use zerem.Examples.Fixtures.{obedient, session, running_one, running_two}
use zerem.Session.Enforcing.{Obeys, enforce_queue-Obeys}

-- The later one waits.
one_waits : enforce_queue obedient session ≡ record session {
  entries = record running_one { paused = true } ∷ running_two ∷ [];
  queued = codes "aa" ∷ [];
}
unfolding enforce_queue admit settle_one new_entry
one_waits = refl

-- Start means now: the other one has to wait.
start_now :
    (set_running obedient (enforce_queue obedient session) 1 true).0.queued ≡ codes "bb" ∷ []
unfolding set_running enforce_queue admit settle_one new_entry
start_now = refl

-- A download that failed keeps its turn, and the one behind it does not start.
failed_first :
    map
      (λ e. e.paused)
      (enforce_queue obedient (record session {
        entries = record running_one { paused = true } ∷ record running_two { failed = true } ∷ [];
      })).entries
    ≡ true ∷ false ∷ []
unfolding enforce_queue admit settle_one new_entry
failed_first = refl

enforce_queue-Obeys_example :
    All
      (Obeys (admitted_of (enforce_queue obedient session)))
      (enforce_queue obedient session).entries
enforce_queue-Obeys_example = enforce_queue-Obeys obedient session (λ id. (refl, refl)) refl
