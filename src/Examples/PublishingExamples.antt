-- ===== src/Examples/PublishingExamples.antt =====
-- Tests of what crates/zerem-engine/src/session.rs publishes.
use zerem.Prelude.{ℕ, none, some, true, false, [], ◌∷◌, ◌≡◌, refl, List, ◌+◌, ◌==◌}
use zerem.Prelude.Text.{Text, codes}
use zerem.Mapping.{halted}
use zerem.Session.Adding.{notify}
use zerem.Session.Publishing.{Reports}
use zerem.Session.Publishing.Announcing.{
  announcements, rises, wholes, is_whole, notices, shown_for, announcements-rises, notify-shown,
}
use zerem.Examples.Fixtures.{session, running_one}

-- A report of so many of a hundred bytes.
abbrev at_bytes : ℕ → Reports
at_bytes n = record {
  tr = λ t. t;
  windows = false;
  to_lowercase = λ t. t;
  show = λ p. [];
  stats = λ id. record {
    state = halted;
    finished = n == 100;
    total_bytes = 100;
    progress_bytes = n;
    uploaded_bytes = 0;
    error = none;
    live = none;
  };
  down = λ id. 0;
  up = λ id. 0;
  peers = λ id. none;
}

abbrev later : List (Reports × List Text)
later = (at_bytes 100, []) ∷ (at_bytes 100, []) ∷ (at_bytes 0, []) ∷ (at_bytes 100, []) ∷ []

announced : false ∷ rises false (wholes 1 later) ≡ false ∷ true ∷ false ∷ false ∷ true ∷ []
announced = refl

announcements-rises_example :
    announcements ((at_bytes 50, []) ∷ later) running_one
    ≡ false ∷ rises (is_whole (at_bytes 50) 1) (wholes 1 later)
announcements-rises_example = announcements-rises (at_bytes 50, []) later running_one refl

notify-shown_example :
    notices (7 + 2) (notify session (codes "hello")).notice
    ≡ some (codes "hello")
      ∷ some (codes "hello")
      ∷ some (codes "hello")
      ∷ some (codes "hello")
      ∷ some (codes "hello")
      ∷ some (codes "hello")
      ∷ some (codes "hello")
      ∷ shown_for 1 2 (codes "hello")
notify-shown_example = notify-shown session (codes "hello") 2
