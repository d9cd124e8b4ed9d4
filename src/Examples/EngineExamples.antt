-- ===== src/Examples/EngineExamples.antt =====
-- Tests of crates/zerem-engine/src/lib.rs.
use zerem.Prelude.{none, true, false, [], ◌∷◌, ◌≡◌, refl}
use zerem.Prelude.Text.{codes}
use zerem.Prelude.Paths.{normal}
use zerem.History.{default}
use zerem.Mapping.{halted}
use zerem.Snapshot.{new_snapshot}
use zerem.Session.Adding.{timed_out, notify}
use zerem.Session.Publishing.{Reports, publish}
use zerem.Arrival.{running}
use zerem.Engine.{World, Engine, tick, turn, obey, told, remove_torrent}
use zerem.Engine.Turning.{turn-hidden}
use zerem.Examples.Fixtures.{obedient, session}

abbrev reports : Reports
reports = record {
  tr = λ t. t;
  windows = false;
  to_lowercase = λ t. t;
  show = λ p. [];
  stats = λ id. record {
    state = halted;
    finished = false;
    total_bytes = 100;
    progress_bytes = 50;
    uploaded_bytes = 0;
    error = none;
    live = none;
  };
  down = λ id. 0;
  up = λ id. 0;
  peers = λ id. none;
}

abbrev world : World
world = record {
  os = obedient;
  cut = λ t. normal t ∷ [];
  adder = λ bytes only folder stopped. none;
  answer = λ link. timed_out;
  forgets = true;
  exists = λ p. true;
  made = true;
  words = λ c. codes "no";
  says = λ e. codes "failed";
  task = running;
  reports = reports;
  stream = none;
  sweep = λ s. s;
}

abbrev engine : Engine
engine = record { session = session; latest = new_snapshot 0 0 []; was_paused = true }

-- A command that names no torrent says so.
unknown_torrent :
    told world (remove_torrent 9 false) (obey world session (remove_torrent 9 false))
    ≡ notify session (codes "no")
unfolding told obey
unknown_torrent = refl

turn-hidden_example :
    (record ((turn world true engine tick).session) { history = default }
      ≡ record ((turn world false engine tick).session) { history = default })
    × ((turn world true engine tick).latest ≡ engine.latest)
    × ((publish world.reports world.stream (turn world true engine tick).session).1.finished ≡ [])
turn-hidden_example = turn-hidden world engine default
