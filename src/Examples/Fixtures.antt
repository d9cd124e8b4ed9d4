-- ===== src/Examples/Fixtures.antt =====
-- A small session that the tests share.
use zerem.Prelude.{some, none, true, false, [], ◌∷◌}
use zerem.Prelude.Text.{codes}
use zerem.Prelude.Int.{pos, negsuc}
use zerem.Prelude.Paths.{root_dir, normal}
use zerem.History.{default}
use zerem.Session.{Handle, Entry, Session, Answers}

abbrev pub obedient : Answers
obedient = record {
  unpause_ok = λ id. true;
  pause_ok = λ id. true;
  update_ok = λ id. true;
  write_ok = true;
}

abbrev pub handle_one : Handle
handle_one = record {
  id = 1;
  info_hash = codes "aa";
  name = some (codes "One");
  folder = root_dir ∷ normal (codes "in") ∷ [];
  metadata = some (record {
    files =
        (normal (codes "a.mkv") ∷ [], 700)
        ∷ (normal (codes "b.txt") ∷ [], 4)
        ∷ (normal (codes "c.txt") ∷ [], 5)
        ∷ [];
    bytes = 1 ∷ 2 ∷ [];
  });
  progress = 10 ∷ 4 ∷ 0 ∷ [];
  only_files = none;
  paused = false;
  failed = false;
  finished = false;
}

abbrev pub running_one : Entry
running_one = record {
  id = 1;
  info_hash = codes "aa";
  name = some (codes "One");
  folder = handle_one.folder;
  metadata = handle_one.metadata;
  progress = 10 ∷ 4 ∷ 0 ∷ [];
  only_files = none;
  paused = false;
  failed = false;
  finished = false;
  known_name = none;
  content = none;
  still = 0;
  wanted = [];
  first = [];
  wanted_running = true;
  position = pos 1;
  was_complete = none;
}

abbrev pub running_two : Entry
running_two = record running_one {
  id = 2;
  info_hash = codes "bb";
  name = none;
  metadata = none;
  position = pos 0;
}

abbrev pub session : Session
session = record {
  entries = running_one ∷ running_two ∷ [];
  seq = 0;
  generation = 1;
  notice = none;
  output_dir = root_dir ∷ normal (codes "in") ∷ [];
  watching = none;
  reading = none;
  pending = none;
  pending_bytes = none;
  keep_dir = none;
  arrived = [];
  moving = none;
  history = default;
  journal = record { entries = []; file = none };
  limit = 1;
  next_back = pos 2;
  next_front = negsuc 0;
  queued = [];
  add_paused = false;
}
