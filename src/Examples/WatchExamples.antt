-- ===== src/Examples/WatchExamples.antt =====
-- Tests of crates/zerem-core/src/watch.rs, of crates/zerem-engine/src/watch.rs, and of the view.
use zerem.Prelude.{true, false, some, none, [], ◌∷◌, if◌then◌else◌, ◌≡◌, refl}
use zerem.Prelude.Text.{Text, codes, text_eq}
use zerem.Watch.{is_waiting, parked, waiting}
use zerem.Sweep.{Files, Replies, put, park, Sweeper, sweep_names, sweep_watch}

picked_up :
    waiting (codes "b.torrent" ∷ codes "notes.txt" ∷ codes "A.TORRENT" ∷ codes ".torrent" ∷ [])
    ≡ codes "b.torrent" ∷ codes "A.TORRENT" ∷ []
unfolding waiting is_waiting
picked_up = refl

others_wait : waiting (codes "notes.txt" ∷ []) ≡ []
unfolding waiting is_waiting
others_wait = refl

abbrev willing : Replies
willing = record { rename_ok = λ files name. true; remove_ok = λ files name. true }

abbrev one_file : Files
one_file name = if text_eq name (codes "a.torrent") then some (1 ∷ 2 ∷ []) else none

abbrev sweeper : Sweeper
sweeper = record { since_sweep = 0; watching = true; notices = [] }

abbrev once : Sweeper × Files
once = sweep_names willing (λ name. true) (codes "a.torrent" ∷ []) (sweeper, one_file)

abbrev twice : Sweeper × Files
twice =
    sweep_names willing (λ name. true) (codes "a.torrent" ∷ [])
      (once.0, put once.1 (codes "a.torrent") (some (9 ∷ [])))

abbrev swept : Sweeper × Files
swept =
    sweep_watch willing (λ name. false) (codes "a.torrent" ∷ [])
      (record { since_sweep = 3; watching = true; notices = [] }, one_file)

-- A torrent that could not be added is told of, and put out of the way.
sweep_fails :
    (swept.0.notices ≡ codes "a.torrent" ∷ [])
    × (swept.1 (codes "a.torrent.failed") ≡ some (1 ∷ 2 ∷ []))
unfolding sweep_watch sweep_names park parked waiting is_waiting
sweep_fails = (refl, refl)
