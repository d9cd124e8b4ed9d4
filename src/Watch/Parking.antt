-- ===== src/Watch/Parking.antt =====
-- What has been dealt with is not picked up again.
use mathlib.Core.List.{reverse, reverse-append}
use zerem.Prelude.{false, List, [], ◌∷◌, ◌++◌, keep-append, map, ◌≡◌, refl, ap, ◌∙◌, map-append}
use zerem.Prelude.Text.{Text, codes, to_ascii_lowercase, ascii_lower, ends_with, starts_with}
use zerem.Watch.{WatchOutcome, added, failed, torrent_suffix, is_waiting, parked, waiting}

reversed :
    (name tail : Text)
    → reverse (to_ascii_lowercase (name ++ tail))
      ≡ reverse (to_ascii_lowercase tail) ++ reverse (to_ascii_lowercase name)
reversed name tail =
    ap reverse (map-append ascii_lower name tail)
    ∙ reverse-append (to_ascii_lowercase name) (to_ascii_lowercase tail)

-- A name that carries the outcome is not waiting, whatever it was called.
pub parked-is_waiting :
    (name : Text) (outcome : WatchOutcome) → is_waiting (parked name outcome) ≡ false
unfolding is_waiting parked
parked-is_waiting name added =
    let ending : ends_with torrent_suffix (to_ascii_lowercase (name ++ codes ".added")) ≡ false =
      ap (starts_with (reverse torrent_suffix)) (reversed name (codes ".added")) in
    rw ending refl
parked-is_waiting name failed =
    let ending : ends_with torrent_suffix (to_ascii_lowercase (name ++ codes ".failed")) ≡ false =
      ap (starts_with (reverse torrent_suffix)) (reversed name (codes ".failed")) in
    rw ending refl

parked_all :
    (listing : List Text) (outcome : WatchOutcome)
    → waiting (map (λ name. parked name outcome) listing) ≡ []
unfolding waiting
parked_all [] outcome = refl
parked_all (name ∷ listing) outcome =
    rw (parked-is_waiting name outcome) (parked_all listing outcome)

-- Once everything that waited has its outcome in its name, a scan of the folder finds nothing: what else
-- is there did not wait before.
waiting-parked :
    (others listing : List Text) (outcome : WatchOutcome)
    → waiting others ≡ []
    → waiting (others ++ map (λ name. parked name outcome) (waiting listing)) ≡ []
unfolding waiting
waiting-parked others listing outcome h =
    keep-append is_waiting others (map (λ name. parked name outcome) (waiting listing))
    ∙ ap (λ found. found ++ waiting (map (λ name. parked name outcome) (waiting listing))) h
    ∙ parked_all (waiting listing) outcome
