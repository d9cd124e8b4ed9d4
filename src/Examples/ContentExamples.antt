-- ===== src/Examples/ContentExamples.antt =====
-- Tests of crates/zerem-core/src/content.rs.
use zerem.Prelude.{ℕ, zero, suc, ◌<◌, ◌*◌, List, [], ◌∷◌, ◌≡◌, refl, arith}
use zerem.Prelude.Text.{codes}
use zerem.Prelude.Paths.{normal}
use zerem.Content.{video, unknown, mixed, Sized, slot_of, of_files}
use zerem.Content.Majority.{bytes_in, total_len, of_files-kind}

abbrev sized : List ℕ → ℕ → Sized
sized name len = record { path = normal name ∷ []; len = len }

abbrev film_and_notes : List Sized
film_and_notes =
    sized (codes "film.MKV") 900 ∷ sized (codes "notes.txt") 10 ∷ sized (codes ".mkv") 5 ∷ []

abbrev halves : List Sized
halves = sized (codes "a.mp3") 50 ∷ sized (codes "b.mkv") 50 ∷ []

film_is_video : of_files film_and_notes ≡ video
unfolding of_files slot_of
film_is_video = refl

half_is_mixed : of_files halves ≡ mixed
unfolding of_files slot_of
half_is_mixed = refl

nothing_is_unknown : of_files [] ≡ unknown
unfolding of_files slot_of
nothing_is_unknown = refl

of_files-kind_example : of_files film_and_notes ≡ video
unfolding slot_of
of_files-kind_example =
    of_files-kind film_and_notes 0 (omega arith) refl (omega arith) (omega arith)

halves_small : (k : ℕ) → k < 6 → bytes_in k halves * 3 < total_len halves * 2
unfolding slot_of
halves_small zero h = omega arith
halves_small (suc zero) h = omega arith
halves_small (suc (suc zero)) h = omega arith
halves_small (suc (suc (suc zero))) h = omega arith
halves_small (suc (suc (suc (suc zero)))) h = omega arith
halves_small (suc (suc (suc (suc (suc zero))))) h = omega arith
halves_small (suc (suc (suc (suc (suc (suc k)))))) h = absurd (omega arith)
