-- ===== src/Examples/HistoryExamples.antt =====
-- Tests of crates/zerem-core/src/history.rs.
use zerem.Prelude.{ℕ, some, List, [], ◌∷◌, ◌≡◌, refl}
use zerem.Prelude.Text.{codes}
use zerem.History.{default, push, clear, series, spark}
use zerem.History.Ring.{IsRing, recent, push_all, series-recent, push-IsRing, default-IsRing}
use zerem.History.Plot.{Within, scale_of-Within}

abbrev two_samples : List (ℕ × ℕ)
two_samples = (50, 10) ∷ (100, 0) ∷ []

series_two : series (push_all (clear default) two_samples) ≡ two_samples
unfolding series clear default push
series_two = refl

spark_two :
    spark (push_all default two_samples)
    ≡ some (record { down = codes "M 58 50 L 59 0 "; up = codes "M 58 90 L 59 100 " })
unfolding spark default push
spark_two = refl

series-recent_example : series (push_all (clear default) two_samples) ≡ recent two_samples
series-recent_example = series-recent default two_samples

scale_of-Within_example : Within 100 two_samples
scale_of-Within_example = scale_of-Within two_samples refl

push-IsRing_example : IsRing (push default 5 6)
push-IsRing_example = push-IsRing default 5 6 default-IsRing
