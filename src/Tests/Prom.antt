-- ===== src/Tests/Prom.antt =====
-- Queries over a small range, and samples to merge.
use mathlib.Core.Option.{or_else}
use fadvisor.Prelude.{
  ℕ, ◌+◌, ◌*◌, ◌≤◌, ◌<◌, ◌≡◌, ◌↔◌, refl, min, none, some, List, [], ◌∷◌, arith, String, length,
}
use fadvisor.Prelude.Outcome.{ok}
use fadvisor.Prom.Series.{Sample, merge_samples}
use fadvisor.Prom.Series.Laws.{RisesFrom, sample_at, merge_samples_lem}
use fadvisor.Prom.Shards.{Range, count_points, possible_points, shards_num, compute_window_shards}
use fadvisor.Prom.Shards.Points.{possible_points_lem, count_points_diverges}
use fadvisor.Prom.Shards.Windows.{IsChain, reach, compute_window_shards_lem}
use fadvisor.Prom.Shards.Gap.{reach_iff, last_point_missed}
use fadvisor.Prom.RateLimit.{new_limiter, increase_in_flight_wait, enter, here, next}
use fadvisor.Prom.RateLimit.Laws.{IsBalanced, Reach-IsBalanced}
use fadvisor.Prom.Convert.{
  Metric, PromValue, matrix, convert_prom_results_to_time_series,
  convert_prom_results_to_time_series_map,
}
use fadvisor.Prom.Convert.Laws.{Agree, convert-Agree}

abbrev at : ℕ → ℕ → Sample ℕ
at t v = record { timestamp = t; value = v }

abbrev left : List (Sample ℕ)
left = at 1 10 ∷ at 3 30 ∷ at 3 31 ∷ []

abbrev right : List (Sample ℕ)
right = at 2 200 ∷ at 3 300 ∷ at 7 700 ∷ []

merged : merge_samples left right ≡ some (at 1 10 ∷ at 2 200 ∷ at 3 30 ∷ at 7 700 ∷ [])
unfolding merge_samples
merged = refl

merge_samples_example :
    (out : List (Sample ℕ)) × (merge_samples left right ≡ some out)
    × RisesFrom 0 out
    × ((t : ℕ) → sample_at t out ≡ or_else (sample_at t left) (sample_at t right))
merge_samples_example = merge_samples_lem left right (omega arith) (omega arith)

-- Eight points, four to a window.
abbrev eight : Range
eight = record { start = 100; end = 170; step = 10 }

abbrev pub first_window : Range
first_window = record { start = 100; end = 130; step = 10 }

abbrev pub second_window : Range
second_window = record { start = 130; end = 160; step = 10 }

abbrev pub two_windows : List Range
two_windows = first_window ∷ second_window ∷ []

two_windows_made : compute_window_shards eight 4 ≡ some (ok two_windows)
unfolding compute_window_shards
two_windows_made = refl

possible_points_example : possible_points eight ≡ some 8
possible_points_example = possible_points_lem eight (omega arith)

count_points_diverges_example : count_points 20 100 170 0 ≡ none
count_points_diverges_example = count_points_diverges 20 100 170 (omega arith)

compute_window_shards_example :
    (shards : List Range) × (compute_window_shards eight 4 ≡ some (ok shards))
    × (length shards ≡ shards_num 8 4)
    × (8 ≤ shards_num 8 4 * 4)
    × (shards_num 8 4 * 4 < 8 + 4)
    × IsChain 10 30 170 100 shards
    × (reach 100 shards ≡ min 170 (100 + shards_num 8 4 * 30))
compute_window_shards_example =
    compute_window_shards_lem eight 4 (omega arith) (omega arith) (omega arith)

reach_example : (170 ≤ reach 100 two_windows) ↔ (8 ≤ shards_num 8 4 * 3 + 1)
reach_example =
    reach_iff eight 4 two_windows (omega arith) (omega arith) (omega arith) two_windows_made

last_point_missed_example : 160 < 170
last_point_missed_example =
    last_point_missed eight 4 2 two_windows (omega arith) (omega arith) (omega arith) (omega arith)
      refl two_windows_made

Reach-IsBalanced_example :
    IsBalanced 1 (increase_in_flight_wait (increase_in_flight_wait (new_limiter 1)))
Reach-IsBalanced_example = Reach-IsBalanced 1 (next (next here (enter _)) (enter _))

abbrev pub labels_text : Metric → String
labels_text [] = ""
labels_text ((k, v) ∷ m) = v

abbrev stream_value : PromValue ℕ
stream_value = matrix (
    some (record { metric = ("job", "a") ∷ []; values = (1000, 10) ∷ (2000, 20) ∷ [] })
    ∷ none
    ∷ some (record { metric = ("job", "a") ∷ []; values = (3000, 30) ∷ [] })
    ∷ [])

convert-Agree_example :
    Agree labels_text
      (convert_prom_results_to_time_series stream_value)
      (convert_prom_results_to_time_series_map labels_text stream_value)
convert-Agree_example = convert-Agree labels_text stream_value
