-- ===== src/Prom/Shards.antt =====
-- `ComputeWindowShards` and `CheckMaxLimit` of
-- pkg/datasource-providers/prom/ctx.go: a range query is cut into windows of at most so many points.
-- Instants and steps are numbers of nanoseconds; they are small enough that no sum wraps.
pub mod Points
pub mod Windows
pub mod Gap
use fadvisor.Prelude.{
  ℕ, zero, suc, ◌+◌, ◌-◌, ◌*◌, ◌/◌, ◌%◌, Bool, Option, none, some, List, [], ◌∷◌, ltb, leb, ◌==◌,
  if◌then◌else◌,
}
use fadvisor.Prelude.Outcome.{Outcome, ok, err, panic, ◌>>=◌}

-- `promapiv1.Range`
pub record Range : Type 0 where
  pub start : ℕ
  pub end : ℕ
  pub step : ℕ

-- `PrometheusPointsLimitPerTimeSeries`
abbrev pub points_limit : ℕ
points_limit = 11000

-- `for start := ...; start.Before(end) || start.Equal(end); start = start.Add(step)`: the rounds from
-- `start` on, or `none` where the fuel ends first.
pub count_points : ℕ → ℕ → ℕ → ℕ → Option ℕ
count_points zero start end step = none
count_points (suc fuel) start end step =
    let rest = count_points fuel (start + step) end step in
    if leb start end then elim rest [ none ↦ none | some n ↦ some (suc n) ] else some 0

-- `start.Before(end)` alone, in `CheckMaxLimit`.
pub count_points_before : ℕ → ℕ → ℕ → ℕ → Option ℕ
count_points_before zero start end step = none
count_points_before (suc fuel) start end step =
    let rest = count_points_before fuel (start + step) end step in
    if ltb start end then elim rest [ none ↦ none | some n ↦ some (suc n) ] else some 0

-- With a step that is not 0 each round moves the start by one at least, so these many rounds are
-- enough.
abbrev pub fuel_of : Range → ℕ
fuel_of w = suc (suc (w.end - w.start))

unfoldable pub possible_points : Range → Option ℕ
unfolding count_points
possible_points w = count_points (fuel_of w) w.start w.end w.step

unfoldable pub check_max_limit : Range → Option Bool
unfolding count_points_before
check_max_limit w = elim (count_points_before (fuel_of w) w.start w.end w.step) [
  | none ↦ none
  | some n ↦ some (ltb points_limit n)
]

pub shards_num : ℕ → ℕ → ℕ
shards_num points max = if ltb 0 (points % max) then points / max + 1 else points / max

-- The loop that makes `left` more windows: `s` and `e` are its two variables.
pub shards_from : ℕ → Range → ℕ → ℕ → ℕ → List Range
shards_from zero w width s e = []
shards_from (suc left) w width s e =
    let e' = if ltb w.end (e + width) then w.end else e + width in
    record { start = s; end = e'; step = w.step } ∷ shards_from left w width e' e'

-- `none` where the first loop does not end; a limit of 0 is a division by zero.
unfoldable pub compute_window_shards : Range → ℕ → Option (Outcome (List Range))
unfolding possible_points shards_num shards_from
compute_window_shards w max = elim (possible_points w) [
  | none ↦ none
  | some points ↦ some (
      if max == 0
      then panic
      else ok (shards_from (shards_num points max) w ((max - 1) * w.step) w.start w.start))
]
