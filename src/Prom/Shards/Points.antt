-- ===== src/Prom/Shards/Points.antt =====
-- How many points the loops of `ComputeWindowShards` and `CheckMaxLimit` count.
use fadvisor.Prelude.{
  ℕ, zero, suc, ◌+◌, ◌-◌, ◌/◌, ◌≤◌, ◌<◌, ◌≡◌, refl, ap, none, some, arith, leb, ltb, if◌then◌else◌,
}
use fadvisor.Prom.Shards.{
  Range, count_points, count_points_before, possible_points, check_max_limit, points_limit,
}

div_step : (a s : ℕ) → 0 < s → s ≤ a → a / s ≡ (a - s) / s + 1
div_step a s p h = grind arith

div_small : (a s : ℕ) → a < s → a / s ≡ 0
div_small a s h = grind arith

count_points_lem :
    (fuel start end step : ℕ)
    → 0 < step
    → end < fuel + start
    → count_points (suc fuel) start end step
      ≡ some (if leb start end then (end - start) / step + 1 else 0)
unfolding count_points
count_points_lem zero start end step p h = ground arith
count_points_lem (suc fuel) start end step p h = ground (
  arith,
  count_points_lem fuel (start + step) end step p (omega arith),
  div_step (end - start) step p,
  div_small (end - start) step,
)

sub_sub : (a b c : ℕ) → a - (b + c) ≡ a - b - c
sub_sub a b c = omega arith

round_up_step : (a s : ℕ) → 0 < s → 0 < a → (a + (s - 1)) / s ≡ (a - s + (s - 1)) / s + 1
round_up_step a s p q = ground (
  arith,
  div_step (a + (s - 1)) s p,
  div_small (a - 1) s,
  div_small (a - s + (s - 1)) s,
  ap (λ (t : ℕ). t / s) (regroup a s p q),
)
  where
    regroup : (a s : ℕ) → 0 < s → 0 < a → a + (s - 1) - s ≡ a - 1
    regroup a s p q = omega arith

count_points_before_lem :
    (fuel start end step : ℕ)
    → 0 < step
    → end < fuel + start
    → count_points_before (suc fuel) start end step ≡ some ((end - start + (step - 1)) / step)
unfolding count_points_before
count_points_before_lem zero start end step p h =
    ground (arith, div_small (end - start + (step - 1)) step)
count_points_before_lem (suc fuel) start end step p h = ground (
  arith,
  count_points_before_lem fuel (start + step) end step p (omega arith),
  round_up_step (end - start) step p,
  div_small (end - start + (step - 1)) step,
  ap (λ (t : ℕ). (t + (step - 1)) / step) (sub_sub end start step),
)

-- If the step is not 0, the loop of `ComputeWindowShards` ends, and counts the instants
-- `start + i * step` that are not behind `end`.
pub possible_points_lem :
    (w : Range)
    → 0 < w.step
    → possible_points w ≡ some (if leb w.start w.end then (w.end - w.start) / w.step + 1 else 0)
unfolding possible_points
possible_points_lem w p =
    count_points_lem (suc (w.end - w.start)) w.start w.end w.step p (omega arith)

-- If the step is 0 and the end is not before the start, no number of rounds ends that loop.
pub count_points_diverges :
    (fuel start end : ℕ) → start ≤ end → count_points fuel start end 0 ≡ none
unfolding count_points
count_points_diverges zero start end h = refl
count_points_diverges (suc fuel) start end h =
    ground (arith, count_points_diverges fuel (start + 0) end (omega arith))

-- If the step is not 0, `CheckMaxLimit` ends, and answers whether the steps from the start to
-- before the end, the last one counted whole, are more than 11000.
pub check_max_limit_lem :
    (w : Range)
    → 0 < w.step
    → check_max_limit w ≡ some (ltb points_limit ((w.end - w.start + (w.step - 1)) / w.step))
unfolding check_max_limit
check_max_limit_lem w p =
    ground
      (arith, count_points_before_lem (suc (w.end - w.start)) w.start w.end w.step p (omega arith))
