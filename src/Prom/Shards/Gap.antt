-- ===== src/Prom/Shards/Gap.antt =====
-- Which points of a range the windows of `ComputeWindowShards` miss.
use native.Mathlib.Nat.{mul-le-mul_right, le_of_mul-le-mul_right, div-mul-le_self, mul_assoc}
use fadvisor.Prelude.{ℕ, zero, suc, ◌+◌, ◌-◌, ◌*◌, ◌/◌, ◌≤◌, ◌<◌, ◌≡◌, ◌↔◌, min, some, List, arith}
use fadvisor.Prelude.Outcome.{ok}
use fadvisor.Prom.Shards.{Range, shards_num, compute_window_shards}
use fadvisor.Prom.Shards.Windows.{reach, shards_num_lem, compute_window_shards_lem}

scale_iff : (a b s : ℕ) → 0 < s → (a * s ≤ b * s) ↔ (a ≤ b)
scale_iff a b s p = ((λ h. le_of_mul-le-mul_right h p), mul-le-mul_right s)

reach-eq-min :
    (w : Range) (max : ℕ) (shards : List Range)
    → 0 < w.step
    → w.start ≤ w.end
    → 0 < max
    → compute_window_shards w max ≡ some (ok shards)
    → let n = shards_num ((w.end - w.start) / w.step + 1) max in
      reach w.start shards ≡ min w.end (w.start + n * (max - 1) * w.step)
reach-eq-min w max shards p q h e =
    let (shards', made, _, _, _, _, far) = compute_window_shards_lem w max p q h in
    let same : shards ≡ shards' = ground (arith, e, made) in
    let n = shards_num ((w.end - w.start) / w.step + 1) max in
    rw (same, mul_assoc n (max - 1) w.step) far

-- If the step and the limit are not 0 and the range is not empty, the last window ends at or behind
-- the last point, `start + (points - 1) * step`, exactly when the points are no more than
-- `n * (max - 1) + 1`, where `n` is the number of windows: neighbouring windows share a point.
pub reach_iff :
    (w : Range) (max : ℕ) (shards : List Range)
    → 0 < w.step
    → w.start ≤ w.end
    → 0 < max
    → compute_window_shards w max ≡ some (ok shards)
    → let points = (w.end - w.start) / w.step + 1 in
      (w.start + (points - 1) * w.step ≤ reach w.start shards)
      ↔ (points ≤ shards_num points max * (max - 1) + 1)
reach_iff w max shards p q h e =
    let points = (w.end - w.start) / w.step in
    let n = shards_num (points + 1) max in
    let far = reach-eq-min w max shards p q h e in
    let inside = div-mul-le_self (w.end - w.start) w.step in
    let (down, up) = scale_iff points (n * (max - 1)) w.step p in
    let drop_one : points + 1 - 1 ≡ points = omega arith in
    rw drop_one ((λ a. omega (arith, down (omega arith))), (λ b. omega (arith, up (omega arith))))

shards_num_multiple : (k max : ℕ) → 0 < max → shards_num (k * max) max ≡ k
shards_num_multiple k max h =
    let (enough, least) = shards_num_lem (k * max) max h in
    let up = le_of_mul-le-mul_right enough h in grind arith

too_few : (k max : ℕ) → 0 < max → 2 ≤ k → ¬ (k * max ≤ k * (max - 1) + 1)
too_few k (suc max) h two a = grind arith
too_few k zero h two a = omega arith

-- If the step and the limit are not 0, the range is not empty, and the points are a multiple of the
-- limit, `k` times with `k` at least 2, then the last point lies behind the end of the last window.
pub last_point_missed :
    (w : Range) (max k : ℕ) (shards : List Range)
    → 0 < w.step
    → w.start ≤ w.end
    → 0 < max
    → 2 ≤ k
    → (w.end - w.start) / w.step + 1 ≡ k * max
    → compute_window_shards w max ≡ some (ok shards)
    → reach w.start shards < w.start + (k * max - 1) * w.step
last_point_missed w max k shards p q h two m e =
    let number : shards_num (k * max) max ≡ k = shards_num_multiple k max h in
    let reached = rw (m, number) at (reach_iff w max shards p q h e).0 in
    let far : ¬ (w.start + (k * max - 1) * w.step ≤ reach w.start shards) =
      λ a. too_few k max h two (reached a) in
    omega arith
