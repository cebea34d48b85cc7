-- ===== src/Prom/Shards/Windows.antt =====
-- The windows that `ComputeWindowShards` makes, and how far they reach.
use fadvisor.Prelude.{
  ℕ, zero, suc, ◌+◌, ◌-◌, ◌*◌, ◌/◌, ◌≤◌, ◌<◌, ◌≡◌, min, some, List, [], ◌∷◌, arith, length,
}
use fadvisor.Prelude.Outcome.{ok}
use fadvisor.Prom.Shards.{Range, shards_num, shards_from, compute_window_shards}
use fadvisor.Prom.Shards.Points.{possible_points_lem}

-- Each window begins where the one before it ends, is no wider than `width`, and lies before `limit`.
abbrev pub IsChain : ℕ → ℕ → ℕ → ℕ → List Range → Type 0
IsChain step width limit s [] = Unit
IsChain step width limit s (r ∷ rs) =
    (r.start ≡ s)
    × (r.start ≤ r.end)
    × (r.end ≤ r.start + width)
    × (r.end ≤ limit)
    × (r.step ≡ step)
    × IsChain step width limit r.end rs

-- Where the last window ends.
abbrev pub reach : ℕ → List Range → ℕ
reach s [] = s
reach s (r ∷ rs) = reach r.end rs

shards_from_lem :
    (n : ℕ) (w : Range) (width s : ℕ)
    → s ≤ w.end
    → let shards = shards_from n w width s s in
      IsChain w.step width w.end s shards
      × (length shards ≡ n)
      × (reach s shards ≡ min w.end (s + n * width))
unfolding shards_from
shards_from_lem zero w width s h = omega arith
shards_from_lem (suc n) w width s h =
    ground (arith, shards_from_lem n w width (s + width), shards_from_lem n w width w.end)

pub shards_num_lem :
    (points max : ℕ)
    → 0 < max
    → (points ≤ shards_num points max * max) × (shards_num points max * max < points + max)
unfolding shards_num
shards_num_lem points max h = grind arith

-- If the step and the limit are not 0 and the range is not empty, the code makes just so many
-- windows as a division of the points by the limit, rounded up, gives. They follow one another
-- without a gap from the start on, stay in the range, and none has more points than the limit
-- allows: it is no wider than `max - 1` steps. They end at the end of the range, or where that many
-- widths end if that is earlier.
pub compute_window_shards_lem :
    (w : Range) (max : ℕ)
    → 0 < w.step
    → w.start ≤ w.end
    → 0 < max
    → let points = (w.end - w.start) / w.step + 1 in
      let n = shards_num points max in
      let width = (max - 1) * w.step in
      (shards : List Range) × (compute_window_shards w max ≡ some (ok shards))
      × (length shards ≡ n)
      × (points ≤ n * max)
      × (n * max < points + max)
      × IsChain w.step width w.end w.start shards
      × (reach w.start shards ≡ min w.end (w.start + n * width))
unfolding compute_window_shards
compute_window_shards_lem w max p q h =
    let points : ℕ = (w.end - w.start) / w.step + 1 in
    let n = shards_num points max in
    let (chain, count, far) = shards_from_lem n w ((max - 1) * w.step) w.start q in
    let (enough, least) = shards_num_lem points max h in
    (
      shards_from n w ((max - 1) * w.step) w.start w.start,
      ground (arith, possible_points_lem w p),
      count,
      enough,
      least,
      chain,
      far,
    )
