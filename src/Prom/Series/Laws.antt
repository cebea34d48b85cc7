-- ===== src/Prom/Series/Laws.antt =====
-- `MergeSortedTimeSeries` on sorted series.
use mathlib.Core.Option.{or_else}
use fadvisor.Prelude.{
  ℕ, suc, ◌≤◌, ◌<◌, ◌≡◌, ◌≢◌, refl, ◌∙◌, Option, none, some, List, [], ◌∷◌, arith, ◌==◌,
  if◌then◌else◌,
}
use fadvisor.Prom.Series.{Sample, merge_samples}
use fadvisor.Prom.Series.Sequence.{interleave, first_of_runs, merge_samples-eq-first_of_runs}

module _ {V : Type 0} where
  -- Time stamps never fall, from `lo` on.
  abbrev pub AscendsFrom : ℕ → List (Sample V) → Type 0
  AscendsFrom lo [] = Unit
  AscendsFrom lo (s ∷ ss) = (lo ≤ s.timestamp) × AscendsFrom s.timestamp ss

  abbrev pub IsSorted : List (Sample V) → Type 0
  IsSorted = AscendsFrom 0

  -- Time stamps rise, from `lo` on.
  abbrev pub RisesFrom : ℕ → List (Sample V) → Type 0
  RisesFrom lo [] = Unit
  RisesFrom lo (s ∷ ss) = (lo ≤ s.timestamp) × RisesFrom (suc s.timestamp) ss

  -- The first sample at a time stamp.
  abbrev pub sample_at : ℕ → List (Sample V) → Option (Sample V)
  sample_at t [] = none
  sample_at t (s ∷ ss) = if s.timestamp == t then some s else sample_at t ss

  interleave-AscendsFrom :
      (lo : ℕ) (xs ys : List (Sample V))
      → AscendsFrom lo xs
      → AscendsFrom lo ys
      → AscendsFrom lo (interleave xs ys)
  unfolding interleave
  interleave-AscendsFrom lo [] ys p q = q
  interleave-AscendsFrom lo (x ∷ xs) [] p q = p
  interleave-AscendsFrom lo (x ∷ xs) (y ∷ ys) p q = ground (
    arith,
    interleave-AscendsFrom x.timestamp xs (y ∷ ys),
    interleave-AscendsFrom y.timestamp (x ∷ xs) ys,
  )

  first_of_runs-RisesFrom :
      (l : Sample V) (ss : List (Sample V))
      → AscendsFrom l.timestamp ss
      → RisesFrom (suc l.timestamp) (first_of_runs (some l) ss)
  unfolding first_of_runs
  first_of_runs-RisesFrom l [] h = tt
  first_of_runs-RisesFrom l (s ∷ ss) h =
      ground (arith, first_of_runs-RisesFrom l ss, first_of_runs-RisesFrom s ss h.1)

  sample_at-eq-none :
      (t lo : ℕ) (ss : List (Sample V)) → AscendsFrom lo ss → t < lo → sample_at t ss ≡ none
  sample_at-eq-none t lo [] h lt = refl
  sample_at-eq-none t lo (s ∷ ss) h lt =
      ground (arith, sample_at-eq-none t s.timestamp ss h.1 (omega arith))

  sample_at-interleave :
      (t lo : ℕ) (xs ys : List (Sample V))
      → AscendsFrom lo xs
      → AscendsFrom lo ys
      → sample_at t (interleave xs ys) ≡ or_else (sample_at t xs) (sample_at t ys)
  unfolding interleave or_else
  sample_at-interleave t lo [] ys p q = refl
  sample_at-interleave t lo (x ∷ xs) [] p q = ground arith
  sample_at-interleave t lo (x ∷ xs) (y ∷ ys) p q = ground (
    arith,
    sample_at-interleave t x.timestamp xs (y ∷ ys),
    sample_at-interleave t y.timestamp (x ∷ xs) ys,
    sample_at-eq-none t x.timestamp xs p.1,
  )

  sample_at-first_of_runs :
      (t : ℕ) (l : Sample V) (ss : List (Sample V))
      → l.timestamp ≢ t
      → sample_at t (first_of_runs (some l) ss) ≡ sample_at t ss
  unfolding first_of_runs
  sample_at-first_of_runs t l [] h = refl
  sample_at-first_of_runs t l (s ∷ ss) h =
      ground (arith, sample_at-first_of_runs t l ss h, sample_at-first_of_runs t s ss)

  -- Of two sorted lists of samples the merge ends with a list `out` whose time stamps rise
  -- strictly. At each time stamp `out` has the sample of the first list, if that has one there, or
  -- else the sample of the second list, or none where neither has one.
  pub merge_samples_lem :
      (xs ys : List (Sample V))
      → IsSorted xs
      → IsSorted ys
      → (out : List (Sample V)) × (merge_samples xs ys ≡ some out)
        × RisesFrom 0 out
        × ((t : ℕ) → sample_at t out ≡ or_else (sample_at t xs) (sample_at t ys))
  merge_samples_lem xs ys p q = (
    first_of_runs none (interleave xs ys),
    merge_samples-eq-first_of_runs xs ys,
    rises (interleave xs ys) (interleave-AscendsFrom 0 xs ys p q),
    λ t. same t (interleave xs ys) ∙ sample_at-interleave t 0 xs ys p q,
  )
    where
      rises : (ss : List (Sample V)) → IsSorted ss → RisesFrom 0 (first_of_runs none ss)
      rises [] h = unfold first_of_runs in tt
      rises (s ∷ ss) h = unfold first_of_runs in (h.0, first_of_runs-RisesFrom s ss h.1)

      same : (t : ℕ) (ss : List (Sample V)) → sample_at t (first_of_runs none ss) ≡ sample_at t ss
      same t [] = unfold first_of_runs in refl
      same t (s ∷ ss) = unfold first_of_runs in (ground (arith, sample_at-first_of_runs t s ss))
