-- ===== src/Prom/Series.antt =====
-- `MergeSortedTimeSeries` of pkg/datasource-providers/prom/ctx.go. A time stamp is a number of
-- seconds; the value of a sample is any type, since the code only copies it.
-- A suffix of the samples stands for the index into them: `xs` is `ts1.Samples[i:]`, `ys` is
-- `ts2.Samples[j:]`; `k` is the length of `out`.
pub mod Sequence
pub mod Laws
use fadvisor.Prelude.{
  ℕ, zero, suc, ◌+◌, ◌≡◌, Bool, false, Option, none, some, List, [], ◌∷◌, ◌++◌, String, length, leb,
  ltb, ◌==◌, if◌then◌else◌,
}
use fadvisor.Prelude.Dict.{Dict}

pub record Sample (V : Type 0) : Type 0 where
  pub timestamp : ℕ
  pub value : V

pub record TimeSeries (V : Type 0) : Type 0 where
  pub labels : List (String × String)
  pub samples : List (Sample V)

module _ {V : Type 0} where
  -- `ts.Samples[k-1]`
  abbrev pub last? : List (Sample V) → Option (Sample V)
  last? [] = none
  last? (s ∷ []) = some s
  last? (s ∷ t ∷ ss) = last? (t ∷ ss)

  abbrev pub is_duplicated : Option (Sample V) → Sample V → Bool
  is_duplicated none s = false
  is_duplicated (some l) s = l.timestamp == s.timestamp

  -- The body of each inner loop: a sample that repeats the last time stamp is left out.
  pub append_sample : List (Sample V) → Sample V → List (Sample V)
  append_sample out s = if is_duplicated (last? out) s then out else out ++ (s ∷ [])

  -- The first inner loop, which leaves `j` alone.
  pub take_first :
      List (Sample V) → List (Sample V) → List (Sample V) → List (Sample V) × List (Sample V)
  take_first [] ys out = ([], out)
  take_first (x ∷ xs) [] out = (x ∷ xs, out)
  take_first (x ∷ xs) (y ∷ ys) out =
      let rest = take_first xs (y ∷ ys) (append_sample out x) in
      if leb x.timestamp y.timestamp then rest else (x ∷ xs, out)

  -- The second inner loop, which leaves `i` alone.
  pub take_second :
      List (Sample V) → List (Sample V) → List (Sample V) → List (Sample V) × List (Sample V)
  take_second xs [] out = ([], out)
  take_second [] (y ∷ ys) out = (y ∷ ys, out)
  take_second (x ∷ xs) (y ∷ ys) out =
      let rest = take_second (x ∷ xs) ys (append_sample out y) in
      if ltb y.timestamp x.timestamp then rest else (y ∷ ys, out)

  -- The two loops behind the outer one.
  pub append_rest : List (Sample V) → List (Sample V) → List (Sample V)
  append_rest [] out = out
  append_rest (s ∷ ss) out = append_rest ss (append_sample out s)

  -- The outer loop, on fuel.
  pub merge_loop :
      ℕ → List (Sample V) → List (Sample V) → List (Sample V) → Option (List (Sample V))
  merge_loop fuel [] ys out = some (append_rest ys out)
  merge_loop fuel (x ∷ xs) [] out = some (append_rest (x ∷ xs) out)
  merge_loop zero (x ∷ xs) (y ∷ ys) out = none
  merge_loop (suc fuel) (x ∷ xs) (y ∷ ys) out =
      let (xs', out') = take_first (x ∷ xs) (y ∷ ys) out in
      let (ys', out'') = take_second xs' (y ∷ ys) out' in merge_loop fuel xs' ys' out''

  -- Each round takes a sample, so the number of samples is fuel enough.
  unfoldable pub merge_samples : List (Sample V) → List (Sample V) → Option (List (Sample V))
  unfolding merge_loop take_first take_second append_rest append_sample
  merge_samples xs ys = merge_loop (length xs + length ys) xs ys []

  unfoldable pub merge_sorted_time_series : TimeSeries V → TimeSeries V → Option (TimeSeries V)
  merge_sorted_time_series ts1 ts2 = elim (merge_samples ts1.samples ts2.samples) [
    | none ↦ none
    | some out ↦ some (record { labels = ts1.labels; samples = out })
  ]
