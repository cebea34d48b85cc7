-- ===== src/Prom/Query/Laws.antt =====
-- `queryByShards`, and the time stamps of its answers.
use mathlib.Core.Option.{or_else}
use mathlib.Core.List.{append-nil, append_assoc}
use fadvisor.Prelude.{
  ℕ, ◌≡◌, ◌≢◌, refl, Bool, true, false, ◌&&◌, ◌||◌, none, some, ◌⊎◌, inl, inr, List, Option-cases,
  map, ap, sym, [], ◌∷◌, ◌++◌, arith, String, ◌=s=◌, eq_iff,
}
use fadvisor.Prelude.Dict.{Dict, lookup, insert, lookup-insert}
use fadvisor.Prom.Series.{Sample, TimeSeries, merge_sorted_time_series}
use fadvisor.Prom.Series.Laws.{IsSorted, sample_at, merge_samples_lem}
use fadvisor.Prom.Shards.{Range}
use fadvisor.Prom.Convert.{Metric, PromValue}
use fadvisor.Prom.Query.{
  ShardResult, failed, answer, sorted, merge_answer, collect, shard_outcome, shard_result,
  query_by_shards,
}

module _ {V : Type 0} where
  -- Whether there is a sample at a time stamp.
  abbrev pub present : ℕ → List (Sample V) → Bool
  present t ss = elim (sample_at t ss) [ none ↦ false | some s ↦ true ]

  abbrev pub present_under : String → ℕ → Dict (TimeSeries V) → Bool
  present_under k t m = elim (lookup k m) [ none ↦ false | some ts ↦ present t ts.samples ]

  abbrev pub in_answer : String → ℕ → Dict (TimeSeries V) → Bool
  in_answer k t [] = false
  in_answer k t ((j, ts) ∷ d) = (j =s= k && present t ts.samples) || in_answer k t d

  abbrev pub in_results : String → ℕ → List (ShardResult V) → Bool
  in_results k t [] = false
  in_results k t (failed e ∷ rs) = in_results k t rs
  in_results k t (answer d ∷ rs) = in_answer k t d || in_results k t rs

  abbrev pub errors : List (ShardResult V) → List String
  errors [] = []
  errors (failed e ∷ rs) = e ∷ errors rs
  errors (answer d ∷ rs) = errors rs

-- What is assumed of `SortSampleAsc`: its result is sorted, and has the time stamps of its argument.
pub record IsSort {V : Type 0} (sort : List (Sample V) → List (Sample V)) : Type 0 where
  pub sort-IsSorted : (ss : List (Sample V)) → IsSorted (sort ss)
  pub present-sort : (t : ℕ) (ss : List (Sample V)) → present t (sort ss) ≡ present t ss

module _ {V : Type 0} (sort : List (Sample V) → List (Sample V)) (laws : IsSort sort) where
  merge_sorted_lem :
      (ts1 ts2 : TimeSeries V)
      → (ts : TimeSeries V) × (merge_sorted_time_series (sorted sort ts1) (sorted sort ts2)
          ≡ some ts)
        × ((t : ℕ) → present t ts.samples ≡ (present t ts1.samples || present t ts2.samples))
  unfolding merge_sorted_time_series or_else
  merge_sorted_lem ts1 ts2 =
      let xs = sort ts1.samples in
      let ys = sort ts2.samples in
      let (out, e, _, at) =
        merge_samples_lem xs ys (laws.sort-IsSorted ts1.samples) (laws.sort-IsSorted ts2.samples) in
      (
        record { labels = ts1.labels; samples = out },
        ground (arith, e),
        λ t. ground (arith, at t, laws.present-sort t ts1.samples, laws.present-sort t ts2.samples),
      )

  merge_answer_lem :
      (d m : Dict (TimeSeries V))
      → (m' : Dict (TimeSeries V)) × (merge_answer sort d m ≡ some m')
        × ((k : String) (t : ℕ) → present_under k t m' ≡ (present_under k t m || in_answer k t d))
  unfolding merge_answer
  merge_answer_lem [] m = (m, refl, λ k t. ground arith)
  merge_answer_lem ((key, ts2) ∷ d) m = elim (Option-cases (lookup key m)) [
    | inl new ↦
        let (m', e, h) = merge_answer_lem d (insert key ts2 m) in
        (
          m',
          ground (arith, e),
          λ k t. ground (arith, h k t, lookup-insert k key ts2 m, eq_iff key k),
        )
    | inr (ts1, old) ↦
        let (ts, made, both) = merge_sorted_lem ts1 ts2 in
        let (m', e, h) = merge_answer_lem d (insert key ts m) in
        (
          m',
          ground (arith, e, made),
          λ k t. ground (arith, h k t, lookup-insert k key ts m, eq_iff key k, both t),
        )
  ]

  collect_lem :
      (rs : List (ShardResult V)) (m : Dict (TimeSeries V)) (errs : List String)
      → (m' : Dict (TimeSeries V)) × (collect sort rs m errs ≡ some (m', errs ++ errors rs))
        × ((k : String) (t : ℕ) → present_under k t m' ≡ (present_under k t m || in_results k t rs))
  unfolding collect
  collect_lem [] m errs = (m, rw (append-nil errs), λ k t. ground arith)
  collect_lem (failed e ∷ rs) m errs =
      let (m', made, h) = collect_lem rs m (errs ++ (e ∷ [])) in
      (m', rw made (ap (λ l. some (m', l)) (append_assoc errs (e ∷ []) (errors rs))), h)
  collect_lem (answer d ∷ rs) m errs =
      let (m1, first, h1) = merge_answer_lem d m in
      let (m', made, h) = collect_lem rs m1 errs in
      (m', ground (arith, first, made), λ k t. ground (arith, h k t, h1 k t))

  module _ (show_errors : List String → String) (metric_string : Metric → String)
      (api : String → Range → String ⊎ PromValue V) where
    -- What came of a query over several windows: an error if one of them failed, or else a map
    -- that has a sample under a key and at a time stamp exactly where an answer has one.
    abbrev pub IsWhole : List (ShardResult V) → String ⊎ Dict (TimeSeries V) → Type 0
    IsWhole rs (inl e) = (errors rs ≢ []) × (e ≡ show_errors (errors rs))
    IsWhole rs (inr m) =
        (errors rs ≡ []) × ((k : String) (t : ℕ) → present_under k t m ≡ in_results k t rs)

    -- If `SortSampleAsc` sorts, and keeps the time stamps that there are: whatever the order in
    -- which the goroutines end, `queryByShards` ends. If a window failed it gives the error that
    -- lists all failures; or else its result has, under each key, a sample at exactly the time
    -- stamps at which some answer has one under that key.
    pub query_by_shards_lem :
        (schedule : List (ShardResult V) → List (ShardResult V)) (query : String)
        (windows : List Range)
        → let rs = schedule (map (shard_result sort show_errors metric_string api query) windows) in
          (r : String ⊎ Dict (TimeSeries V)) × (query_by_shards sort show_errors metric_string api
              schedule query windows
            ≡ some r)
          × IsWhole rs r
    unfolding query_by_shards lookup
    query_by_shards_lem schedule query windows =
        let rs = schedule (map (shard_result sort show_errors metric_string api query) windows) in
        let (m, made, h) = collect_lem rs [] [] in
        (
          shard_outcome sort show_errors metric_string (m, errors rs),
          ground (arith, made),
          whole rs m (errors rs) refl λ k t. h k t,
        )
      where
        whole :
            (rs : List (ShardResult V)) (m : Dict (TimeSeries V)) (errs : List String)
            → errors rs ≡ errs
            → ((k : String) (t : ℕ) → present_under k t m ≡ in_results k t rs)
            → IsWhole rs (shard_outcome sort show_errors metric_string (m, errs))
        whole rs m [] e h = unfold shard_outcome in (e, h)
        whole rs m (x ∷ errs) e h = unfold shard_outcome in ((λ n. cc), ap show_errors (sym e))
