-- ===== src/Prom/Query.antt =====
-- `QueryRangeSync` and `queryByShards` of pkg/datasource-providers/prom/ctx.go.
pub mod Laws
use fadvisor.Prelude.{
  ℕ, zero, suc, ◌≤◌, Option, none, some, ◌⊎◌, inl, inr, List, [], ◌∷◌, ◌++◌, String, map, length,
  ltb, if◌then◌else◌,
}
use fadvisor.Prelude.Dict.{Dict, lookup, insert}
use fadvisor.Prelude.Outcome.{Outcome, ok, err, panic, ◌>>=◌}
use fadvisor.Prom.Series.{Sample, TimeSeries, merge_sorted_time_series}
use fadvisor.Prom.Shards.{Range, compute_window_shards}
use fadvisor.Prom.Convert.{
  Metric, PromValue, convert_prom_results_to_time_series, convert_prom_results_to_time_series_map,
}

-- `QueryShardResult`: what one goroutine sends.
pub data ShardResult (V : Type 0) : Type 0 where
  failed : String → ShardResult V
  answer : Dict (TimeSeries V) → ShardResult V

-- `sort` is `SortSampleAsc` of the crane library, on the samples of a series.
module _ {V : Type 0} (sort : List (Sample V) → List (Sample V)) where
  abbrev sorted : TimeSeries V → TimeSeries V
  sorted ts = record ts { samples = sort ts.samples }

  -- The loop over the keys of one answer; `none` where a merge does not end.
  pub merge_answer : Dict (TimeSeries V) → Dict (TimeSeries V) → Option (Dict (TimeSeries V))
  merge_answer [] results = some results
  merge_answer ((key, ts2) ∷ entries) results = elim (lookup key results) [
    | none ↦ merge_answer entries (insert key ts2 results)
    | some ts1 ↦ elim (merge_sorted_time_series (sorted ts1) (sorted ts2)) [
      | none ↦ none
      | some ts ↦ merge_answer entries (insert key ts results)
    ]
  ]

  -- The loop over the answers, in the order in which the goroutines send them.
  pub collect :
      List (ShardResult V)
      → Dict (TimeSeries V)
      → List String
      → Option (Dict (TimeSeries V) × List String)
  collect [] results errs = some (results, errs)
  collect (failed e ∷ rs) results errs = collect rs results (errs ++ (e ∷ []))
  collect (answer d ∷ rs) results errs = elim (merge_answer d results) [
    | none ↦ none
    | some results' ↦ collect rs results' errs
  ]

  module _ (show_errors : List String → String) (metric_string : Metric → String) where
    -- The end of `queryByShards`.
    pub shard_outcome : Dict (TimeSeries V) × List String → String ⊎ Dict (TimeSeries V)
    shard_outcome (results, []) = inr results
    shard_outcome (results, e ∷ errs) = inl (show_errors (e ∷ errs))

    module _ (api : String → Range → String ⊎ PromValue V) where
      pub shard_result : String → Range → ShardResult V
      shard_result query w = elim (api query w) [
        | inl e ↦ failed e
        | inr v ↦ elim (convert_prom_results_to_time_series_map metric_string v) [
          | inl e ↦ failed e
          | inr d ↦ answer d
        ]
      ]

      -- `schedule` is the order in which the goroutines come to their end.
      unfoldable pub query_by_shards :
          (List (ShardResult V) → List (ShardResult V))
          → String
          → List Range
          → Option (String ⊎ Dict (TimeSeries V))
      query_by_shards schedule query windows =
          elim (collect (schedule (map (shard_result query) windows)) [] []) [
            | none ↦ none
            | some r ↦ some (shard_outcome r)
          ]

      abbrev values : Dict (TimeSeries V) → List (TimeSeries V)
      values = map (λ (_, ts). ts)

      abbrev converted : String ⊎ List (TimeSeries V) → Outcome (List (TimeSeries V))
      converted (inl e) = err e
      converted (inr l) = ok l

      abbrev single : String ⊎ PromValue V → Outcome (List (TimeSeries V))
      single (inl e) = err e
      single (inr v) = converted (convert_prom_results_to_time_series v)

      -- One query where there is at most one window.
      unfoldable pub query_range_sync :
          ℕ
          → (List (ShardResult V) → List (ShardResult V))
          → String
          → Range
          → Option (Outcome (List (TimeSeries V)))
      query_range_sync max_points schedule query w = elim (compute_window_shards w max_points) [
        | none ↦ none
        | some panic ↦ some panic
        | some (err e) ↦ some (err e)
        | some (ok windows) ↦
            if ltb 1 (length windows)
            then elim (query_by_shards schedule query windows) [
              | none ↦ none
              | some (inl e) ↦ some (err e)
              | some (inr m) ↦ some (ok (values m))
            ]
            else some (single (api query w))
      ]
