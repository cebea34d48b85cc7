-- ===== src/Prom/Convert.antt =====
-- `convertPromResultsToTimeSeries` and `convertPromResultsToTimeSeriesMap` of
-- pkg/datasource-providers/prom/ctx.go. `metric_string` is the `String` method of a metric.
pub mod Laws
use fadvisor.Prelude.{ℕ, ◌/◌, Option, none, some, ◌⊎◌, inl, inr, List, [], ◌∷◌, map, String, ◌<>◌}
use fadvisor.Prelude.Dict.{Dict, insert}
use fadvisor.Prom.Series.{Sample, TimeSeries}

abbrev pub Metric : Type 0
Metric = List (String × String)

-- `prommodel.SampleStream`, with time stamps in milliseconds.
pub record SampleStream (V : Type 0) : Type 0 where
  pub metric : Metric
  pub values : List (ℕ × V)

-- `prommodel.Sample`
pub record VectorSample (V : Type 0) : Type 0 where
  pub metric : Metric
  pub timestamp : ℕ
  pub value : V

-- `prommodel.Value`; a `none` in a list is a nil pointer. The type tag and the dynamic type of a
-- value agree, so the code's failed assertions have no constructor; `unknown` has the text of a type.
pub data PromValue (V : Type 0) : Type 0 where
  matrix : List (Option (SampleStream V)) → PromValue V
  vector : List (Option (VectorSample V)) → PromValue V
  scalar : PromValue V
  text : PromValue V
  no_value : PromValue V
  unknown : String → PromValue V

module _ {V : Type 0} where
  abbrev to_sample : ℕ × V → Sample V
  to_sample (ms, v) = record { timestamp = ms / 1000; value = v }

  pub series_of_stream : SampleStream V → TimeSeries V
  series_of_stream s = record { labels = s.metric; samples = map to_sample s.values }

  pub series_of_sample : VectorSample V → TimeSeries V
  series_of_sample s = record { labels = s.metric; samples = to_sample (s.timestamp, s.value) ∷ [] }

  -- The two loops, which skip nil pointers.
  pub convert_streams : List (Option (SampleStream V)) → List (TimeSeries V)
  convert_streams [] = []
  convert_streams (none ∷ ss) = convert_streams ss
  convert_streams (some s ∷ ss) = series_of_stream s ∷ convert_streams ss

  pub convert_samples : List (Option (VectorSample V)) → List (TimeSeries V)
  convert_samples [] = []
  convert_samples (none ∷ ss) = convert_samples ss
  convert_samples (some s ∷ ss) = series_of_sample s ∷ convert_samples ss

  unfoldable pub convert_prom_results_to_time_series : PromValue V → String ⊎ List (TimeSeries V)
  unfolding convert_streams convert_samples series_of_stream series_of_sample
  convert_prom_results_to_time_series (matrix ss) = inr (convert_streams ss)
  convert_prom_results_to_time_series (vector ss) = inr (convert_samples ss)
  convert_prom_results_to_time_series scalar = inl "not support for scalar when use timeseries"
  convert_prom_results_to_time_series text = inl "not support for string when use timeseries"
  convert_prom_results_to_time_series no_value = inl "prometheus return value type is none"
  convert_prom_results_to_time_series (unknown type) =
      inl ("prometheus return unknown model value type " <> type)

  module _ (metric_string : Metric → String) where
    pub map_streams : List (Option (SampleStream V)) → Dict (TimeSeries V) → Dict (TimeSeries V)
    map_streams [] results = results
    map_streams (none ∷ ss) results = map_streams ss results
    map_streams (some s ∷ ss) results =
        map_streams ss (insert (metric_string s.metric) (series_of_stream s) results)

    pub map_samples : List (Option (VectorSample V)) → Dict (TimeSeries V) → Dict (TimeSeries V)
    map_samples [] results = results
    map_samples (none ∷ ss) results = map_samples ss results
    map_samples (some s ∷ ss) results =
        map_samples ss (insert (metric_string s.metric) (series_of_sample s) results)

    unfoldable pub convert_prom_results_to_time_series_map :
        PromValue V → String ⊎ Dict (TimeSeries V)
    unfolding map_streams map_samples series_of_stream series_of_sample
    convert_prom_results_to_time_series_map (matrix ss) = inr (map_streams ss [])
    convert_prom_results_to_time_series_map (vector ss) = inr (map_samples ss [])
    convert_prom_results_to_time_series_map scalar =
        inl "not support for scalar when use timeseries"
    convert_prom_results_to_time_series_map text = inl "not support for string when use timeseries"
    convert_prom_results_to_time_series_map no_value = inl "prometheus return value type is none"
    convert_prom_results_to_time_series_map (unknown type) =
        inl ("prometheus return unknown model value type " <> type)
