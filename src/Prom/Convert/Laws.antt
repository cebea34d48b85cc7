-- ===== src/Prom/Convert/Laws.antt =====
-- The two conversions of an answer, compared.
use mathlib.Core.Option.{or_else}
use fadvisor.Prelude.{
  ◌≡◌, refl, Option, none, some, ◌⊎◌, inl, inr, List, [], ◌∷◌, arith, String, ◌=s=◌, if◌then◌else◌,
}
use fadvisor.Prelude.Dict.{Dict, lookup, insert, lookup-insert, lookup-nil}
use fadvisor.Prom.Series.{TimeSeries}
use fadvisor.Prom.Convert.{
  Metric, SampleStream, VectorSample, PromValue, matrix, vector, scalar, text, no_value, unknown,
  series_of_stream, series_of_sample, convert_streams, convert_samples, map_streams, map_samples,
  convert_prom_results_to_time_series, convert_prom_results_to_time_series_map,
}

module _ {V : Type 0} (metric_string : Metric → String) where
  -- The last series of a list whose labels spell `k`.
  abbrev pub last_with : String → List (TimeSeries V) → Option (TimeSeries V)
  last_with k [] = none
  last_with k (s ∷ ss) =
      or_else (last_with k ss) (if metric_string s.labels =s= k then some s else none)

  lookup-map_streams :
      (k : String) (ss : List (Option (SampleStream V))) (m : Dict (TimeSeries V))
      → lookup k (map_streams metric_string ss m)
        ≡ or_else (last_with k (convert_streams ss)) (lookup k m)
  unfolding map_streams convert_streams series_of_stream or_else
  lookup-map_streams k [] m = refl
  lookup-map_streams k (none ∷ ss) m = lookup-map_streams k ss m
  lookup-map_streams k (some s ∷ ss) m =
      let key = metric_string s.metric in
      ground (
        arith,
        lookup-map_streams k ss (insert key (series_of_stream s) m),
        lookup-insert k key (series_of_stream s) m,
      )

  lookup-map_samples :
      (k : String) (ss : List (Option (VectorSample V))) (m : Dict (TimeSeries V))
      → lookup k (map_samples metric_string ss m)
        ≡ or_else (last_with k (convert_samples ss)) (lookup k m)
  unfolding map_samples convert_samples series_of_sample or_else
  lookup-map_samples k [] m = refl
  lookup-map_samples k (none ∷ ss) m = lookup-map_samples k ss m
  lookup-map_samples k (some s ∷ ss) m =
      let key = metric_string s.metric in
      ground (
        arith,
        lookup-map_samples k ss (insert key (series_of_sample s) m),
        lookup-insert k key (series_of_sample s) m,
      )

  -- Two answers to one value: both are the same error, or the map has under each key the last
  -- series of the list whose labels spell that key, and none where there is no such series.
  abbrev pub Agree : String ⊎ List (TimeSeries V) → String ⊎ Dict (TimeSeries V) → Type 0
  Agree (inr ss) (inr m) = (k : String) → lookup k m ≡ last_with k ss
  Agree (inl e) (inl f) = e ≡ f
  Agree _ _ = ⊥

  -- On every value the conversion to a map and the conversion to a list agree: both give the same
  -- error, or under each key the map has the last series of the list whose labels spell the key.
  pub convert-Agree :
      (v : PromValue V)
      → Agree
          (convert_prom_results_to_time_series v)
          (convert_prom_results_to_time_series_map metric_string v)
  unfolding convert_prom_results_to_time_series convert_prom_results_to_time_series_map or_else
  convert-Agree (matrix ss) =
      λ k. ground (arith, lookup-map_streams k ss [], lookup-nil {V = TimeSeries V} k)
  convert-Agree (vector ss) =
      λ k. ground (arith, lookup-map_samples k ss [], lookup-nil {V = TimeSeries V} k)
  convert-Agree scalar = refl
  convert-Agree text = refl
  convert-Agree no_value = refl
  convert-Agree (unknown type) = refl
