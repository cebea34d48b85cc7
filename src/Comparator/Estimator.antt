-- ===== src/Comparator/Estimator.antt =====
-- pkg/cost-comparator/estimator/basic_estimator.go, and `MergeTimeSeriesList` of comparator.go. The
-- statistics of a list of numbers are library code.
use fadvisor.Prelude.{Option, none, some, List, [], ◌∷◌, ◌++◌, String, map}
use fadvisor.Prelude.Dict.{Dict, lookup}
use fadvisor.Prelude.Outcome.{Outcome, ok, err, ◌>>=◌}
use fadvisor.Float.{Float}
use fadvisor.Prom.Series.{TimeSeries}

-- A value of the estimate configuration: a `float64`, or something else.
pub data ConfigValue (F : Type 0) : Type 0 where
  number : F → ConfigValue F
  other : ConfigValue F

-- `Percentile` and `Max` of `stats.Float64Data`.
pub record StatsLibrary (F : Type 0) : Type 0 where
  pub percentile_of : List F → F → Outcome F
  pub max_of : List F → Outcome F

-- `spec.Statistic`
pub record Statistic (F : Type 0) : Type 0 where
  pub percentile : Option F
  pub max : Option F
  pub max_recommended : Option F
  pub recommended : Option F

module _ {F : Type 0} where
  unfoldable pub time_series2float64_data : TimeSeries F → List F
  time_series2float64_data ts = map (λ s. s.value) ts.samples

  -- `MergeTimeSeriesList`: the labels and samples of all series, one after the other.
  unfoldable pub merge_from : List (TimeSeries F) → TimeSeries F → TimeSeries F
  merge_from [] result = result
  merge_from (ts ∷ rest) result =
      merge_from rest
        (record { labels = result.labels ++ ts.labels; samples = result.samples ++ ts.samples })

  unfoldable pub merge_time_series_list : List (TimeSeries F) → TimeSeries F
  merge_time_series_list tss = merge_from tss (record { labels = []; samples = [] })

  -- A parameter with its default.
  unfoldable pub param : String → F → Dict (ConfigValue F) → Outcome F
  param name default config = elim (lookup name config) [
    | none ↦ ok default
    | some value ↦ elim value [ number x ↦ ok x | other ↦ err "param is not valid" ]
  ]

module _ {F : Type 0} ⦃fl : Float F⦄ (stats : StatsLibrary F) where
  open fl use {mul, of_int, decimal}

  unfoldable pub estimation : TimeSeries F → Dict (ConfigValue F) → Outcome (Statistic F)
  estimation ts config = do
    percent ← param "percentile" (decimal 95 2) config
    margin_fraction ← param "marginFraction" (decimal 125 2) config
    got ← stats.percentile_of (time_series2float64_data ts) (mul percent (of_int 100))
    max ← stats.max_of (time_series2float64_data ts)
    ok (record {
      percentile = some got;
      max = some max;
      max_recommended = some (mul max margin_fraction);
      recommended = some (mul got margin_fraction);
    })
