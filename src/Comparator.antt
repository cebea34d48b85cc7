-- ===== src/Comparator.antt =====
-- pkg/cost-comparator/comparator.go: what the comparator of costs collects about workloads, and the
-- files it keeps between two runs.
pub mod Columns
pub mod Checkpoint
pub mod Estimator
pub mod Workloads
pub mod Recommend
pub mod Fetch
use fadvisor.Prelude.{Bool, Option, none, some, List, [], ◌∷◌, String, ◌&&◌, ◌=s=◌, if◌then◌else◌}
use fadvisor.Prom.Series.{TimeSeries}

-- `types.NamespacedName`
pub record NamespacedName : Type 0 where
  pub namespace : String
  pub name : String

-- A Go map with such keys; the order of the list is that of a `range` loop.
abbrev pub NameMap {ℓ} : Type ℓ → Type ℓ
NameMap V = List (NamespacedName × V)

unfoldable pub same_name : NamespacedName → NamespacedName → Bool
same_name a b = a.namespace =s= b.namespace && a.name =s= b.name

module _ {ℓ} {V : Type ℓ} where
  unfoldable pub lookup_name : NamespacedName → NameMap V → Option V
  lookup_name k [] = none
  lookup_name k ((j, v) ∷ m) = if same_name j k then some v else lookup_name k m

  unfoldable pub insert_name : NamespacedName → V → NameMap V → NameMap V
  insert_name k v [] = (k, v) ∷ []
  insert_name k v ((j, w) ∷ m) = if same_name j k then (k, v) ∷ m else (j, w) ∷ insert_name k v m

-- `RawContainerTimeSeriesData`; no pointer in the lists is nil.
pub record RawContainerTimeSeriesData (F : Type 0) : Type 0 where
  pub cpu : List (TimeSeries F)
  pub mem : List (TimeSeries F)
  pub cpu_requests : List (TimeSeries F)
  pub mem_requests : List (TimeSeries F)
  pub cpu_limits : List (TimeSeries F)
  pub mem_limits : List (TimeSeries F)

-- `RawWorkloadTimeSeriesData`
pub record RawWorkloadTimeSeriesData (F : Type 0) : Type 0 where
  pub cpu : List (TimeSeries F)
  pub mem : List (TimeSeries F)
  pub cpu_requests : List (TimeSeries F)
  pub mem_requests : List (TimeSeries F)
  pub cpu_limits : List (TimeSeries F)
  pub mem_limits : List (TimeSeries F)
  pub replicas : List (TimeSeries F)
