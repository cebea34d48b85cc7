-- ===== src/Comparator/Checkpoint.antt =====
-- The checkpoint files of pkg/cost-comparator/comparator.go: `ContainerDataCheckpoint`,
-- `workloadTimeSeriesDataCheckpoint` and the two functions that load them. A file is the list of its
-- lines, each the list of its fields, as encoding/csv takes and gives them.
pub mod Load
pub mod Keys
pub mod Groups
pub mod Read
pub mod Container
pub mod Workload
use fadvisor.Prelude.{
  ℕ, zero, suc, ◌+◌, Bool, true, false, Option, none, some, List, [], ◌∷◌, ◌++◌, String, leb, ltb,
  length, get_elem?, map, if◌then◌else◌,
}
use fadvisor.Prelude.Dict.{Dict, lookup, insert}
use fadvisor.Prelude.Outcome.{Outcome, ok, err, panic, ◌>>=◌, deref}
use fadvisor.Float.{Float}
use fadvisor.Prom.Series.{Sample, TimeSeries}
use fadvisor.Comparator.{
  NamespacedName, NameMap, lookup_name, insert_name, RawContainerTimeSeriesData,
  RawWorkloadTimeSeriesData,
}
use fadvisor.Comparator.Columns.{column_names, with_prefix, first_samples, write_rows, read_series}

abbrev pub resource_prefixes : List String
resource_prefixes =
    "CpuUsage" ∷ "MemUsage" ∷ "CpuRequest" ∷ "MemRequest" ∷ "CpuLimit" ∷ "MemLimit" ∷ []

abbrev pub workload_prefixes : List String
workload_prefixes = resource_prefixes ++ ("Replicas" ∷ [])

abbrev pub container_keys : List String
container_keys = "Kind" ∷ "Namespace" ∷ "Name" ∷ "Container" ∷ []

abbrev pub workload_keys : List String
workload_keys = "Kind" ∷ "Namespace" ∷ "Name" ∷ []

abbrev pub concat : List (List String) → List String
concat [] = []
concat (xs ∷ xss) = xs ++ concat xss

abbrev pub ContainerCache : Type 0 → Type 0
ContainerCache F = Dict (NameMap (Dict (RawContainerTimeSeriesData F)))

abbrev pub WorkloadCache : Type 0 → Type 0
WorkloadCache F = Dict (NameMap (RawWorkloadTimeSeriesData F))

module _ {F : Type 0} where
  -- The series of a row in the order of the groups.
  abbrev pub container_series : RawContainerTimeSeriesData F → List (List (Sample F))
  container_series d =
      first_samples d.cpu
      ∷ first_samples d.mem
      ∷ first_samples d.cpu_requests
      ∷ first_samples d.mem_requests
      ∷ first_samples d.cpu_limits
      ∷ first_samples d.mem_limits
      ∷ []

  abbrev pub workload_series : RawWorkloadTimeSeriesData F → List (List (Sample F))
  workload_series d =
      first_samples d.cpu
      ∷ first_samples d.mem
      ∷ first_samples d.cpu_requests
      ∷ first_samples d.mem_requests
      ∷ first_samples d.cpu_limits
      ∷ first_samples d.mem_limits
      ∷ first_samples d.replicas
      ∷ []

  -- The nested loops over the cache: a key and the series for each row.
  unfoldable pub container_rows :
      String
      → NamespacedName
      → Dict (RawContainerTimeSeriesData F)
      → List (List String × List (List (Sample F)))
  container_rows kind nn [] = []
  container_rows kind nn ((container, raw) ∷ m) =
      (kind ∷ nn.namespace ∷ nn.name ∷ container ∷ [], container_series raw)
      ∷ container_rows kind nn m

  unfoldable pub container_name_rows :
      String
      → NameMap (Dict (RawContainerTimeSeriesData F))
      → List (List String × List (List (Sample F)))
  container_name_rows kind [] = []
  container_name_rows kind ((nn, containers) ∷ m) =
      container_rows kind nn containers ++ container_name_rows kind m

  unfoldable pub container_kind_rows :
      ContainerCache F → List (List String × List (List (Sample F)))
  container_kind_rows [] = []
  container_kind_rows ((kind, workloads) ∷ m) =
      container_name_rows kind workloads ++ container_kind_rows m

  unfoldable pub workload_name_rows :
      String → NameMap (RawWorkloadTimeSeriesData F) → List (List String × List (List (Sample F)))
  workload_name_rows kind [] = []
  workload_name_rows kind ((nn, raw) ∷ m) =
      (kind ∷ nn.namespace ∷ nn.name ∷ [], workload_series raw) ∷ workload_name_rows kind m

  unfoldable pub workload_kind_rows : WorkloadCache F → List (List String × List (List (Sample F)))
  workload_kind_rows [] = []
  workload_kind_rows ((kind, workloads) ∷ m) =
      workload_name_rows kind workloads ++ workload_kind_rows m

  -- `if max < n { max = n }` for each group.
  abbrev pub longer : List ℕ → List (List (Sample F)) → List ℕ
  longer (max ∷ maxs) (ss ∷ sss) =
      (if ltb max (length ss) then length ss else max) ∷ longer maxs sss
  longer maxs [] = maxs
  longer [] (ss ∷ sss) = []

  unfoldable pub header_lens : List (List String × List (List (Sample F))) → List ℕ → List ℕ
  header_lens [] maxs = maxs
  header_lens ((key, sss) ∷ entries) maxs = header_lens entries (longer maxs sss)

abbrev pub make_headers : List String → List ℕ → List (List String)
make_headers (p ∷ ps) (n ∷ ns) = column_names p 0 n ∷ make_headers ps ns
make_headers (p ∷ ps) [] = []
make_headers [] ns = []

module _ {F : Type 0} ⦃fl : Float F⦄ where
  -- The lines of a file with these groups and rows.
  unfoldable pub checkpoint_lines :
      List String
      → List String
      → List ℕ
      → List (List String × List (List (Sample F)))
      → Outcome (List (List String))
  checkpoint_lines keys prefixes zeros entries = do
    (headers, rows) ← write_rows (make_headers prefixes (header_lens entries zeros)) entries
    ok ((keys ++ concat headers) ∷ rows)

  unfoldable pub container_data_checkpoint : ContainerCache F → Outcome (List (List String))
  container_data_checkpoint cache =
      checkpoint_lines container_keys resource_prefixes (0 ∷ 0 ∷ 0 ∷ 0 ∷ 0 ∷ 0 ∷ [])
        (container_kind_rows cache)

  unfoldable pub workload_time_series_data_checkpoint :
      WorkloadCache F → Outcome (List (List String))
  workload_time_series_data_checkpoint cache =
      checkpoint_lines workload_keys workload_prefixes (0 ∷ 0 ∷ 0 ∷ 0 ∷ 0 ∷ 0 ∷ 0 ∷ [])
        (workload_kind_rows cache)
