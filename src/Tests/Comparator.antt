-- ===== src/Tests/Comparator.antt =====
-- Checkpoint files with concrete series.
use Prim.Native.Char.{code}
use mathlib.Core.Option.{map as map_option}
use fadvisor.Prelude.{ap, ℕ, zero, suc, ◌≡◌, ◌≢◌, refl, List, [], ◌∷◌, String, arith}
use fadvisor.Prelude.Outcome.{ok, ◌>>=◌}
use fadvisor.Prom.Series.{Sample, TimeSeries}
use fadvisor.Comparator.{
  NamespacedName, lookup_name, RawContainerTimeSeriesData, RawWorkloadTimeSeriesData,
}
use fadvisor.Comparator.Columns.Laws.{WritesNumbers}
use fadvisor.Comparator.Columns.{first_samples}
use fadvisor.Comparator.Checkpoint.{
  ContainerCache, WorkloadCache, container_data_checkpoint, workload_time_series_data_checkpoint,
  container_rows, container_name_rows, container_kind_rows, workload_name_rows, workload_kind_rows,
  header_lens,
}
use fadvisor.Comparator.Checkpoint.Keys.{find_container, find_name}
use fadvisor.Prelude.Dict.{Dict, lookup}
use fadvisor.Comparator.Checkpoint.Load.{load_container_lines, load_workload_lines}
use fadvisor.Comparator.Checkpoint.Container.{saved_container, container_data_checkpoint_lem}
use fadvisor.Comparator.Checkpoint.Workload.{shifted, workload_checkpoint_shifts}
use fadvisor.Tests.Numbers.{strokes, strokes_float}

abbrev first_code : String → ℕ
first_code String.[] = 0
first_code (String.◌∷◌ c s) = code c

strokes_ne_null : (x : ℕ) → strokes x ≢ "null"
strokes_ne_null zero e = absurd (omega (arith, ap first_code e))
strokes_ne_null (suc x) e = absurd (omega (arith, ap first_code e))

pub strokes_float-WritesNumbers : WritesNumbers strokes_float
unfolding strokes_float
strokes_float-WritesNumbers = record { show_5f_ne = strokes_ne_null; parses-show_5f = λ x. refl }

abbrev series : List (Sample ℕ) → List (TimeSeries ℕ)
series ss = record { labels = ("pod", "web-1") ∷ []; samples = ss } ∷ []

abbrev sample : ℕ → ℕ → Sample ℕ
sample t v = record { timestamp = t; value = v }

abbrev web : NamespacedName
web = record { namespace = "default"; name = "web" }

abbrev container_data : ℕ → List (Sample ℕ) → RawContainerTimeSeriesData ℕ
container_data v ss = record {
  cpu = series (sample 1600000000 v ∷ sample 1600000060 3 ∷ []);
  mem = series (sample 1600000000 5 ∷ []);
  cpu_requests = series ss;
  mem_requests = [];
  cpu_limits = series ss;
  mem_limits = [];
}

abbrev two : Dict (RawContainerTimeSeriesData ℕ)
two = ("nginx", container_data 2 []) ∷ ("sidecar", container_data 0 (sample 1600000000 1 ∷ [])) ∷ []

abbrev containers : ContainerCache ℕ
containers = ("Deployment", (web, two) ∷ []) ∷ []

abbrev stamps : List (List ℕ)
stamps =
    (1600000000 ∷ 1600000060 ∷ [])
    ∷ (1600000000 ∷ [])
    ∷ (1600000000 ∷ [])
    ∷ []
    ∷ (1600000000 ∷ [])
    ∷ []
    ∷ []

container_data_checkpoint_example :
    (loaded : ContainerCache ℕ) × ((container_data_checkpoint containers >>= load_container_lines)
      ≡ ok loaded)
    × ((kind : String) (nn : NamespacedName) (container : String)
        → find_container kind nn container loaded
          ≡ map_option saved_container (find_container kind nn container containers))
unfolding lookup lookup_name container_kind_rows container_name_rows container_rows first_samples
    header_lens
container_data_checkpoint_example =
    container_data_checkpoint_lem containers stamps strokes_float-WritesNumbers (ground arith)
      (ground arith) (ground arith) (omega arith)

abbrev workload_data : RawWorkloadTimeSeriesData ℕ
workload_data = record {
  cpu = series (sample 1600000000 1 ∷ []);
  mem = series (sample 1600000000 2 ∷ []);
  cpu_requests = series (sample 1600000000 3 ∷ []);
  mem_requests = series (sample 1600000000 4 ∷ []);
  cpu_limits = series (sample 1600000000 5 ∷ []);
  mem_limits = series (sample 1600000000 6 ∷ []);
  replicas = series (sample 1600000000 7 ∷ []);
}

abbrev workloads : WorkloadCache ℕ
workloads = ("Deployment", (web, workload_data) ∷ []) ∷ []

workload_checkpoint_shifts_example :
    (loaded : WorkloadCache ℕ) × ((workload_time_series_data_checkpoint workloads
        >>= load_workload_lines)
      ≡ ok loaded)
    × ((kind : String) (nn : NamespacedName)
        → find_name kind nn loaded ≡ map_option shifted (find_name kind nn workloads))
unfolding lookup lookup_name workload_kind_rows workload_name_rows first_samples header_lens
workload_checkpoint_shifts_example =
    workload_checkpoint_shifts workloads (1600000000 ∷ []) strokes_float-WritesNumbers
      (ground arith) (ground arith) (ground arith) (omega arith)
