-- ===== src/Comparator/Fetch.antt =====
-- The queries of pkg/cost-comparator/comparator.go: `getQueryRange`, `fetchWorkloadMetricData` and
-- `fetchContainerData`, the choice between a checkpoint file and the data source in
-- `ContainerTsDataInit` and `WorkloadTsDataInit`, and the use that `Init` makes of it.
pub mod Laws
use mathlib.Core.Option.{get_or}
use fadvisor.Prelude.{
  ℕ, ◌-◌, Bool, Option, none, some, List, [], ◌∷◌, String, ◌<>◌, ◌=s=◌, if◌then◌else◌,
}
use fadvisor.Prelude.Dict.{Dict, lookup, insert}
use fadvisor.Prelude.Outcome.{Outcome, ok, err, panic, ◌>>=◌, deref}
use fadvisor.Float.{Float}
use fadvisor.Kube.{Pod, Container}
use fadvisor.Kube.Owner.{Object}
use fadvisor.Prom.Series.{TimeSeries}
use fadvisor.Metric.{Selectors, Metric}
use fadvisor.Metric.Naming.{
  workload_metric_namer, resource_to_workload_metric_namer, container_metric_namer,
  resource_to_container_metric_namer,
}
use fadvisor.Comparator.{
  NamespacedName, NameMap, insert_name, RawContainerTimeSeriesData, RawWorkloadTimeSeriesData,
}
use fadvisor.Comparator.Checkpoint.{
  ContainerCache, WorkloadCache, container_data_checkpoint, workload_time_series_data_checkpoint,
}
use fadvisor.Comparator.Checkpoint.Load.{store_name, load_container_lines, load_workload_lines}
use fadvisor.Comparator.Recommend.{on_error}
use fadvisor.Comparator.Workloads.{WorkloadSpec, WorkloadsSpec}

-- `promapiv1.Range`, with instants and spans as numbers.
pub record Range : Type 0 where
  pub start : ℕ
  pub end : ℕ
  pub step : ℕ

-- `config.History`
pub record History : Type 0 where
  pub end_time : String
  pub length : ℕ
  pub step : ℕ

-- The window ends at the configured time, or now if there is none or it cannot be parsed; it begins
-- after the epoch.
unfoldable pub get_query_range : (String → Option ℕ) → ℕ → History → Range
get_query_range parse now history =
    let end_at = if history.end_time =s= "" then now else get_or (parse history.end_time) now in
    record { start = end_at - history.length; end = end_at; step = history.step }

-- `datasource.Interface`, the method that is called.
pub record DataSource (S F : Type 0) : Type 0 where
  pub query_time_series : Metric S → Range → Outcome (List (TimeSeries F))

module _ {S F : Type 0} (lib : Selectors S) (source : DataSource S F) (clusterid : String) where
  -- The seven queries for a workload; the first that fails ends its round.
  unfoldable pub fetch_workload : Range → Object → Outcome (RawWorkloadTimeSeriesData F)
  fetch_workload range target = do
    let everything = lib.everything
    let resource =
        λ (name : String). resource_to_workload_metric_namer lib clusterid target name everything
    let metric =
        λ (name : String). workload_metric_namer lib clusterid target name (some everything)
    cpu ← source.query_time_series (resource "cpu") range
    mem ← source.query_time_series (resource "memory") range
    cpu_req ← source.query_time_series (metric "cpu_request") range
    cpu_lim ← source.query_time_series (metric "cpu_limit") range
    mem_req ← source.query_time_series (metric "mem_request") range
    mem_lim ← source.query_time_series (metric "mem_limit") range
    replicas ← source.query_time_series (metric "replicas") range
    ok (record {
      cpu = cpu;
      mem = mem;
      cpu_requests = cpu_req;
      mem_requests = mem_req;
      cpu_limits = cpu_lim;
      mem_limits = mem_lim;
      replicas = replicas;
    })

  -- The six queries for a container.
  unfoldable pub fetch_container :
      Range → String → NamespacedName → String → Outcome (RawContainerTimeSeriesData F)
  fetch_container range kind nn name = do
    let resource =
        λ (r : String). resource_to_container_metric_namer lib clusterid nn.namespace nn.name name r
    let metric = λ (m : String).
        container_metric_namer lib clusterid kind nn.namespace nn.name name m (some lib.everything)
    cpu ← source.query_time_series (resource "cpu") range
    mem ← source.query_time_series (resource "memory") range
    cpu_req ← source.query_time_series (metric "cpu_request") range
    mem_req ← source.query_time_series (metric "mem_request") range
    cpu_lim ← source.query_time_series (metric "cpu_limit") range
    mem_lim ← source.query_time_series (metric "mem_limit") range
    ok (record {
      cpu = cpu;
      mem = mem;
      cpu_requests = cpu_req;
      mem_requests = mem_req;
      cpu_limits = cpu_lim;
      mem_limits = mem_lim;
    })

module _ {S F Q : Type 0} (lib : Selectors S) (source : DataSource S F) (clusterid : String) where
  unfoldable pub fetch_workload_names :
      Range → String → NameMap (WorkloadSpec Q) → WorkloadCache F → Outcome (WorkloadCache F)
  fetch_workload_names range kind [] results = ok results
  fetch_workload_names range kind ((nn, w) ∷ names) results =
      on_error (fetch_workload lib source clusterid range w.workload)
        (fetch_workload_names range kind names results)
        (λ raw. fetch_workload_names range kind names (store_name kind nn raw results))

  -- `fetchWorkloadMetricData`; the map of a kind is made first.
  unfoldable pub fetch_workload_metric_data :
      Range → WorkloadsSpec Q → WorkloadCache F → Outcome (WorkloadCache F)
  fetch_workload_metric_data range [] results = ok results
  fetch_workload_metric_data range ((kind, names) ∷ kinds) results =
      fetch_workload_names range kind names (insert kind (get_or (lookup kind results) []) results)
      >>= λ results'. fetch_workload_metric_data range kinds results'

  unfoldable pub fetch_containers :
      Range
      → String
      → NamespacedName
      → List (Container Q)
      → Dict (RawContainerTimeSeriesData F)
      → Outcome (Dict (RawContainerTimeSeriesData F))
  fetch_containers range kind nn [] result = ok result
  fetch_containers range kind nn (c ∷ cs) result =
      on_error (fetch_container lib source clusterid range kind nn c.name)
        (fetch_containers range kind nn cs result)
        (λ raw. fetch_containers range kind nn cs (insert c.name raw result))

  unfoldable pub fetch_container_names :
      Range → String → NameMap (WorkloadSpec Q) → ContainerCache F → Outcome (ContainerCache F)
  fetch_container_names range kind [] results = ok results
  fetch_container_names range kind ((nn, w) ∷ names) results = do
    pod ← deref w.spec.pod_ref
    raw ← fetch_containers range kind nn pod.containers []
    fetch_container_names range kind names (store_name kind nn raw results)

  -- `fetchContainerData`
  unfoldable pub fetch_container_data :
      Range → WorkloadsSpec Q → ContainerCache F → Outcome (ContainerCache F)
  fetch_container_data range [] results = ok results
  fetch_container_data range ((kind, names) ∷ kinds) results =
      fetch_container_names range kind names (insert kind (get_or (lookup kind results) []) results)
      >>= λ results'. fetch_container_data range kinds results'

-- What `os.Create` and the writer come to.
abbrev pub save :
    {A : Type 0}
    → A
    → (List (List String) → Option String)
    → Outcome (List (List String))
    → Outcome (A × Option String)
save data' write (ok lines) = ok (data', write lines)
save data' write (err e) = ok (data', some e)
save data' write panic = panic

module _ {F : Type 0} ⦃fl : Float F⦄ where
  -- `ContainerTsDataInit`: the cache, and the error that is returned. `stored` is what comes of opening
  -- and reading the checkpoint file.
  unfoldable pub container_ts_data_init :
      Bool
      → Outcome (List (List String))
      → (List (List String) → Option String)
      → Outcome (ContainerCache F)
      → Outcome (ContainerCache F × Option String)
  container_ts_data_init enable_checkpoint stored write fetched =
      elim (stored >>= load_container_lines) [
        | ok loaded ↦ ok (loaded, none)
        | panic ↦ panic
        | err e ↦ fetched >>= λ cache.
            if enable_checkpoint
            then save cache write (container_data_checkpoint cache)
            else ok (cache, none)
      ]

  -- `WorkloadTsDataInit`; without a checkpoint the error of the load is returned.
  unfoldable pub workload_ts_data_init :
      Bool
      → Outcome (List (List String))
      → (List (List String) → Option String)
      → Outcome (WorkloadCache F)
      → Outcome (WorkloadCache F × Option String)
  workload_ts_data_init enable_checkpoint stored write fetched =
      elim (stored >>= load_workload_lines) [
        | ok loaded ↦ ok (loaded, none)
        | panic ↦ panic
        | err e ↦ fetched >>= λ cache.
            if enable_checkpoint
            then save cache write (workload_time_series_data_checkpoint cache)
            else ok (cache, some e)
      ]

  -- `Init` behind `initWorkloadsSpec`, from what both functions come to; `err` is the text with which
  -- it ends the process.
  unfoldable pub init :
      Bool
      → Outcome (ContainerCache F × Option String)
      → Outcome (WorkloadCache F × Option String)
      → Outcome (ContainerCache F × WorkloadCache F)
  init enable_workload_time_series containers workloads = containers >>= λ (c, e). elim e [
    | some e' ↦ err ("Failed to init container time series data: " <> e')
    | none ↦
        if enable_workload_time_series
        then (workloads >>= λ (w, f). elim f [
          | some f' ↦ err ("Failed to init workload time series data: " <> f')
          | none ↦ ok (c, w)
        ])
        else ok (c, [])
  ]
