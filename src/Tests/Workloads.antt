-- ===== src/Tests/Workloads.antt =====
-- Workloads, their owners, recommendations and queries at concrete data.
use mathlib.Core.Option.{map as map_option}
use fadvisor.Prelude.{
  ℕ, ◌<◌, ◌≡◌, ◌≢◌, ◌↔◌, refl, ap, true, false, none, some, List, [], ◌∷◌, String, ◌=s=◌, arith,
  map, inl, inr, if◌then◌else◌,
}
use fadvisor.Prelude.Dict.{Dict, lookup}
use fadvisor.Prelude.Outcome.{Outcome, ok, err, panic, ◌>>=◌, Outcome-cases}
use fadvisor.Kube.{Pod, Container}
use fadvisor.Kube.Owner.{Api, Object, OwnerReference, owner_of, first_owner, find_root_owner}
use fadvisor.Kube.Owner.Laws.{IsTop, find_root_owner_lem}
use fadvisor.Cloud.{CloudPodSpec}
use fadvisor.Prom.Series.{TimeSeries}
use fadvisor.Comparator.{NamespacedName, RawContainerTimeSeriesData}
use fadvisor.Comparator.Checkpoint.Keys.{find_name}
use fadvisor.Comparator.Estimator.{StatsLibrary, estimation, param}
use fadvisor.Comparator.Recommend.{recommend_container, container_rounds}
use fadvisor.Comparator.Recommend.Limits.{memory_limit_from_cpu}
use fadvisor.Comparator.Recommend.Laws.{container_rounds_lem, updated}
use fadvisor.Comparator.Workloads.{SpecConverter, Owners, init_workloads_spec}
use fadvisor.Comparator.Workloads.Laws.{first_spec, init_workloads_spec_lem}
use fadvisor.Metric.{Selectors, Metric, pod_metric}
use fadvisor.Metric.Prometheus.{build_query}
use fadvisor.Metric.Laws.{is_ok, is_supported, build_query_lem}
use fadvisor.Comparator.Checkpoint.{ContainerCache, WorkloadCache}
use fadvisor.Comparator.Checkpoint.Load.{load_workload_lines}
use fadvisor.Comparator.Fetch.{Range, DataSource, fetch_workload, workload_ts_data_init, init}
use fadvisor.Comparator.Fetch.Laws.{init_lem, fetch_workload_uncountable}
use fadvisor.Tests.Numbers.{strokes_float, nat_quantity}

abbrev object : String → String → List OwnerReference → Object
object kind name owners = record {
  api_version = "apps/v1";
  kind = kind;
  namespace = "default";
  name = name;
  owner_references = owners;
}

abbrev deployment : Object
deployment = object "Deployment" "web" []

abbrev replica_set : Object
replica_set =
    object "ReplicaSet" "web-5d"
      (record { api_version = "apps/v1"; kind = "Deployment"; name = "web" } ∷ [])

-- A server that knows the one deployment.
abbrev server : Api
server = record {
  parse_group_version = λ s. ok ("apps", "v1");
  rest_mappings = λ group kind version. ok ("deployments" ∷ []);
  all_mappings = λ group kind. ok ("deployments" ∷ []);
  get = λ r ns name. ok deployment;
  to_unstructured = λ o. ok o;
  show_errors = λ errs. "not found";
  get_daemon_set = λ ns name. err "not found";
  get_scale = λ ns r name. ok (record { desired = 3; current = 2 });
  to_lower = λ s. s;
}

abbrev rank : Object → ℕ
rank o = elim o.owner_references [ [] ↦ 0 | r ∷ rs ↦ 1 ]

server_ranked :
    (obj next : Object) (owner : OwnerReference) (rest : List OwnerReference)
    → obj.owner_references ≡ owner ∷ rest
    → owner_of server obj owner ≡ ok next
    → rank next < rank obj
unfolding owner_of first_owner
server_ranked obj next owner rest owners e =
    let zero_rank : 0 ≡ rank next = ap (λ o. elim o [ ok x ↦ rank x | err m ↦ 0 | panic ↦ 0 ]) e in
    let one_rank : rank obj ≡ 1 = ap (λ os. elim os [ [] ↦ 0 | r ∷ rs ↦ 1 ]) owners in
    omega (arith, zero_rank, one_rank)

find_root_owner_example :
    (r : Outcome Object) × (find_root_owner server 2 replica_set ≡ some r)
    × ((root : Object)
        → r ≡ ok root
        → (top : Object) × IsTop server replica_set top × (server.to_unstructured top ≡ ok root))
find_root_owner_example = find_root_owner_lem server rank server_ranked 2 replica_set (omega arith)

abbrev pod : String → List (Container ℕ) → Pod ℕ
pod name cs = record {
  namespace = "default";
  name = name;
  node_name = "";
  annotations = none;
  owner_kinds = [];
  containers = cs;
}

abbrev spec_of : Pod ℕ → CloudPodSpec ℕ
spec_of p = record {
  pod_ref = some p;
  cpu = 1;
  mem = 2;
  cpu_limit = 1;
  mem_limit = 2;
  zone = "";
  machine_arch = "intel";
  gpu = 0;
  pod_charge_type = "";
  time_span = 3600;
  goods_num = 1;
  serverless = false;
  qos_class = "Burstable";
}

abbrev converter : SpecConverter ℕ
converter = record {
  pod2spec = spec_of;
  node2spec = λ n. record {
    node_ref = some n;
    cpu = 4;
    mem = 8;
    instance_type = "";
    charge_type = "";
    zone = "";
    region = "";
    gpu = 0;
    gpu_type = "";
    virtual_node = false;
  };
  pod2serverless_spec = spec_of;
}

abbrev owners : Owners ℕ
owners = record {
  root = λ p. if p.name =s= "lost" then none else some deployment;
  replicas = λ o. some 3;
  to_lower = λ s. if s =s= "Deployment" then "deployment" else s;
}

abbrev three_pods : List (Pod ℕ)
three_pods = pod "lost" [] ∷ pod "web-1" [] ∷ pod "web-2" [] ∷ []

abbrev web_name : NamespacedName
web_name = record { namespace = "default"; name = "web" }

init_workloads_spec_example :
    find_name "Deployment" web_name (init_workloads_spec converter owners three_pods [])
    ≡ first_spec converter owners "Deployment" web_name three_pods
init_workloads_spec_example =
    init_workloads_spec_lem converter owners "Deployment" web_name three_pods

abbrev library : StatsLibrary ℕ
library = record { percentile_of = λ xs p. ok 4; max_of = λ xs. ok 8 }

abbrev nginx : Container ℕ
nginx = record {
  name = "nginx";
  requests = some (("cpu", 1) ∷ ("memory", 5) ∷ []);
  limits = some (("cpu", 2) ∷ ("memory", 5) ∷ []);
}

memory_limit_from_cpu_example :
    map_option
      (lookup "memory")
      ((recommend_container {F = ℕ} (some 4) (some 10) nginx nginx).limits)
    ≡ some (some 20)
unfolding lookup strokes_float nat_quantity
memory_limit_from_cpu_example =
    memory_limit_from_cpu nginx 4 10 (("cpu", 1) ∷ ("memory", 5) ∷ [])
      (("cpu", 2) ∷ ("memory", 5) ∷ []) 1 2 5 refl refl refl refl refl

abbrev usage : Dict (RawContainerTimeSeriesData ℕ)
usage =
    (
      "nginx",
      record {
        cpu = [];
        mem = [];
        cpu_requests = [];
        mem_requests = [];
        cpu_limits = [];
        mem_limits = [];
      },
    )
    ∷ []

abbrev two_containers : Pod ℕ
two_containers = pod "web-1" (nginx ∷ record nginx { name = "sidecar" } ∷ [])

never_panics : (ts : TimeSeries ℕ) → estimation library ts [] ≢ panic
unfolding estimation param lookup
never_panics ts e = cc

container_rounds_example :
    container_rounds library [] usage two_containers.containers (record {
      recommended = two_containers;
      percent = two_containers;
      max = two_containers;
      max_margin = two_containers;
    })
    ≡ ok (record {
      recommended = record two_containers {
        containers = map (updated library [] usage (λ s. s.recommended)) two_containers.containers;
      };
      percent = record two_containers {
        containers = map (updated library [] usage (λ s. s.percentile)) two_containers.containers;
      };
      max = record two_containers {
        containers = map (updated library [] usage (λ s. s.max)) two_containers.containers;
      };
      max_margin = record two_containers {
        containers =
            map (updated library [] usage (λ s. s.max_recommended)) two_containers.containers;
      };
    })
container_rounds_example =
    container_rounds_lem library [] usage never_panics two_containers ((refl, tt), (tt, tt))

abbrev selectors : Selectors String
selectors = record {
  everything = "";
  show_selector = λ s. s;
  exact_match = λ s label. none;
  of_set = λ set. "";
  add_requirements = λ s t. s;
  to_lower = λ s. s;
}

abbrev pod_usage : Metric String
pod_usage = record {
  type = pod_metric;
  metric_name = "memory";
  workload = none;
  container = none;
  pod = some (record { namespace = "default"; name = "web-1"; selector = none });
  node = none;
  prom = none;
}

build_query_example :
    is_ok (build_query selectors false pod_usage) ≡ is_supported selectors pod_metric pod_usage
build_query_example = build_query_lem selectors false pod_usage

-- A source with no data that fails where there is no query.
abbrev empty_source : DataSource String ℕ
empty_source = record {
  query_time_series = λ m range. elim (build_query selectors false m) [
    | ok q ↦ ok []
    | err e ↦ err e
    | panic ↦ err "panic"
  ];
}

source_asks :
    (m : Metric String) (range : Range) (e : String)
    → build_query selectors false m ≡ err e
    → (f : String) × (empty_source.query_time_series m range ≡ err f)
source_asks m range e h = (e, ground (arith, h))

source_calm : (m : Metric String) (range : Range) → empty_source.query_time_series m range ≢ panic
source_calm m range = elim (Outcome-cases (build_query selectors false m)) [
  | inl p ↦ λ e. ground (arith, p, e)
  | inr (inl (q, p)) ↦ λ e. ground (arith, p, e)
  | inr (inr (f, p)) ↦ λ e. ground (arith, p, e)
]

abbrev any_range : Range
any_range = record { start = 0; end = 60; step = 60 }

fetch_workload_uncountable_example :
    (e : String) × (fetch_workload selectors empty_source "cls-1" any_range
        (object "ReplicaSet" "web-5d" [])
      ≡ err e)
fetch_workload_uncountable_example =
    fetch_workload_uncountable selectors empty_source "cls-1" false
      (object "ReplicaSet" "web-5d" []) any_range source_asks source_calm refl refl

-- Without a checkpoint file, although the data source answers.
init_example :
    ((caches : ContainerCache ℕ × WorkloadCache ℕ) × (init true
          (ok ([], none))
          (workload_ts_data_init false (err "no file") (λ lines. none) (ok []))
        ≡ ok caches))
    ↔ ((loaded : WorkloadCache ℕ) × ((err "no file" >>= load_workload_lines {F = ℕ}) ≡ ok loaded))
init_example = init_lem [] (err "no file") (λ lines. none) (ok [])
