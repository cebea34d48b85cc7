-- ===== src/Metric/Laws.antt =====
-- For which metrics there is a query.
use fadvisor.Prelude.{
  ◌≡◌, refl, Bool, true, false, ◌&&◌, ◌||◌, Option, none, some, List, [], ◌∷◌, String, ◌=s=◌, arith,
  Option-cases, inl, inr,
}
use fadvisor.Prelude.Outcome.{Outcome, ok, err, panic}
use fadvisor.Metric.{
  Selectors, MetricType, workload_metric, container_metric, pod_metric, node_metric, promql_metric,
  unknown_metric, WorkloadNamerInfo, ContainerNamerInfo, Metric,
}
use fadvisor.Metric.Prometheus.{
  build_query, query_of_type, workload_query, workload_query_by_name, replicas_query,
  container_query, container_query_by_name, pod_query, node_query, prom_query,
}

abbrev pub is_ok : {A : Type 0} → Outcome A → Bool
is_ok (ok a) = true
is_ok (err e) = false
is_ok panic = false

abbrev pub is_one_of : String → List String → Bool
is_one_of s [] = false
is_one_of s (t ∷ ts) = s =s= t || is_one_of s ts

abbrev usage_names : List String
usage_names = "cpu" ∷ "memory" ∷ []

abbrev resource_names : List String
resource_names = "cpu" ∷ "memory" ∷ "cpu_request" ∷ "cpu_limit" ∷ "mem_request" ∷ "mem_limit" ∷ []

abbrev countable_kinds : List String
countable_kinds = "deployment" ∷ "statefulset" ∷ "statefulsetplus" ∷ "daemonset" ∷ []

module _ {S : Type 0} (lib : Selectors S) where
  abbrev supports_workload : String → Option (WorkloadNamerInfo S) → Bool
  supports_workload name none = false
  supports_workload name (some w) =
      is_one_of name resource_names
      || (name =s= "replicas" && is_one_of (lib.to_lower w.kind) countable_kinds)

  abbrev given : {A : Type 0} → Option A → Bool
  given none = false
  given (some a) = true

  -- The names that each type of metric supports, written with small letters; the replicas only of a
  -- workload whose kind can be counted.
  abbrev pub is_supported : MetricType → Metric S → Bool
  is_supported workload_metric m = supports_workload (lib.to_lower m.metric_name) m.workload
  is_supported container_metric m =
      given m.container && is_one_of (lib.to_lower m.metric_name) resource_names
  is_supported pod_metric m = given m.pod && is_one_of (lib.to_lower m.metric_name) usage_names
  is_supported node_metric m = given m.node && is_one_of (lib.to_lower m.metric_name) usage_names
  is_supported promql_metric m = given m.prom
  is_supported (unknown_metric t) m = false

  by_name-eq :
      (federated : Bool) (name : String) (w : WorkloadNamerInfo S)
      → is_ok (workload_query_by_name lib federated name w) ≡ supports_workload name (some w)
  unfolding workload_query_by_name replicas_query
  by_name-eq federated name w = ground arith

  container_by_name-eq :
      (federated : Bool) (name : String) (c : ContainerNamerInfo S)
      → is_ok (container_query_by_name lib federated name c) ≡ is_one_of name resource_names
  unfolding container_query_by_name
  container_by_name-eq federated name c = ground arith

  query_of_type-eq :
      (federated : Bool) (t : MetricType) (m : Metric S)
      → is_ok (query_of_type lib federated t m) ≡ is_supported t m
  unfolding query_of_type workload_query container_query pod_query node_query prom_query
  query_of_type-eq federated workload_metric m = elim (Option-cases m.workload) [
    | inl e ↦ ground (arith, e)
    | inr (w, e) ↦ ground (arith, e, by_name-eq federated (lib.to_lower m.metric_name) w)
  ]
  query_of_type-eq federated container_metric m = elim (Option-cases m.container) [
    | inl e ↦ ground (arith, e)
    | inr (c, e) ↦ ground (arith, e, container_by_name-eq federated (lib.to_lower m.metric_name) c)
  ]
  query_of_type-eq federated pod_metric m = ground arith
  query_of_type-eq federated node_metric m = ground arith
  query_of_type-eq federated promql_metric m = ground arith
  query_of_type-eq federated (unknown_metric t) m = refl

  -- `BuildQuery` gives a query exactly for the metrics that `is_supported` lists, by the type of the
  -- metric, the part it comes with, its name in any letter case and, for replicas, the kind of the
  -- workload; for any other metric it gives an error.
  pub build_query_lem :
      (federated : Bool) (m : Metric S)
      → is_ok (build_query lib federated m) ≡ is_supported m.type m
  unfolding build_query
  build_query_lem federated m = query_of_type-eq federated m.type m
