-- ===== src/Metric/Prometheus.antt =====
-- `BuildQuery` of pkg/querybuilder-providers/prometheus/builder.go. A query is its PromQL expression.
use fadvisor.Prelude.{Bool, Option, none, some, List, [], ◌∷◌, String, ◌<>◌, ◌=s=◌, if◌then◌else◌}
use fadvisor.Prelude.Outcome.{Outcome, ok, err}
use fadvisor.Metric.{
  Selectors, MetricType, workload_metric, container_metric, pod_metric, node_metric, promql_metric,
  unknown_metric, WorkloadNamerInfo, ContainerNamerInfo, Metric,
}
use fadvisor.Metric.Templates.{
  workload_cpu_usage_expr_template, workload_mem_usage_expr_template, node_cpu_usage_expr_template,
  node_mem_usage_expr_template, pod_cpu_usage_expr_template, pod_mem_usage_expr_template,
  container_cpu_usage_expr_template, container_mem_usage_expr_template,
  container_resource_request_expr_template, container_resource_limit_expr_template,
  deployment_container_resource_request_expr_template,
  deployment_container_resource_limit_expr_template, deployment_resource_request_expr_template,
  deployment_resource_limit_expr_template, workload_resource_request_expr_template,
  workload_resource_limit_expr_template, stateful_set_plus_replicas_expr_template,
  stateful_set_replicas_expr_template, deployment_replicas_expr_template,
  daemon_set_replicas_expr_template,
}

-- `fmt.Sprintf` with a template that has only verbs `%s`.
unfoldable pub sprintf : List String → List String → String
sprintf [] args = ""
sprintf (p ∷ ps) [] = p <> sprintf ps []
sprintf (p ∷ ps) (a ∷ args) = p <> (a <> sprintf ps args)

module _ {S : Type 0} (lib : Selectors S) (federated_cluster_scope : Bool) where
  open lib use {to_lower, exact_match}

  -- The condition on the cluster, where the scope asks for it and the selector names one.
  unfoldable pub cluster_cond : Option S → String
  cluster_cond none = ""
  cluster_cond (some selector) =
      if federated_cluster_scope
      then (elim (exact_match selector "cluster_id") [
        | none ↦ ""
        | some id ↦ "cluster=\"" <> (id <> "\"")
      ])
      else ""

  unfoldable pub workload_resource_query :
      List String → List String → String → WorkloadNamerInfo S → String
  workload_resource_query deployment_template template resource w =
      let cond = cluster_cond w.selector in
      if to_lower w.kind =s= "deployment"
      then sprintf deployment_template
          (resource ∷ w.name ∷ w.namespace ∷ cond ∷ w.name ∷ w.namespace ∷ cond ∷ [])
      else sprintf template
          (resource ∷ w.name ∷ w.namespace ∷ cond ∷ w.kind ∷ w.name ∷ w.namespace ∷ cond ∷ [])

  unfoldable pub replicas_query : WorkloadNamerInfo S → Outcome String
  replicas_query w =
      let args = w.namespace ∷ w.name ∷ cluster_cond w.selector ∷ [] in
      let workload_kind = to_lower w.kind in
      if workload_kind =s= "deployment"
      then ok (sprintf deployment_replicas_expr_template args)
      else if workload_kind =s= "statefulset"
      then ok (sprintf stateful_set_replicas_expr_template args)
      else if workload_kind =s= "statefulsetplus"
      then ok (sprintf stateful_set_plus_replicas_expr_template args)
      else if workload_kind =s= "daemonset"
      then ok (sprintf daemon_set_replicas_expr_template args)
      else err "metric type do not support workload kind"

  -- The switch of `workloadQuery` on the name of the metric in small letters.
  unfoldable pub workload_query_by_name : String → WorkloadNamerInfo S → Outcome String
  workload_query_by_name name w =
      let cond = cluster_cond w.selector in
      if name =s= "cpu"
      then ok (sprintf workload_cpu_usage_expr_template (w.namespace ∷ w.name ∷ cond ∷ "3m" ∷ []))
      else if name =s= "memory"
      then ok (sprintf workload_mem_usage_expr_template (w.namespace ∷ w.name ∷ cond ∷ []))
      else if name =s= "cpu_request"
      then ok (
          workload_resource_query deployment_resource_request_expr_template
            workload_resource_request_expr_template "cpu" w)
      else if name =s= "cpu_limit"
      then ok (
          workload_resource_query deployment_resource_limit_expr_template
            workload_resource_limit_expr_template "cpu" w)
      else if name =s= "mem_request"
      then ok (
          workload_resource_query deployment_resource_request_expr_template
            workload_resource_request_expr_template "memory" w)
      else if name =s= "mem_limit"
      then ok (
          workload_resource_query deployment_resource_limit_expr_template
            workload_resource_limit_expr_template "memory" w)
      else if name =s= "replicas"
      then replicas_query w
      else err "metric type do not support resource metric"

  unfoldable pub workload_query : Metric S → Outcome String
  workload_query m = elim m.workload [
    | none ↦ err "metric type, but no WorkloadNamerInfo provided"
    | some w ↦ workload_query_by_name (to_lower m.metric_name) w
  ]

  unfoldable pub container_resource_query :
      List String → List String → String → ContainerNamerInfo S → String
  container_resource_query deployment_template template resource c =
      let cond = cluster_cond c.selector in
      if to_lower c.kind =s= "deployment"
      then sprintf deployment_template (
          c.container_name ∷ resource ∷ c.workload_name ∷ c.namespace ∷ cond ∷ c.workload_name
          ∷ c.namespace ∷ cond ∷ [])
      else sprintf template (
          c.container_name ∷ resource ∷ c.workload_name ∷ c.namespace ∷ cond ∷ c.kind
          ∷ c.workload_name ∷ c.namespace ∷ cond ∷ [])

  -- The switch of `containerQuery`.
  unfoldable pub container_query_by_name : String → ContainerNamerInfo S → Outcome String
  container_query_by_name name c =
      let cond = cluster_cond c.selector in
      if name =s= "cpu"
      then ok (
          sprintf container_cpu_usage_expr_template
            (c.namespace ∷ c.workload_name ∷ c.container_name ∷ cond ∷ "3m" ∷ []))
      else if name =s= "memory"
      then ok (
          sprintf container_mem_usage_expr_template
            (c.namespace ∷ c.workload_name ∷ c.container_name ∷ cond ∷ []))
      else if name =s= "cpu_request"
      then ok (
          container_resource_query deployment_container_resource_request_expr_template
            container_resource_request_expr_template "cpu" c)
      else if name =s= "cpu_limit"
      then ok (
          container_resource_query deployment_container_resource_limit_expr_template
            container_resource_limit_expr_template "cpu" c)
      else if name =s= "mem_request"
      then ok (
          container_resource_query deployment_container_resource_request_expr_template
            container_resource_request_expr_template "memory" c)
      else if name =s= "mem_limit"
      then ok (
          container_resource_query deployment_container_resource_limit_expr_template
            container_resource_limit_expr_template "memory" c)
      else err "metric type do not support resource metric"

  unfoldable pub container_query : Metric S → Outcome String
  container_query m = elim m.container [
    | none ↦ err "metric type, but no ContainerNamerInfo provided"
    | some c ↦ container_query_by_name (to_lower m.metric_name) c
  ]

  unfoldable pub pod_query : Metric S → Outcome String
  pod_query m = elim m.pod [
    | none ↦ err "metric type, but no PodNamerInfo provided"
    | some p ↦
        let cond = cluster_cond p.selector in
        if to_lower m.metric_name =s= "cpu"
        then ok (sprintf pod_cpu_usage_expr_template (p.namespace ∷ p.name ∷ cond ∷ "3m" ∷ []))
        else if to_lower m.metric_name =s= "memory"
        then ok (sprintf pod_mem_usage_expr_template (p.namespace ∷ p.name ∷ cond ∷ []))
        else err "metric type do not support resource metric"
  ]

  unfoldable pub node_query : Metric S → Outcome String
  node_query m = elim m.node [
    | none ↦ err "metric type, but no NodeNamerInfo provided"
    | some n ↦
        let cond = cluster_cond n.selector in
        if to_lower m.metric_name =s= "cpu"
        then ok (sprintf node_cpu_usage_expr_template (n.name ∷ cond ∷ n.name ∷ cond ∷ "3m" ∷ []))
        else if to_lower m.metric_name =s= "memory"
        then ok (sprintf node_mem_usage_expr_template (n.name ∷ cond ∷ n.name ∷ cond ∷ []))
        else err "metric type do not support resource metric"
  ]

  unfoldable pub prom_query : Metric S → Outcome String
  prom_query m = elim m.prom [
    | none ↦ err "metric type, but no PromNamerInfo provided"
    | some p ↦ ok p.query_expr
  ]

  unfoldable pub query_of_type : MetricType → Metric S → Outcome String
  query_of_type workload_metric m = workload_query m
  query_of_type pod_metric m = pod_query m
  query_of_type container_metric m = container_query m
  query_of_type node_metric m = node_query m
  query_of_type promql_metric m = prom_query m
  query_of_type (unknown_metric t) m = err "metric type not supported"

  unfoldable pub build_query : Metric S → Outcome String
  build_query m = query_of_type m.type m
