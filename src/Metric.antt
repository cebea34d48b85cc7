-- ===== src/Metric.antt =====
-- pkg/metricquery/type.go: what a metric is about, whether it is well formed, and its key. Selectors
-- of labels are library code.
pub mod Templates
pub mod Prometheus
pub mod Naming
pub mod Laws
use fadvisor.Prelude.{Option, none, some, List, [], ◌∷◌, String, ◌<>◌}
use fadvisor.Prelude.Dict.{Dict}

-- `labels.Selector` of apimachinery.
pub record Selectors (S : Type 0) : Type 0 where
  pub everything : S
  -- `String`
  pub show_selector : S → String
  -- `RequiresExactMatch`
  pub exact_match : S → String → Option String
  -- `SelectorFromSet`
  pub of_set : Dict String → S
  -- `selector.Add(reqs...)` with the requirements of the second selector
  pub add_requirements : S → S → S
  pub to_lower : String → String

-- `MetricType`
pub data MetricType : Type 0 where
  workload_metric container_metric pod_metric node_metric promql_metric : MetricType
  unknown_metric : String → MetricType

pub record WorkloadNamerInfo (S : Type 0) : Type 0 where
  pub namespace : String
  pub kind : String
  pub name : String
  pub api_version : String
  pub selector : Option S

pub record ContainerNamerInfo (S : Type 0) : Type 0 where
  pub namespace : String
  pub workload_name : String
  pub kind : String
  pub api_version : String
  pub container_name : String
  pub selector : Option S

pub record PodNamerInfo (S : Type 0) : Type 0 where
  pub namespace : String
  pub name : String
  pub selector : Option S

pub record NodeNamerInfo (S : Type 0) : Type 0 where
  pub name : String
  pub selector : Option S

pub record PromNamerInfo (S : Type 0) : Type 0 where
  pub query_expr : String
  pub namespace : String
  pub selector : Option S

pub record Metric (S : Type 0) : Type 0 where
  pub type : MetricType
  pub metric_name : String
  pub workload : Option (WorkloadNamerInfo S)
  pub container : Option (ContainerNamerInfo S)
  pub pod : Option (PodNamerInfo S)
  pub node : Option (NodeNamerInfo S)
  pub prom : Option (PromNamerInfo S)

unfoldable pub type_text : MetricType → String
type_text workload_metric = "workload"
type_text container_metric = "container"
type_text pod_metric = "pod"
type_text node_metric = "node"
type_text promql_metric = "promql"
type_text (unknown_metric t) = t

-- `strings.Join(parts, "-")`
unfoldable pub join : List String → String
join [] = ""
join (s ∷ []) = s
join (s ∷ t ∷ ts) = s <> ("-" <> join (t ∷ ts))

abbrev missing : {A : Type 0} → Option A → Option String
missing none = some "metric type, but no namer info provided"
missing (some a) = none

module _ {S : Type 0} where
  abbrev workload_error : Option (WorkloadNamerInfo S) → Option String
  workload_error none = some "metric type, but no namer info provided"
  workload_error (some w) = elim w.selector [
    | none ↦ some "workload metric type must has selector to select pods"
    | some s ↦ none
  ]

  abbrev type_error : MetricType → Metric S → Option String
  type_error workload_metric m = workload_error m.workload
  type_error container_metric m = missing m.container
  type_error pod_metric m = missing m.pod
  type_error node_metric m = missing m.node
  type_error promql_metric m = missing m.prom
  type_error (unknown_metric t) m = some "not supported metric type"

  -- `ValidateMetric`: the error, if there is one.
  unfoldable pub validate_metric : Metric S → Option String
  validate_metric m = type_error m.type m

module _ {S : Type 0} (lib : Selectors S) where
  abbrev pub selector_text : Option S → String
  selector_text none = ""
  selector_text (some s) = lib.show_selector s

  unfoldable pub key_by_workload : MetricType → String → WorkloadNamerInfo S → String
  key_by_workload t name w = join (
      type_text t
      ∷ lib.to_lower name
      ∷ w.kind
      ∷ w.api_version
      ∷ w.namespace
      ∷ w.name
      ∷ selector_text w.selector
      ∷ [])

  unfoldable pub key_by_container : MetricType → String → ContainerNamerInfo S → String
  key_by_container t name c = join (
      type_text t
      ∷ lib.to_lower name
      ∷ c.namespace
      ∷ c.workload_name
      ∷ c.container_name
      ∷ selector_text c.selector
      ∷ [])

  unfoldable pub key_by_pod : MetricType → String → PodNamerInfo S → String
  key_by_pod t name p =
      join (type_text t ∷ lib.to_lower name ∷ p.namespace ∷ p.name ∷ selector_text p.selector ∷ [])

  unfoldable pub key_by_node : MetricType → String → NodeNamerInfo S → String
  key_by_node t name n =
      join (type_text t ∷ lib.to_lower name ∷ n.name ∷ selector_text n.selector ∷ [])

  unfoldable pub key_by_promql : MetricType → String → PromNamerInfo S → String
  key_by_promql t name p =
      join (
        type_text t
        ∷ p.namespace
        ∷ lib.to_lower name
        ∷ p.query_expr
        ∷ selector_text p.selector
        ∷ [])

  abbrev pub or_empty : {A : Type 0} → (A → String) → Option A → String
  or_empty f none = ""
  or_empty f (some a) = f a

  -- The switch of `BuildUniqueKey`; a metric that is not valid has the key "".
  unfoldable pub key_by_type : MetricType → Metric S → String
  key_by_type workload_metric m = or_empty (key_by_workload m.type m.metric_name) m.workload
  key_by_type container_metric m = or_empty (key_by_container m.type m.metric_name) m.container
  key_by_type pod_metric m = or_empty (key_by_pod m.type m.metric_name) m.pod
  key_by_type node_metric m = or_empty (key_by_node m.type m.metric_name) m.node
  key_by_type promql_metric m = or_empty (key_by_promql m.type m.metric_name) m.prom
  key_by_type (unknown_metric t) m = ""

  unfoldable pub build_unique_key : Metric S → String
  build_unique_key m = elim (validate_metric m) [ some e ↦ "" | none ↦ key_by_type m.type m ]
