-- ===== src/Metric/Naming.antt =====
-- pkg/metricnaming/naming.go: the metrics of workloads and of their containers.
use fadvisor.Prelude.{Option, none, some, [], String, ◌=s=◌, if◌then◌else◌}
use fadvisor.Prelude.Dict.{Dict, insert}
use fadvisor.Kube.Owner.{Object}
use fadvisor.Metric.{Selectors, Metric, workload_metric, container_metric}

-- `if value != "" { set[name] = value }`
abbrev pub set_label : String → String → Dict String → Dict String
set_label name value set = if value =s= "" then set else insert name value set

module _ {S : Type 0} (lib : Selectors S) where
  open lib use {of_set, add_requirements}

  -- A selector from a set always has requirements to add.
  abbrev pub with_selector : Option S → S → S
  with_selector none selector = selector
  with_selector (some given) selector = add_requirements given selector

  -- `WorkloadMetricNamer`, and `ResourceToWorkloadMetricNamer` with a selector that is not nil.
  unfoldable pub workload_metric_namer : String → Object → String → Option S → Metric S
  workload_metric_namer clusterid target metric_name given = record {
    type = workload_metric;
    metric_name = metric_name;
    workload = some (record {
      namespace = target.namespace;
      kind = target.kind;
      api_version = target.api_version;
      name = target.name;
      selector = some (with_selector given (of_set (set_label "cluster_id" clusterid [])));
    });
    container = none;
    pod = none;
    node = none;
    prom = none;
  }

  unfoldable pub resource_to_workload_metric_namer : String → Object → String → S → Metric S
  resource_to_workload_metric_namer clusterid target resource_name given =
      workload_metric_namer clusterid target resource_name (some given)

  unfoldable pub container_labels : String → String → String → String → Dict String
  container_labels clusterid namespace workload_name containername =
      set_label "container_name" containername (
        set_label "workload_name" workload_name
          (set_label "namespace" namespace (set_label "cluster_id" clusterid [])))

  unfoldable pub container_metric_of : String → String → String → String → String → S → Metric S
  container_metric_of kind namespace workload_name containername metric_name selector = record {
    type = container_metric;
    metric_name = metric_name;
    workload = none;
    container = some (record {
      namespace = namespace;
      kind = kind;
      api_version = "";
      workload_name = workload_name;
      container_name = containername;
      selector = some selector;
    });
    pod = none;
    node = none;
    prom = none;
  }

  unfoldable pub container_metric_namer :
      String → String → String → String → String → String → Option S → Metric S
  container_metric_namer clusterid kind namespace workload_name containername metric_name given =
      container_metric_of kind namespace workload_name containername metric_name (
        with_selector given
          (of_set (container_labels clusterid namespace workload_name containername)))

  -- `ResourceToContainerMetricNamer`, which names no kind.
  unfoldable pub resource_to_container_metric_namer :
      String → String → String → String → String → Metric S
  resource_to_container_metric_namer clusterid namespace workload_name containername resource =
      container_metric_of "" namespace workload_name containername resource
        (of_set (container_labels clusterid namespace workload_name containername))
