-- ===== src/Metric/Templates.antt =====
-- The templates of pkg/querybuilder-providers/prometheus/builder.go: the texts between the verbs `%s`.
use fadvisor.Prelude.{List, [], ◌∷◌, String, ◌<>◌}

abbrev pub workload_cpu_usage_expr_template : List String
workload_cpu_usage_expr_template =
    ("sum(irate(container_cpu_usage_seconds_total{container!=\"\",image!=\"\",container!=\""
      <> "POD\",namespace=\"")
    ∷ "\",pod=~\"^"
    ∷ "-.*$\","
    ∷ "}["
    ∷ "]))"
    ∷ []

abbrev pub workload_mem_usage_expr_template : List String
workload_mem_usage_expr_template =
    ("sum(container_memory_working_set_bytes{container!=\"\",image!=\"\",container!=\"POD\","
      <> "namespace=\"")
    ∷ "\",pod=~\"^"
    ∷ "-.*$\","
    ∷ "})"
    ∷ []

abbrev pub node_cpu_usage_expr_template : List String
node_cpu_usage_expr_template =
    "sum(count(node_cpu_seconds_total{mode=\"idle\",instance=~\"(" ∷ ")(:\\\\d+)?\","
    ∷ "}) by (mode, cpu)) - sum(irate(node_cpu_seconds_total{mode=\"idle\",instance=~\"("
    ∷ ")(:\\\\d+)?\"," ∷ "}[" ∷ "]))" ∷ []

abbrev pub node_mem_usage_expr_template : List String
node_mem_usage_expr_template =
    "sum(node_memory_MemTotal_bytes{instance=~\"(" ∷ ")(:\\\\d+)?\","
    ∷ "} - node_memory_MemAvailable_bytes{instance=~\"(" ∷ ")(:\\\\d+)?\"," ∷ "})" ∷ []

abbrev pub pod_cpu_usage_expr_template : List String
pod_cpu_usage_expr_template =
    "sum(irate(container_cpu_usage_seconds_total{container!=\"POD\",namespace=\"" ∷ "\",pod=\""
    ∷ "\"," ∷ "}[" ∷ "]))" ∷ []

abbrev pub pod_mem_usage_expr_template : List String
pod_mem_usage_expr_template =
    "sum(container_memory_working_set_bytes{container!=\"POD\",namespace=\"" ∷ "\",pod=\"" ∷ "\","
    ∷ "})" ∷ []

abbrev pub container_cpu_usage_expr_template : List String
container_cpu_usage_expr_template =
    "irate(container_cpu_usage_seconds_total{container!=\"POD\",namespace=\"" ∷ "\",pod=~\"^"
    ∷ ".*$\",container=\"" ∷ "\"," ∷ "}[" ∷ "])" ∷ []

abbrev pub container_mem_usage_expr_template : List String
container_mem_usage_expr_template =
    "container_memory_working_set_bytes{container!=\"POD\",namespace=\"" ∷ "\",pod=~\"^"
    ∷ ".*$\",container=\"" ∷ "\"," ∷ "}" ∷ []

abbrev pub container_resource_request_expr_template : List String
container_resource_request_expr_template =
    ("avg(\n"
      <> "    kube_pod_container_resource_requests{container!=\"\", container!=\"POD\", contai"
      <> "ner=\"")
    ∷ "\", resource=\""
    ∷ "\",pod=~\""
    ∷ "-.*\",namespace=\""
    ∷ "\","
    ∷ ("} \n" <> "    * on (pod, namespace) group_left(owner_kind, owner_name) \n"
        <> "    max(kube_pod_owner{owner_is_controller=\"true\",owner_kind=~\"")
    ∷ "\",owner_name=~\""
    ∷ "\",namespace=\""
    ∷ "\","
    ∷ ("}) without (instance)\n" <> ") by (namespace, owner_kind,owner_name,container)")
    ∷ []

abbrev pub container_resource_limit_expr_template : List String
container_resource_limit_expr_template =
    ("avg(\n"
      <> "    kube_pod_container_resource_limits{container!=\"\", container!=\"POD\", containe"
      <> "r=\"")
    ∷ "\", resource=\""
    ∷ "\",pod=~\""
    ∷ "-.*\",namespace=\""
    ∷ "\","
    ∷ ("} \n" <> "    * on (pod, namespace) group_left(owner_kind, owner_name) \n"
        <> "    max(kube_pod_owner{owner_is_controller=\"true\",owner_kind=~\"")
    ∷ "\",owner_name=~\""
    ∷ "\",namespace=\""
    ∷ "\","
    ∷ ("}) without (instance)\n" <> ") by (namespace, owner_kind,owner_name,container)")
    ∷ []

abbrev pub deployment_container_resource_request_expr_template : List String
deployment_container_resource_request_expr_template =
    ("avg(\n"
      <> "    kube_pod_container_resource_requests{container!=\"\", container!=\"POD\", contai"
      <> "ner=\"")
    ∷ "\",resource=\""
    ∷ "\",pod=~\""
    ∷ "-.*\",namespace=\""
    ∷ "\","
    ∷ ("} \n" <> "    * on (pod, namespace) group_left(owner_kind, owner_name) \n"
        <> "    max(label_replace(kube_pod_owner{owner_is_controller=\"true\",owner_kind=\"Repl"
        <> "icaSet\",owner_name=~\"")
    ∷ "-.*\",namespace=\""
    ∷ "\","
    ∷ ("}, \"owner_name\", \"$1\", \"owner_name\", \"(.*)-.(.*)\")) without (instance)\n"
        <> ") by (namespace, owner_kind,owner_name,container)")
    ∷ []

abbrev pub deployment_container_resource_limit_expr_template : List String
deployment_container_resource_limit_expr_template =
    ("avg(\n"
      <> "    kube_pod_container_resource_limits{container!=\"\", container!=\"POD\", containe"
      <> "r=\"")
    ∷ "\",resource=\""
    ∷ "\",pod=~\""
    ∷ "-.*\",namespace=\""
    ∷ "\","
    ∷ ("} \n" <> "    * on (pod, namespace) group_left(owner_kind, owner_name) \n"
        <> "    max(label_replace(kube_pod_owner{owner_is_controller=\"true\",owner_kind=\"Repl"
        <> "icaSet\",owner_name=~\"")
    ∷ "-.*\",namespace=\""
    ∷ "\","
    ∷ ("}, \"owner_name\", \"$1\", \"owner_name\", \"(.*)-.(.*)\")) without (instance)\n"
        <> ") by (namespace, owner_kind,owner_name,container)")
    ∷ []

abbrev pub deployment_resource_request_expr_template : List String
deployment_resource_request_expr_template =
    ("max(\n" <> "    sum(\n"
      <> "        kube_pod_container_resource_requests{container!=\"\", container!=\"POD\", re"
      <> "source=\"")
    ∷ "\",pod=~\""
    ∷ "-.*\",namespace=\""
    ∷ "\","
    ∷ ("} \n" <> "        * on (pod, namespace) group_left(owner_kind, owner_name) \n"
        <> "        max(label_replace(kube_pod_owner{owner_is_controller=\"true\",owner_kind=\""
        <> "ReplicaSet\",owner_name=~\"")
    ∷ "-.*\",namespace=\""
    ∷ "\","
    ∷ ("}, \"owner_name\", \"$1\", \"owner_name\", \"(.*)-.(.*)\")) without (instance)\n"
        <> "    ) by (namespace, owner_kind,owner_name)\n" <> ") without (instance)")
    ∷ []

abbrev pub deployment_resource_limit_expr_template : List String
deployment_resource_limit_expr_template =
    ("max(\n" <> "    sum(\n"
      <> "        kube_pod_container_resource_limits{container!=\"\", container!=\"POD\", reso"
      <> "urce=\"")
    ∷ "\",pod=~\""
    ∷ "-.*\",namespace=\""
    ∷ "\","
    ∷ ("} \n" <> "        * on (pod, namespace) group_left(owner_kind, owner_name) \n"
        <> "        max(label_replace(kube_pod_owner{owner_is_controller=\"true\",owner_kind=\""
        <> "ReplicaSet\",owner_name=~\"")
    ∷ "-.*\",namespace=\""
    ∷ "\","
    ∷ ("}, \"owner_name\", \"$1\", \"owner_name\", \"(.*)-.(.*)\")) without (instance)\n"
        <> "    ) by (namespace, owner_kind,owner_name)\n" <> ") without (instance)")
    ∷ []

abbrev pub workload_resource_request_expr_template : List String
workload_resource_request_expr_template =
    ("max(\n" <> "    sum(\n"
      <> "        kube_pod_container_resource_requests{container!=\"\", container!=\"POD\", re"
      <> "source=\"")
    ∷ "\",pod=~\""
    ∷ "-.*\",namespace=\""
    ∷ "\","
    ∷ ("} \n" <> "        * on (pod, namespace) group_left(owner_kind, owner_name) \n"
        <> "        max(kube_pod_owner{owner_is_controller=\"true\",owner_kind=~\"")
    ∷ "\",owner_name=~\""
    ∷ "\",namespace=\""
    ∷ "\","
    ∷ ("}) without (instance)\n" <> "    ) by (namespace, owner_kind,owner_name)\n"
        <> ") without (instance)")
    ∷ []

abbrev pub workload_resource_limit_expr_template : List String
workload_resource_limit_expr_template =
    ("max(\n" <> "    sum(\n"
      <> "        kube_pod_container_resource_limits{container!=\"\", container!=\"POD\", reso"
      <> "urce=\"")
    ∷ "\",pod=~\""
    ∷ "-.*\",namespace=\""
    ∷ "\","
    ∷ ("} \n" <> "        * on (pod, namespace) group_left(owner_kind, owner_name) \n"
        <> "        max(kube_pod_owner{owner_is_controller=\"true\",owner_kind=~\"")
    ∷ "\",owner_name=~\""
    ∷ "\",namespace=\""
    ∷ "\","
    ∷ ("}) without (instance)\n" <> "    ) by (namespace, owner_kind,owner_name)\n"
        <> ") without (instance)")
    ∷ []

abbrev pub stateful_set_plus_replicas_expr_template : List String
stateful_set_plus_replicas_expr_template =
    ("label_replace(label_replace(max(kube_statefulsetplus_status_replicas_ready{names"
      <> "pace=\"")
    ∷ "\",statefulset=\""
    ∷ "\","
    ∷ ("}) without (instance, job), \"owner_name\", \"$1\", \"statefulset\", \"(.*)\"), \"owner_k"
        <> "ind\", \"StatefulSetPlus\", \"\", \"\")")
    ∷ []

abbrev pub stateful_set_replicas_expr_template : List String
stateful_set_replicas_expr_template =
    ("label_replace(label_replace(max(kube_statefulset_status_replicas_ready{namespace" <> "=\"")
    ∷ "\",statefulset=\""
    ∷ "\","
    ∷ ("}) without (instance, job), \"owner_name\", \"$1\", \"statefulset\", \"(.*)\"), \"owner_k"
        <> "ind\", \"StatefulSet\", \"\", \"\")")
    ∷ []

abbrev pub deployment_replicas_expr_template : List String
deployment_replicas_expr_template =
    ("label_replace(label_replace(max(kube_deployment_status_replicas_ready{namespace=" <> "\"")
    ∷ "\",deployment=\""
    ∷ "\","
    ∷ ("}) without (instance, job), \"owner_name\", \"$1\", \"deployment\", \"(.*)\"), \"owner_ki"
        <> "nd\", \"Deployment\", \"\", \"\")")
    ∷ []

abbrev pub daemon_set_replicas_expr_template : List String
daemon_set_replicas_expr_template =
    "label_replace(label_replace(max(kube_daemonset_status_number_ready{namespace=\""
    ∷ "\",daemonset=\""
    ∷ "\","
    ∷ ("}) without (instance, job),  \"owner_name\", \"$1\", \"daemonset\", \"(.*)\"),\"owner_kin"
        <> "d\", \"DaemonSet\", \"\", \"\")")
    ∷ []
