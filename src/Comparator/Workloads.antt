-- ===== src/Comparator/Workloads.antt =====
-- The specifications of pods, nodes and workloads that pkg/cost-comparator/comparator.go collects:
-- `GetAllPodsSpec`, `GetAllNodesSpec`, `initWorkloadsSpec` and `GetAllWorkloads`.
pub mod Laws
use mathlib.Core.Option.{get_or}
use fadvisor.Prelude.{
  ℕ, Bool, Option, none, some, List, [], ◌∷◌, String, ◌||◌, ◌=s=◌, if◌then◌else◌,
}
use fadvisor.Prelude.Dict.{Dict, lookup, insert}
use fadvisor.Kube.{Node, Pod}
use fadvisor.Kube.Owner.{Object}
use fadvisor.Cloud.{CloudPodSpec, CloudNodeSpec}
use fadvisor.Comparator.{NamespacedName, NameMap, lookup_name, insert_name}

-- The methods of `cloud.Cloud` that the comparator calls.
pub record SpecConverter (Q : Type 0) : Type 0 where
  pub pod2spec : Pod Q → CloudPodSpec Q
  pub node2spec : Node Q → CloudNodeSpec Q
  pub pod2serverless_spec : Pod Q → CloudPodSpec Q

-- A specification with its workload object, `CloudPodSpec.Workload`.
pub record WorkloadSpec (Q : Type 0) : Type 0 where
  pub spec : CloudPodSpec Q
  pub workload : Object

abbrev pub WorkloadsSpec : Type 0 → Type 0
WorkloadsSpec Q = Dict (NameMap (WorkloadSpec Q))

module _ {Q : Type 0} (kobj : Pod Q → String) (cloud : SpecConverter Q) where
  -- `klog.KObj(pod).String()` is the key.
  unfoldable pub get_all_pods_spec : List (Pod Q) → Dict (CloudPodSpec Q) → Dict (CloudPodSpec Q)
  get_all_pods_spec [] res = res
  get_all_pods_spec (pod ∷ pods) res =
      get_all_pods_spec pods (insert (kobj pod) (cloud.pod2spec pod) res)

module _ {Q : Type 0} (cloud : SpecConverter Q) where
  unfoldable pub get_all_nodes_spec :
      List (Node Q) → Dict (CloudNodeSpec Q) → Dict (CloudNodeSpec Q)
  get_all_nodes_spec [] res = res
  get_all_nodes_spec (node ∷ nodes) res =
      get_all_nodes_spec nodes (insert node.name (cloud.node2spec node) res)

abbrev pub name_of : Object → NamespacedName
name_of o = record { namespace = o.namespace; name = o.name }

-- The calls behind a loop over pods: `FindRootOwner` of the converted pod, and the desired number of
-- replicas by `FetchReplicas`; `none` where one of them fails.
pub record Owners (Q : Type 0) : Type 0 where
  pub root : Pod Q → Option Object
  pub replicas : Object → Option ℕ
  pub to_lower : String → String

module _ {Q : Type 0} where
  -- The search for the roots of the pods; a pod without one is left out.
  unfoldable pub get_all_workloads : Owners Q → List (Pod Q) → List Object
  get_all_workloads owners [] = []
  get_all_workloads owners (pod ∷ pods) =
      let rest = get_all_workloads owners pods in
      elim (owners.root pod) [ none ↦ rest | some o ↦ o ∷ rest ]

module _ {Q : Type 0} (cloud : SpecConverter Q) (owners : Owners Q) where
  open owners use {root, replicas, to_lower}

  -- The specification of a workload from one of its pods; `none` where the loop goes on without it.
  -- A desired number of replicas is not negative.
  unfoldable pub workload_spec : Pod Q → Object → Option (WorkloadSpec Q)
  workload_spec pod o =
      let pod_spec = cloud.pod2spec pod in
      if to_lower o.kind =s= "pod"
      then some (record { spec = pod_spec; workload = o })
      else if to_lower o.kind =s= "cronjob" || to_lower o.kind =s= "job"
      then none
      else elim (replicas o) [
        | none ↦ none
        | some n ↦ some (record { spec = record pod_spec { goods_num = n }; workload = o })
      ]

  -- `if _, exists := nnworklod[nn]; exists { continue }`, and what follows it.
  unfoldable pub add_name : Pod Q → Object → NameMap (WorkloadSpec Q) → NameMap (WorkloadSpec Q)
  add_name pod o names = elim (lookup_name (name_of o) names) [
    | some w ↦ names
    | none ↦ elim (workload_spec pod o) [ none ↦ names | some w ↦ insert_name (name_of o) w names ]
  ]

  -- One round of the loop; the map of a kind is there even if nothing goes into it.
  unfoldable pub add_pod : Pod Q → WorkloadsSpec Q → WorkloadsSpec Q
  add_pod pod workloads = elim (root pod) [
    | none ↦ workloads
    | some o ↦ insert o.kind (add_name pod o (get_or (lookup o.kind workloads) [])) workloads
  ]

  unfoldable pub init_workloads_spec : List (Pod Q) → WorkloadsSpec Q → WorkloadsSpec Q
  init_workloads_spec [] workloads = workloads
  init_workloads_spec (pod ∷ pods) workloads = init_workloads_spec pods (add_pod pod workloads)
