-- ===== src/Qcloud/Specs.antt =====
-- The specifications that pkg/cloudproviders/qcloud makes of pods and nodes: `Pod2ServerlessSpec`,
-- `Pod2Spec` and `Node2Spec` of qcloud.go, with the annotations that eks.go reads.
pub mod Laws
use mathlib.Core.Option.{get_or}
use fadvisor.Prelude.{
  pos, ℕ, ◌*◌, Bool, true, false, Option, none, some, List, [], ◌∷◌, String, ◌=s=◌, if◌then◌else◌,
}
use fadvisor.Prelude.Dict.{Dict, lookup, insert}
use fadvisor.Kube.{Quantity, Node, Pod, get_instance_type, get_zone}
use fadvisor.Cloud.{CloudPodSpec, CloudNodeSpec}
use fadvisor.Qcloud.ProviderId.{parse_id}
use fadvisor.Qcloud.State.{
  Instance, TencentCloud, is_virtual_node, is_serverless_pod, get_node_region, get_instance_by_id,
}
use fadvisor.Qcloud.NodePrice.{gb}

module _ {Q : Type 0} where
  -- `EKSPodCpuType`; a missing annotation reads as "".
  unfoldable pub eks_pod_cpu_type : Pod Q → String
  eks_pod_cpu_type pod = elim pod.annotations [
    | none ↦ "intel"
    | some m ↦ get_or (lookup "eks.tke.cloud.tencent.com/cpu-type" m) ""
  ]

  -- The body that the readers of an annotation share.
  unfoldable pub eks_annotation : String → Pod Q → Bool × String
  eks_annotation name pod = elim pod.annotations [
    | none ↦ (false, "")
    | some m ↦ elim (lookup name m) [ none ↦ (false, "") | some t ↦ (true, t) ]
  ]

  unfoldable pub eks_pod_gpu_type : Pod Q → Bool × String
  eks_pod_gpu_type = eks_annotation "eks.tke.cloud.tencent.com/gpu-type"

  unfoldable pub eks_pod_gpu_count : Pod Q → Bool × String
  eks_pod_gpu_count = eks_annotation "eks.tke.cloud.tencent.com/gpu-count"

  unfoldable pub eks_pod_cpu_value : Pod Q → Bool × String
  eks_pod_cpu_value = eks_annotation "eks.tke.cloud.tencent.com/cpu"

  unfoldable pub eks_pod_mem_value : Pod Q → Bool × String
  eks_pod_mem_value = eks_annotation "eks.tke.cloud.tencent.com/mem"

  unfoldable pub machine_type : Pod Q → String
  machine_type pod =
      let (exists, gpu_type) = eks_pod_gpu_type pod in
      if exists then gpu_type else eks_pod_cpu_type pod

abbrev pub best_effort : String
best_effort = "BestEffort"

-- The library code that the conversions call: the requests and limits of a pod, its class of service,
-- and the resources that the service gives it. A failed conversion gives what list it gives; its
-- error is only logged.
pub record PodLibrary (Q : Type 0) : Type 0 where
  pub pod_requests : Pod Q → Dict Q
  pub pod_limits : Pod Q → Dict Q
  pub pod_qos : Pod Q → String
  pub pod2eks_spec : Pod Q → Dict Q
  pub to_lower : String → String

module _ {Q : Type 0} where
  -- `for name, value := range resourceList { reqs[name] = value }`
  unfoldable pub assign_all : Dict Q → Dict Q → Dict Q
  assign_all [] reqs = reqs
  assign_all ((name, value) ∷ rest) reqs = assign_all rest (insert name value reqs)

module _ {Q : Type 0} ⦃qu : Quantity Q⦄ where
  open qu use {no_quantity, of_value, of_milli}

  -- One core and two gigabytes.
  unfoldable pub best_effort_size : Dict Q → Dict Q
  best_effort_size reqs =
      insert "memory" (of_value (pos (2 * 1024 * 1024 * 1024)))
        (insert "cpu" (of_milli (pos 1000)) reqs)

  -- The record that the conversions end with.
  unfoldable pub pod_spec : Pod Q → Dict Q → Dict Q → ℕ → Bool → String → CloudPodSpec Q
  pod_spec pod reqs lims goods is_serverless qos = record {
    pod_ref = some pod;
    cpu = get_or (lookup "cpu" reqs) no_quantity;
    mem = get_or (lookup "memory" reqs) no_quantity;
    cpu_limit = get_or (lookup "cpu" lims) no_quantity;
    mem_limit = get_or (lookup "memory" lims) no_quantity;
    zone = "";
    machine_arch = machine_type pod;
    gpu = no_quantity;
    pod_charge_type = "";
    time_span = 3600;
    goods_num = goods;
    serverless = is_serverless;
    qos_class = qos;
  }

  module _ (lib : PodLibrary Q) where
    abbrev pub is_daemon : List String → Bool
    is_daemon [] = false
    is_daemon (kind ∷ kinds) = lib.to_lower kind =s= "daemonset"

    unfoldable pub pod2serverless_spec : Pod Q → CloudPodSpec Q
    pod2serverless_spec pod =
        let reqs = lib.pod_requests pod in
        let lims = lib.pod_limits pod in
        let qos = lib.pod_qos pod in
        if is_daemon pod.owner_kinds
        then pod_spec pod reqs lims 0 false qos
        else if qos =s= best_effort
        then pod_spec pod (best_effort_size reqs) (best_effort_size lims) 1 true qos
        else pod_spec pod (assign_all (lib.pod2eks_spec pod) reqs)
            (assign_all (lib.pod2eks_spec pod) lims) 1 true qos

    -- What the two tests of `Pod2Spec` do to a list of resources.
    unfoldable pub sized : Bool → Pod Q → Dict Q → Dict Q
    sized is_serverless pod reqs =
        if lib.pod_qos pod =s= best_effort
        then best_effort_size reqs
        else if is_serverless
        then assign_all (lib.pod2eks_spec pod) reqs
        else reqs

    unfoldable pub pod2spec : {F : Type 0} → TencentCloud F Q → Pod Q → CloudPodSpec Q
    unfolding sized
    pod2spec tc pod =
        let is_serverless = is_serverless_pod tc pod in
        pod_spec pod (sized is_serverless pod (lib.pod_requests pod))
          (sized is_serverless pod (lib.pod_limits pod)) 1 is_serverless (lib.pod_qos pod)

module _ {Q : Type 0} ⦃qu : Quantity Q⦄ where
  open qu use {of_value, of_milli}

  -- The assignments under `if instance != nil`; a number of gigabytes is small enough that the
  -- product is exact.
  unfoldable pub fill_from_instance : Option Instance → CloudNodeSpec Q → CloudNodeSpec Q
  fill_from_instance none spec = spec
  fill_from_instance (some ins) spec = record spec {
    charge_type = get_or ins.instance_charge_type spec.charge_type;
    cpu = elim ins.cpu [ none ↦ spec.cpu | some n ↦ of_milli (pos (n * 1000)) ];
    mem = elim ins.memory [ none ↦ spec.mem | some m ↦ of_value (pos (m * gb)) ];
    instance_type = get_or ins.instance_type spec.instance_type;
  }

module _ {F Q : Type 0} ⦃qu : Quantity Q⦄ where
  unfoldable pub node2spec : TencentCloud F Q → Node Q → CloudNodeSpec Q
  node2spec tc node =
      fill_from_instance (get_instance_by_id tc (parse_id node.provider_id)) (record {
        node_ref = some node;
        cpu = node.cpu;
        mem = node.memory;
        gpu = qu.no_quantity;
        gpu_type = "";
        instance_type = (get_instance_type node.labels).0;
        charge_type = "Default";
        zone = (get_zone node.labels).0;
        region = get_node_region node;
        virtual_node = is_virtual_node (some node);
      })
