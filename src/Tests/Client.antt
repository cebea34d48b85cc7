-- ===== src/Tests/Client.antt =====
-- Retries, batches, platforms and the prices of pods.
use fadvisor.Prelude.{
  ℕ, ◌+◌, ◌^◌, ◌≤◌, ◌≡◌, refl, true, false, Option, none, some, ◌⊎◌, inl, inr, List, [], ◌∷◌, arith,
  String, ltb, if◌then◌else◌,
}
use fadvisor.Prelude.Outcome.{ok}
use fadvisor.Float.{nan_to_zero}
use fadvisor.Kube.{Node, Pod}
use fadvisor.Cloud.{BaseInstancePrice, Prices, PlatformParameter, CloudPodSpec, serverful_kind}
use fadvisor.Qcloud.State.{
  Instance, TencentCloud, QuotaItem, is_serverless_pod, is_virtual_node, nodes_map,
}
use fadvisor.Prelude.Dict.{lookup, insert}
use fadvisor.Qcloud.Breakdown.Split.{IsSplit}
use fadvisor.Qcloud.Breakdown.{node_price}
use fadvisor.Qcloud.NodePrice.{per_gb}
use fadvisor.Qcloud.Client.{exponential_retry_call, get_cvm_instances, get_cvm_instances_price}
use fadvisor.Qcloud.Client.Retry.{
  sum, InRange, IsEnd, exponential_retry_call_lem, exponential_retry_call_sleeps,
}
use fadvisor.Qcloud.Client.Batches.{
  gather, get_cvm_instances_lem, quoted_all, get_cvm_instances_price_lem,
}
use fadvisor.Qcloud.Platform.{platform_price}
use fadvisor.Qcloud.Platform.Laws.{platform_price_mono}
use fadvisor.Qcloud.Specs.{PodLibrary, pod2spec, pod2serverless_spec, node2spec}
use fadvisor.Qcloud.Specs.Laws.{pod2spec_lem, node_price-node2spec}
use fadvisor.Qcloud.Serverless.{GetPriceRequest, EksPrice, spec_cores, serverless_pod_price}
use fadvisor.Qcloud.Serverless.Laws.{serverless_pod_price_lem}
use fadvisor.Tests.Numbers.{
  strokes, strokes_float, nat_quantity, strokes_float-ReadsBack, strokes_float-Readable,
}
use fadvisor.Tests.Config.{pricing}
use fadvisor.Tests.Qcloud.{
  worker, hourly, instance_a, cvm_price, price_a, empty_cluster, cluster, worker_real,
  worker_cached,
}

abbrev lowest : ℕ → ℕ → ℕ
lowest lo hi = lo

lowest-InRange : InRange lowest
lowest-InRange lo hi h = omega arith

abbrev with_count : ℕ → String → String
with_count n e = e

-- The third call succeeds.
abbrev third : ℕ → String ⊎ ℕ
third k = if ltb k 2 then inl "limit exceeded" else inr k

exponential_retry_call_example :
    let r = exponential_retry_call lowest with_count 3 third in IsEnd third 3 0 r.calls r.result
exponential_retry_call_example = exponential_retry_call_lem lowest with_count 3 third

exponential_retry_call_sleeps_example :
    let r = exponential_retry_call lowest with_count 3 third in
    (2 ^ (r.calls + 1) ≤ sum r.sleeps + 4) × (sum r.sleeps + 8 ≤ 2 ^ (r.calls + 2))
exponential_retry_call_sleeps_example =
    exponential_retry_call_sleeps lowest with_count 3 third lowest-InRange

abbrev known_instance : String → List Instance
known_instance id = record instance_a { instance_id = some id } ∷ []

-- A client is known by its region.
abbrev client : String ⊎ String
client = inr "ap-guangzhou"

abbrev describe : String → List String → String ⊎ List Instance
describe region ids = inr (gather known_instance ids)

get_cvm_instances_example :
    get_cvm_instances client describe 2 ("a" ∷ "b" ∷ "c" ∷ [])
    ≡ some (inr (gather known_instance ("a" ∷ "b" ∷ "c" ∷ [])))
get_cvm_instances_example =
    get_cvm_instances_lem client describe 2 known_instance (omega arith) (λ c ids h. refl)
      ("a" ∷ "b" ∷ "c" ∷ [])

abbrev quota : String → String → String → String → String ⊎ Option (List (QuotaItem ℕ))
quota region type charge zone = inr (
    some (
      record {
        zone = some zone;
        instance_type = some type;
        instance_charge_type = some charge;
        price = some hourly;
      }
      ∷ []))

get_cvm_instances_price_example :
    get_cvm_instances_price client quota false (instance_a ∷ [])
    ≡ ok (quoted_all (quota "ap-guangzhou") (instance_a ∷ []))
get_cvm_instances_price_example = get_cvm_instances_price_lem client quota (instance_a ∷ [])

abbrev serverful : PlatformParameter
serverful = record { nodes = none; cluster_level = none; platform = serverful_kind }

platform_price_example :
    let small : Prices ℕ = platform_price (record serverful { nodes = some 3 }) in
    let large : Prices ℕ = platform_price (record serverful { nodes = some 30 }) in
    (p q : ℕ) × (small.total_price ≡ strokes_float.decimal p 2)
    × (large.total_price ≡ strokes_float.decimal q 2)
    × (p ≤ q)
platform_price_example = platform_price_mono serverful 3 30 (omega arith) (λ e. cc)

abbrev virtual_worker : Node ℕ
virtual_worker = record worker {
  name = "virtual";
  labels =
      ("node.kubernetes.io/instance-type", "eklet")
      ∷ ("eks.tke.cloud.tencent.com/version", "v2")
      ∷ [];
}

abbrev virtual_cluster : TencentCloud ℕ ℕ
virtual_cluster = record empty_cluster { nodes = virtual_worker ∷ [] }

abbrev virtual_pod : Pod ℕ
virtual_pod = record {
  namespace = "default";
  name = "web";
  node_name = "virtual";
  annotations = none;
  owner_kinds = "ReplicaSet" ∷ [];
  containers = [];
}

abbrev pod_library : PodLibrary ℕ
pod_library = record {
  pod_requests = λ pod. ("cpu", 1) ∷ [];
  pod_limits = λ pod. [];
  pod_qos = λ pod. "Burstable";
  pod2eks_spec = λ pod. ("cpu", 2) ∷ ("memory", 4) ∷ [];
  to_lower = λ kind. kind;
}

virtual_pod_serverless : is_serverless_pod virtual_cluster virtual_pod ≡ true
unfolding is_serverless_pod is_virtual_node nodes_map lookup insert
virtual_pod_serverless = refl

pod2spec_example :
    pod2spec pod_library virtual_cluster virtual_pod ≡ pod2serverless_spec pod_library virtual_pod
pod2spec_example = pod2spec_lem pod_library virtual_cluster virtual_pod refl virtual_pod_serverless

node_price-node2spec_example :
    (c : BaseInstancePrice) × (node_price cluster (node2spec cluster worker) ≡ ok c)
    × (c.usage_type ≡ (node2spec cluster worker).charge_type)
    × (c.cost ≡ strokes_float.show_v 6)
node_price-node2spec_example =
    node_price-node2spec strokes_float-ReadsBack cluster pricing worker price_a instance_a cvm_price
      hourly 6 worker_real refl worker_cached refl refl refl refl

abbrev pub web_spec : CloudPodSpec ℕ
web_spec = record {
  pod_ref = some virtual_pod;
  cpu = 2;
  mem = 4;
  cpu_limit = 2;
  mem_limit = 4;
  zone = "";
  machine_arch = "intel";
  gpu = 0;
  pod_charge_type = "";
  time_span = 3600;
  goods_num = 1;
  serverless = true;
  qos_class = "Burstable";
}

abbrev pod_answer : GetPriceRequest ℕ → String ⊎ Option EksPrice
pod_answer request = inr (some (record { cost = some 300; total_cost = some 500 }))

serverless_pod_price_example :
    (c : BaseInstancePrice) × (serverless_pod_price pod_answer cluster web_spec ≡ ok c)
    × IsSplit pricing (spec_cores ℕ web_spec) (per_gb {F = ℕ} 4) (nan_to_zero {F = ℕ} 5) c
    × (c.cost ≡ strokes 5)
    × (c.discounted_cost ≡ strokes 3)
    × (c.cpu ≡ strokes (spec_cores ℕ web_spec))
    × (c.ram ≡ strokes (per_gb {F = ℕ} 4))
unfolding strokes_float nat_quantity
serverless_pod_price_example =
    serverless_pod_price_lem strokes_float-Readable pod_answer cluster pricing web_spec 300 500 refl
      refl
