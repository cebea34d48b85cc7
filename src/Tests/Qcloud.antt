-- ===== src/Tests/Qcloud.antt =====
-- A cluster with one real node, one instance and a pod that is not scheduled.
use mathlib.Core.Option.{or_else}
use fadvisor.Prelude.{
  contains, ℕ, ◌≡◌, refl, false, none, some, inl, [], ◌∷◌, String, ◌=s=◌, if◌then◌else◌, sym, subst,
  arith,
}
use fadvisor.Prelude.Dict.{Dict, lookup, insert}
use fadvisor.Prelude.Outcome.{ok, panic}
use fadvisor.Float.{nan_to_zero}
use fadvisor.Kube.{Node, Pod, get_region, get_instance_type}
use fadvisor.Cloud.{BaseInstancePrice}
use fadvisor.Qcloud.ProviderId.{
  parse_id, find_submatch, match_here, strip_prefix, segment, span_segment, non_empty,
}
use fadvisor.Qcloud.State.{
  ItemPrice, CvmPrice, Instance, QCloudInstancePrice, TencentCloud, is_virtual_node, nodes_map,
  get_instance_price, get_node_region,
}
use fadvisor.Qcloud.NodePrice.{
  per_gb, get_cloud_instance_price, cached_node_price, charged_node_price, instance_node_price,
}
use fadvisor.Qcloud.Breakdown.{
  compute_node_breakdown_cost, set_unit_prices, get_nodes_cost, get_pods_cost, nodes_cost,
  real_node_price, fill_from_node, break_down, total_price, unit_prices, cores_of, ram_multiple,
  cpu_to_ram_ratio,
}
use fadvisor.Qcloud.Breakdown.Maps.{cost_by_name, HasUnknownNode, get_pods_cost_panics}
use fadvisor.Qcloud.Breakdown.Totality.{IsPriced, AllPriced, get_nodes_cost_total}
use fadvisor.Qcloud.Breakdown.Split.{IsSplit}
use fadvisor.Qcloud.Breakdown.Prices.{compute_node_breakdown_cost_charged}
use fadvisor.Qcloud.Cache.{
  CvmClient, node_ids, refresh_instance_pricing_cache, on_node_add, on_node_delete,
}
use fadvisor.Qcloud.Cache.Laws.{
  last_price, IsAdded, refresh_instance_pricing_cache_lem, on_node_add-delete,
}
use fadvisor.Qcloud.Regions.{short_name2region}
use fadvisor.Tests.Numbers.{strokes, strokes_float, nat_quantity, strokes_float-ReadsBack}
use fadvisor.Tests.Config.{pricing}

abbrev pub worker : Node ℕ
worker = record {
  name = "worker";
  labels = [];
  provider_id = "qcloud:///8/ins-a";
  cpu = 2;
  memory = 4;
}

abbrev pub hourly : ItemPrice ℕ
hourly = record {
  unit_price = some 6;
  charge_unit = none;
  original_price = some 720;
  discount_price = none;
  discount = none;
  unit_price_discount = none;
  unit_price_second_step = none;
  unit_price_discount_second_step = none;
  unit_price_third_step = none;
  unit_price_discount_third_step = none;
  original_price_three_year = none;
  discount_price_three_year = none;
  discount_three_year = none;
  original_price_five_year = none;
  discount_price_five_year = none;
  discount_five_year = none;
  original_price_one_year = none;
  discount_price_one_year = none;
  discount_one_year = none;
}

abbrev pub instance_a : Instance
instance_a = record {
  instance_id = some "ins-a";
  instance_charge_type = some "POSTPAID_BY_HOUR";
  instance_type = some "S5";
  cpu = some 2;
  memory = some 4;
  placement = none;
}

abbrev pub cvm_price : CvmPrice ℕ
cvm_price = record { instance_price = some hourly }

abbrev pub price_a : QCloudInstancePrice ℕ
price_a = record { cvm_instance = some instance_a; price = some cvm_price }

abbrev pending : Pod ℕ
pending = record {
  namespace = "default";
  name = "pending";
  node_name = "";
  annotations = none;
  owner_kinds = [];
  containers = [];
}

abbrev pub empty_cluster : TencentCloud ℕ ℕ
empty_cluster = record {
  nodes = [];
  pods = [];
  custom_pricing = some pricing;
  standard_pricing = [];
  instances = [];
}

abbrev pub cluster : TencentCloud ℕ ℕ
cluster = record empty_cluster {
  nodes = worker ∷ [];
  pods = pending ∷ [];
  instances = ("ins-a", price_a) ∷ ("ins-old", price_a) ∷ [];
}

abbrev service : CvmClient ℕ
service = record {
  get_all_zone_instance_config_infos = ok [];
  get_cvm_instances = λ ids. ok (instance_a ∷ []);
  get_cvm_instances_price = λ found. ok (price_a ∷ []);
}

refresh_instance_pricing_cache_example :
    (m : Dict (QCloudInstancePrice ℕ)) × (refresh_instance_pricing_cache service
        (worker ∷ [])
        cluster
      ≡ ok (record cluster { instances = m }, none))
    × ((id : String)
        → lookup id m ≡ (
            if contains (node_ids (worker ∷ [])) id
            then or_else (last_price id (price_a ∷ [])) (lookup id cluster.instances)
            else none))
refresh_instance_pricing_cache_example =
    refresh_instance_pricing_cache_lem service (worker ∷ []) cluster (instance_a ∷ [])
      (price_a ∷ []) refl refl

pub worker_real : is_virtual_node (some worker) ≡ false
unfolding is_virtual_node
worker_real = refl

on_node_add-delete_example :
    (new : TencentCloud ℕ ℕ) × (on_node_add service (some worker) empty_cluster ≡ ok (new, none))
    × IsAdded (parse_id worker.provider_id) (price_a ∷ []) empty_cluster new
    × ((j : String)
        → get_instance_price (on_node_delete (some worker) new) j ≡ (
            if parse_id worker.provider_id =s= j then none else get_instance_price empty_cluster j))
on_node_add-delete_example =
    on_node_add-delete service worker empty_cluster (instance_a ∷ []) (price_a ∷ []) worker_real
      refl refl

abbrev worker_price : BaseInstancePrice
worker_price = record {
  discounted_cost = "";
  cost = "IIIIII0";
  cpu = "II0";
  cpu_hourly_cost = "III0";
  ram = "0";
  ram_bytes = "IIII0";
  ram_gb_hourly_cost = "I0";
  uses_default_price = false;
  default_cpu_price = "III0";
  default_ram_price = "I0";
  usage_type = "POSTPAID_BY_HOUR";
  instance_type = "S5";
  region = "";
  provider_id = "qcloud:///8/ins-a";
}

cluster_cost : get_nodes_cost cluster ≡ ok (("worker", worker_price) ∷ [])
unfolding get_nodes_cost nodes_cost compute_node_breakdown_cost is_virtual_node
    get_cloud_instance_price cached_node_price charged_node_price instance_node_price
    get_instance_price lookup insert parse_id find_submatch match_here strip_prefix segment
    span_segment non_empty strokes_float nat_quantity real_node_price fill_from_node break_down
    total_price set_unit_prices unit_prices cores_of get_node_region get_region get_instance_type
    short_name2region nan_to_zero ram_multiple cpu_to_ram_ratio
cluster_cost = refl

price_a-IsPriced : IsPriced price_a
price_a-IsPriced = (cvm_price, hourly, 720, 6, refl, refl, refl, refl)

cluster-AllPriced : AllPriced cluster
unfolding get_instance_price lookup
cluster-AllPriced id q cached =
    let same : q ≡ price_a = ground (arith, cached) in
    subst (λ q. IsPriced q) (sym same) price_a-IsPriced

get_nodes_cost_total_example :
    (costs : Dict BaseInstancePrice) × (get_nodes_cost cluster ≡ ok costs)
    × ((name : String) → lookup name costs ≡ cost_by_name cluster pricing name (worker ∷ []))
get_nodes_cost_total_example = get_nodes_cost_total cluster pricing refl cluster-AllPriced

pending_unknown : HasUnknownNode cluster pricing (pending ∷ [])
unfolding lookup nodes_map insert
pending_unknown = inl refl

get_pods_cost_panics_example : get_pods_cost (λ pod. pod.name) cluster ≡ panic
get_pods_cost_panics_example =
    get_pods_cost_panics (λ pod. pod.name) cluster pricing refl pending_unknown

pub worker_cached : get_instance_price cluster (parse_id worker.provider_id) ≡ some price_a
unfolding get_instance_price lookup parse_id find_submatch match_here strip_prefix segment
    span_segment non_empty
worker_cached = refl

compute_node_breakdown_cost_charged_example :
    let cores = nan_to_zero {F = ℕ} 2 in
    let ram_gb = per_gb (nan_to_zero {F = ℕ} 4) in
    (c : BaseInstancePrice) × (compute_node_breakdown_cost cluster pricing (some worker) ≡ ok c)
    × IsSplit pricing cores ram_gb (nan_to_zero {F = ℕ} 6) c
    × (c.cost ≡ strokes 6)
    × (c.ram ≡ strokes ram_gb)
    × (c.usage_type ≡ "POSTPAID_BY_HOUR")
    × (c.uses_default_price ≡ false)
    × (c.provider_id ≡ worker.provider_id)
unfolding strokes_float nat_quantity
compute_node_breakdown_cost_charged_example =
    compute_node_breakdown_cost_charged strokes_float-ReadsBack cluster pricing worker price_a
      instance_a cvm_price hourly 6 worker_real refl worker_cached refl refl refl refl
