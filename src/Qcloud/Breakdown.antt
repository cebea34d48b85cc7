-- ===== src/Qcloud/Breakdown.antt =====
-- `computeNodeBreakdownCost`, `GetNodesCost`, `GetPodsCost` and `NodePrice` of
-- pkg/cloudproviders/qcloud/qcloud.go.
pub mod Maps
pub mod Prices
pub mod Split
pub mod Totality
use mathlib.Core.Option.{get_or}
use fadvisor.Prelude.{
  ℕ, Bool, true, false, not, Option, none, some, List, [], ◌∷◌, String, ◌<>◌, ◌=s=◌, if◌then◌else◌,
}
use fadvisor.Prelude.Dict.{Dict, lookup, insert}
use fadvisor.Prelude.Outcome.{Outcome, ok, err, panic, ◌>>=◌, deref}
use fadvisor.Float.{Float, nan_to_zero}
use fadvisor.Kube.{Quantity, Node, Pod, get_instance_type}
use fadvisor.Cloud.{BaseInstancePrice, no_price, CustomPricing, CloudNodeSpec, Price, PriceItem}
use fadvisor.Qcloud.State.{
  ItemPrice, CvmPrice, Instance, QCloudInstancePrice, TencentCloud, is_virtual_node,
  get_node_region, nodes_map,
}
use fadvisor.Qcloud.NodePrice.{per_gb, get_cloud_instance_price}

-- A price per core and one per gigabyte.
pub record UnitPrices (F : Type 0) : Type 0 where
  pub cpu_price : F
  pub ram_price : F

module _ {F : Type 0} ⦃fl : Float F⦄ where
  open fl use {add, mul, div, of_int, is_zero, show_f, parse, parses}

  -- `cpuToRAMRatio`
  unfoldable pub cpu_to_ram_ratio : CustomPricing F → F
  unfolding nan_to_zero
  cpu_to_ram_ratio cfg =
      nan_to_zero (div (nan_to_zero cfg.cpu_hourly_price) (nan_to_zero cfg.ram_gb_hourly_price))

  -- `ramMultiple`: the cores counted as so much memory, and the memory.
  unfoldable pub ram_multiple : CustomPricing F → F → F → F
  unfolding nan_to_zero
  ram_multiple cfg cpu ram_gb =
      nan_to_zero (add (mul cpu (cpu_to_ram_ratio cfg)) (nan_to_zero ram_gb))

  unfoldable pub unit_prices : CustomPricing F → F → F → F → UnitPrices F
  unfolding nan_to_zero
  unit_prices cfg cpu ram_gb price =
      let ram_price = nan_to_zero (div price (ram_multiple cfg cpu ram_gb)) in
      record { cpu_price = mul ram_price (cpu_to_ram_ratio cfg); ram_price = ram_price }

  -- The two assignments at the end: without a price for memory the cores bear it all.
  unfoldable pub set_unit_prices :
      CustomPricing F → F → F → F → BaseInstancePrice → BaseInstancePrice
  unfolding nan_to_zero
  set_unit_prices cfg cpu ram_gb price c =
      let units = unit_prices cfg cpu ram_gb price in
      if is_zero (nan_to_zero cfg.ram_gb_hourly_price)
      then record c { cpu_hourly_cost = show_f (if is_zero cpu then price else div price cpu) }
      else record c {
        cpu_hourly_cost = show_f units.cpu_price;
        ram_gb_hourly_cost = show_f units.ram_price;
      }

  -- The total price: the cost, or the price per core where there is no cost.
  unfoldable pub total_price : BaseInstancePrice → Outcome F
  unfolding nan_to_zero
  total_price c =
      let text = if c.cost =s= "" then c.cpu_hourly_cost else c.cost in
      if parses text then ok (nan_to_zero (parse text)) else err "parse error"

  -- The block for a price that is not the default one; it writes the memory anew.
  unfoldable pub break_down :
      CustomPricing F → F → F → BaseInstancePrice → Outcome BaseInstancePrice
  break_down cfg cpu ram_gb c = total_price c >>= λ price.
      ok (set_unit_prices cfg cpu ram_gb price (record c { ram = show_f ram_gb }))

abbrev or_else_text : String → String → String
or_else_text s t = if s =s= "" then t else s

module _ (F : Type 0) {Q : Type 0} ⦃fl : Float F⦄ ⦃qu : Quantity Q⦄ where
  open fl use {of_int, show_f}
  open qu use {value, show}

  -- A virtual node.
  unfoldable pub virtual_node_price : Node Q → BaseInstancePrice
  virtual_node_price node =
      let ram = of_int (value node.memory) in
      record no_price {
        cost = "0";
        cpu_hourly_cost = "0";
        cpu = show_f (of_int (value node.cpu));
        ram = show_f (per_gb ram);
        ram_bytes = show_f ram;
        ram_gb_hourly_cost = "0";
        instance_type = (get_instance_type node.labels).0;
        region = get_node_region node;
        provider_id = node.provider_id;
      }

  -- What is left of it where the configuration is a nil pointer.
  unfoldable pub unconfigured_node_price : Option (Node Q) → Outcome BaseInstancePrice
  unconfigured_node_price none = panic
  unconfigured_node_price (some node) =
      if is_virtual_node (some node)
      then ok (virtual_node_price node)
      else err "custompricing config is null"

  -- What a price lacks is filled from the node.
  unfoldable pub fill_from_node : Node Q → BaseInstancePrice → BaseInstancePrice
  unfolding nan_to_zero
  fill_from_node node c = record c {
    instance_type = or_else_text c.instance_type (get_instance_type node.labels).0;
    region = or_else_text c.region (get_node_region node);
    provider_id = or_else_text c.provider_id node.provider_id;
    cpu = or_else_text c.cpu (show node.cpu);
    ram = or_else_text c.ram (show node.memory);
    ram_bytes = show_f (nan_to_zero (of_int (value node.memory)));
  }

module _ {F Q : Type 0} ⦃fl : Float F⦄ ⦃qu : Quantity Q⦄ where
  open fl use {of_int, parse}
  open qu use {value}

  -- The number of cores that the split counts with.
  unfoldable pub cores_of : Node Q → BaseInstancePrice → F
  unfolding nan_to_zero
  cores_of node c = nan_to_zero (if c.cpu =s= "" then of_int (value node.cpu) else parse c.cpu)

  unfoldable pub real_node_price :
      CustomPricing F → Node Q → BaseInstancePrice → Outcome BaseInstancePrice
  unfolding nan_to_zero
  real_node_price cfg node c =
      let filled = fill_from_node F node c in
      let ram = nan_to_zero (of_int (value node.memory)) in
      if c.uses_default_price
      then ok filled
      else break_down cfg (cores_of node c) (per_gb ram) filled

  -- `computeNodeBreakdownCost`; `none` is a nil pointer, whose labels cannot be read.
  unfoldable pub compute_node_breakdown_cost :
      TencentCloud F Q → CustomPricing F → Option (Node Q) → Outcome BaseInstancePrice
  compute_node_breakdown_cost tc cfg none = panic
  compute_node_breakdown_cost tc cfg (some node) =
      if is_virtual_node (some node)
      then ok (virtual_node_price F node)
      else (get_cloud_instance_price tc node >>= real_node_price cfg node)

  -- `NodePrice` does not test the configuration.
  unfoldable pub node_price : TencentCloud F Q → CloudNodeSpec Q → Outcome BaseInstancePrice
  node_price tc spec = elim tc.custom_pricing [
    | some cfg ↦ compute_node_breakdown_cost tc cfg spec.node_ref
    | none ↦ unconfigured_node_price F spec.node_ref
  ]

  -- The loop of `GetNodesCost`: virtual nodes, and nodes whose price fails, are left out.
  unfoldable pub nodes_cost :
      TencentCloud F Q
      → CustomPricing F
      → List (Node Q)
      → Dict BaseInstancePrice
      → Outcome (Dict BaseInstancePrice)
  nodes_cost tc cfg [] costs = ok costs
  nodes_cost tc cfg (node ∷ nodes) costs =
      let rest = nodes_cost tc cfg nodes in
      if is_virtual_node (some node)
      then rest costs
      else elim (compute_node_breakdown_cost tc cfg (some node)) [
        | ok c ↦ rest (insert node.name c costs)
        | err e ↦ rest costs
        | panic ↦ panic
      ]

  -- `GetNodesCost`
  unfoldable pub get_nodes_cost : TencentCloud F Q → Outcome (Dict BaseInstancePrice)
  get_nodes_cost tc = elim tc.custom_pricing [
    | none ↦ err "provider config is null"
    | some cfg ↦ nodes_cost tc cfg tc.nodes []
  ]

  -- The loop of `GetPodsCost`; `kobj` is the text that klog gives for a pod.
  unfoldable pub pods_cost :
      (Pod Q → String)
      → TencentCloud F Q
      → CustomPricing F
      → List (Pod Q)
      → Dict BaseInstancePrice
      → Outcome (Dict BaseInstancePrice)
  pods_cost kobj tc cfg [] costs = ok costs
  pods_cost kobj tc cfg (pod ∷ pods) costs =
      let node = lookup pod.node_name (nodes_map tc.nodes []) in
      let rest = pods_cost kobj tc cfg pods in
      if is_virtual_node node then rest costs else elim (compute_node_breakdown_cost tc cfg node) [
        | ok c ↦ rest (insert (kobj pod) c costs)
        | err e ↦ rest costs
        | panic ↦ panic
      ]

  -- `GetPodsCost`
  unfoldable pub get_pods_cost :
      (Pod Q → String) → TencentCloud F Q → Outcome (Dict BaseInstancePrice)
  get_pods_cost kobj tc = elim tc.custom_pricing [
    | none ↦ err "provider config is null"
    | some cfg ↦ pods_cost kobj tc cfg tc.pods []
  ]
