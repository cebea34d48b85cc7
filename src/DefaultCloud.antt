-- ===== src/DefaultCloud.antt =====
-- pkg/cloudproviders/default/defaultcloud.go: the provider that prices every node by the configured
-- prices. The methods that only panic are left out.
pub mod Laws
use fadvisor.Prelude.{Bool, true, Option, none, some, List, [], ◌∷◌, String}
use fadvisor.Prelude.Dict.{Dict, lookup, insert}
use fadvisor.Prelude.Outcome.{Outcome, ok, err, panic, ◌>>=◌}
use fadvisor.Float.{Float}
use fadvisor.Kube.{Quantity, Node, Pod, get_instance_type}
use fadvisor.Cloud.{BaseInstancePrice, no_price, CustomPricing}
use fadvisor.Qcloud.State.{nodes_map}
use fadvisor.Qcloud.NodePrice.{gb, per_gb}

-- `nodes` and `pods` are what the cache lists.
pub record DefaultCloud (F Q : Type 0) : Type 0 where
  pub nodes : List (Node Q)
  pub pods : List (Pod Q)
  pub custom_pricing : Option (CustomPricing F)

module _ {F Q : Type 0} ⦃fl : Float F⦄ ⦃qu : Quantity Q⦄ where
  open fl use {add, mul, div, of_int, show_v}
  open qu use {value}

  unfoldable pub get_default_node_price : CustomPricing F → Node Q → BaseInstancePrice
  get_default_node_price cfg node =
      let cpu = of_int (value node.cpu) in
      let mem = of_int (value node.memory) in
      record no_price {
        cost = show_v (
            add (mul cfg.cpu_hourly_price cpu) (div (mul cfg.ram_gb_hourly_price mem) (of_int gb)));
        cpu = show_v cpu;
        cpu_hourly_cost = show_v cfg.cpu_hourly_price;
        ram = show_v (per_gb mem);
        ram_bytes = show_v mem;
        ram_gb_hourly_cost = show_v cfg.ram_gb_hourly_price;
        default_cpu_price = show_v cfg.cpu_hourly_price;
        default_ram_price = show_v cfg.ram_gb_hourly_price;
        usage_type = "Default";
        uses_default_price = true;
        instance_type = (get_instance_type node.labels).0;
        provider_id = node.provider_id;
        region = cfg.region;
      }

  -- The loop of `GetNodesCost`; the computation of a price has no error.
  unfoldable pub nodes_loop :
      CustomPricing F → List (Node Q) → Dict BaseInstancePrice → Dict BaseInstancePrice
  nodes_loop cfg [] costs = costs
  nodes_loop cfg (node ∷ nodes) costs =
      nodes_loop cfg nodes (insert node.name (get_default_node_price cfg node) costs)

  unfoldable pub get_nodes_cost : DefaultCloud F Q → Outcome (Dict BaseInstancePrice)
  get_nodes_cost tc = elim tc.custom_pricing [
    | none ↦ err "provider config is null"
    | some cfg ↦ ok (nodes_loop cfg tc.nodes [])
  ]

  -- `computeNodeBreakdownCost`; `none` is a nil pointer, whose labels cannot be read.
  unfoldable pub price_of_pointer : CustomPricing F → Option (Node Q) → Outcome BaseInstancePrice
  price_of_pointer cfg none = panic
  price_of_pointer cfg (some node) = ok (get_default_node_price cfg node)

  -- The loop of `GetPodsCost`; `kobj` is the text that klog gives for a pod.
  unfoldable pub pods_loop :
      (Pod Q → String)
      → DefaultCloud F Q
      → CustomPricing F
      → List (Pod Q)
      → Dict BaseInstancePrice
      → Outcome (Dict BaseInstancePrice)
  pods_loop kobj tc cfg [] costs = ok costs
  pods_loop kobj tc cfg (pod ∷ pods) costs =
      price_of_pointer cfg (lookup pod.node_name (nodes_map tc.nodes [])) >>= λ c.
      pods_loop kobj tc cfg pods (insert (kobj pod) c costs)

  unfoldable pub get_pods_cost :
      (Pod Q → String) → DefaultCloud F Q → Outcome (Dict BaseInstancePrice)
  get_pods_cost kobj tc = elim tc.custom_pricing [
    | none ↦ err "provider config is null"
    | some cfg ↦ pods_loop kobj tc cfg tc.pods []
  ]
