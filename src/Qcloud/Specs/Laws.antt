-- ===== src/Qcloud/Specs/Laws.antt =====
-- The two conversions of a pod, compared, and a node's specification and price.
use mathlib.Core.Option.{get_or}
use fadvisor.Prelude.{◌≡◌, sym, ◌∙◌, true, false, some, arith, String}
use fadvisor.Kube.{Quantity, Node, Pod}
use fadvisor.Cloud.{BaseInstancePrice, CustomPricing, CloudNodeSpec}
use fadvisor.Prelude.Outcome.{ok}
use fadvisor.Float.{Float}
use fadvisor.Qcloud.ProviderId.{parse_id}
use fadvisor.Qcloud.State.{
  ItemPrice, CvmPrice, Instance, QCloudInstancePrice, TencentCloud, is_virtual_node,
  is_serverless_pod, get_instance_price, get_instance_by_id,
}
use fadvisor.Qcloud.Breakdown.{compute_node_breakdown_cost, node_price}
use fadvisor.Qcloud.Breakdown.Prices.{ReadsBack, hourly_price, compute_node_breakdown_cost_charged}
use fadvisor.Qcloud.Specs.{
  PodLibrary, is_daemon, pod2spec, pod2serverless_spec, fill_from_instance, node2spec,
}

module _ {F Q : Type 0} ⦃qu : Quantity Q⦄ where
  -- A pod on a virtual node that no daemon set owns has the same specification by either
  -- conversion.
  pub pod2spec_lem :
      (lib : PodLibrary Q) (tc : TencentCloud F Q) (pod : Pod Q)
      → is_daemon lib pod.owner_kinds ≡ false
      → is_serverless_pod tc pod ≡ true
      → pod2spec lib tc pod ≡ pod2serverless_spec lib pod
  unfolding pod2spec pod2serverless_spec
  pod2spec_lem lib tc pod plain is = ground (arith, plain, is)

module _ {F Q : Type 0} where
  get_instance_by_id-known :
      (tc : TencentCloud F Q) (id : String) (ins_price : QCloudInstancePrice F) (ins : Instance)
      → get_instance_price tc id ≡ some ins_price
      → ins_price.cvm_instance ≡ some ins
      → get_instance_by_id tc id ≡ some ins
  unfolding get_instance_price get_instance_by_id
  get_instance_by_id-known tc id ins_price ins cached has_ins = ground (arith, cached, has_ins)

module _ {F Q : Type 0} ⦃qu : Quantity Q⦄ where
  node2spec-known :
      (tc : TencentCloud F Q) (node : Node Q) (ins : Instance)
      → get_instance_by_id tc (parse_id node.provider_id) ≡ some ins
      → let spec = node2spec tc node in
        (spec.node_ref ≡ some node) × (spec.charge_type ≡ get_or ins.instance_charge_type "Default")
  unfolding node2spec fill_from_instance
  node2spec-known tc node ins e = ground (arith, e)

module _ {F Q : Type 0} ⦃fl : Float F⦄ ⦃qu : Quantity Q⦄ where
  node_price-of_node :
      (tc : TencentCloud F Q) (cfg : CustomPricing F) (spec : CloudNodeSpec Q) {node : Node Q}
      → tc.custom_pricing ≡ some cfg
      → spec.node_ref ≡ some node
      → node_price tc spec ≡ compute_node_breakdown_cost tc cfg (some node)
  unfolding node_price
  node_price-of_node tc cfg spec known e = ground (arith, known, e)

  -- A real node whose instance is cached with a price per hour for its kind of charge: the
  -- specification of the node has a price, and the price names the kind of charge that the
  -- specification has. It rests on what `%v` and `ParseFloat` do with a number.
  pub node_price-node2spec :
      ReadsBack fl
      → (tc : TencentCloud F Q) (cfg : CustomPricing F) (node : Node Q)
        (ins_price : QCloudInstancePrice F) (ins : Instance) (p : CvmPrice F) (price : ItemPrice F)
        (u : F)
      → is_virtual_node (some node) ≡ false
      → tc.custom_pricing ≡ some cfg
      → get_instance_price tc (parse_id node.provider_id) ≡ some ins_price
      → ins_price.cvm_instance ≡ some ins
      → ins_price.price ≡ some p
      → p.instance_price ≡ some price
      → hourly_price ins price ≡ some u
      → (c : BaseInstancePrice) × (node_price tc (node2spec tc node) ≡ ok c)
        × (c.usage_type ≡ (node2spec tc node).charge_type)
        × (c.cost ≡ fl.show_v u)
  node_price-node2spec laws tc cfg node ins_price ins p price u real known cached has_ins has_price
        has_item h =
      let (c, made, _, cost, _, usage, _, _) =
        compute_node_breakdown_cost_charged laws tc cfg node ins_price ins p price u real known
          cached has_ins has_price has_item h in
      let id = parse_id node.provider_id in
      let (is_node, charge) =
        node2spec-known tc node ins (get_instance_by_id-known tc id ins_price ins cached has_ins) in
      (
        _,
        node_price-of_node tc cfg (node2spec tc node) known is_node ∙ made,
        usage ∙ sym charge,
        cost,
      )
