-- ===== src/Qcloud/Breakdown/Prices.antt =====
-- Which price a node gets.
use fadvisor.Qcloud.Breakdown.Split.{IsSplit, set_unit_prices_lem, set_unit_prices-IsSameElsewhere}
use mathlib.Core.Option.{get_or}
use fadvisor.Prelude.{
  ◌*◌, ◌≡◌, ◌≢◌, refl, ◌∙◌, true, false, Option, none, some, arith, String, ◌=s=◌, eq_iff,
  if◌then◌else◌,
}
use fadvisor.Prelude.Outcome.{ok}
use fadvisor.Float.{Float, nan_to_zero}
use fadvisor.Kube.{Quantity, Node}
use fadvisor.Cloud.{BaseInstancePrice, CustomPricing}
use fadvisor.Qcloud.ProviderId.{parse_id}
use fadvisor.Qcloud.State.{
  ItemPrice, CvmPrice, Instance, QCloudInstancePrice, TencentCloud, is_virtual_node,
  get_instance_price,
}
use fadvisor.Qcloud.NodePrice.{
  per_gb, get_cloud_instance_price, cached_node_price, charged_node_price, instance_node_price,
  prepaid, postpaid_by_hour, spotpaid,
}
use fadvisor.Qcloud.Breakdown.{
  compute_node_breakdown_cost, or_else_text, real_node_price, fill_from_node, break_down,
  total_price, set_unit_prices, cores_of,
}

-- What the code relies on in the texts of numbers: `%v` gives a text that is not empty, and
-- `ParseFloat` reads the number back from it.
pub record ReadsBack {F : Type 0} (fl : Float F) : Type 0 where
  pub show_v_ne : (x : F) → fl.show_v x ≢ ""
  pub parses-show_v : (x : F) → fl.parses (fl.show_v x) ≡ true
  pub parse-show_v : (x : F) → fl.parse (fl.show_v x) ≡ x

module _ {F : Type 0} ⦃fl : Float F⦄ where
  open fl use {div, of_int, show_v}

  -- The price per hour of an instance by its kind of charge, where there is one.
  abbrev pub hourly_price : Instance → ItemPrice F → Option F
  hourly_price ins price =
      let usage = get_or ins.instance_charge_type "Default" in
      if usage =s= prepaid
      then elim price.original_price [ none ↦ none | some p ↦ some (div p (of_int (30 * 24))) ]
      else if usage =s= postpaid_by_hour
      then price.unit_price
      else if usage =s= spotpaid
      then price.unit_price
      else none

  total_price_lem :
      ReadsBack fl
      → (c : BaseInstancePrice) (u : F) → c.cost ≡ show_v u
      → total_price c ≡ ok (nan_to_zero u)
  unfolding total_price
  total_price_lem laws c u e =
      ground (
        arith,
        e,
        eq_iff (show_v u) "",
        laws.show_v_ne u,
        laws.parse-show_v u,
        laws.parses-show_v u,
      )

or_else_text_self : (s : String) → or_else_text s s ≡ s
or_else_text_self s = ground arith

module _ {F Q : Type 0} ⦃fl : Float F⦄ ⦃qu : Quantity Q⦄ where
  open fl use {div, of_int, show_v, show_f, parse}
  open qu use {value}

  charged_node_price_lem :
      (cfg : CustomPricing F) (node : Node Q) (ins : Instance) (price : ItemPrice F) (u : F)
      → hourly_price ins price ≡ some u
      → charged_node_price cfg node ins price
        ≡ ok (instance_node_price cfg node ins (get_or ins.instance_charge_type "Default") u)
  unfolding charged_node_price
  charged_node_price_lem cfg node ins price u h =
      let usage = get_or ins.instance_charge_type "Default" in
      ground (arith, eq_iff usage prepaid, eq_iff usage postpaid_by_hour, eq_iff usage spotpaid)

  get_cloud_instance_price_lem :
      (tc : TencentCloud F Q) (cfg : CustomPricing F) (node : Node Q)
      (ins_price : QCloudInstancePrice F) (ins : Instance) (p : CvmPrice F) (price : ItemPrice F)
      → tc.custom_pricing ≡ some cfg
      → get_instance_price tc (parse_id node.provider_id) ≡ some ins_price
      → ins_price.cvm_instance ≡ some ins
      → ins_price.price ≡ some p
      → p.instance_price ≡ some price
      → get_cloud_instance_price tc node ≡ charged_node_price cfg node ins price
  unfolding get_cloud_instance_price cached_node_price
  get_cloud_instance_price_lem tc cfg node ins_price ins p price known cached i q r =
      ground (arith, known, cached, i, q, r)

  module _ (laws : ReadsBack fl) where
    cores_of-instance :
        (cfg : CustomPricing F) (node : Node Q) (ins : Instance) (usage : String) (u : F)
        → cores_of node (instance_node_price cfg node ins usage u)
          ≡ nan_to_zero (of_int (get_or ins.cpu (value node.cpu)))
    unfolding cores_of instance_node_price
    cores_of-instance cfg node ins usage u =
        let n = of_int (get_or ins.cpu (value node.cpu)) in
        ground (arith, eq_iff (show_v n) "", laws.show_v_ne n, laws.parse-show_v n)

  -- A real node whose instance is cached with a price per hour `u`, for its kind of charge: the
  -- price that is returned has the cost `u`, is marked with that kind of charge, with the node's
  -- provider id and not as priced by default, and its prices of a core and of a gigabyte are the
  -- split of `u` over the cores of the instance and the memory of the node. It rests on what `%v`
  -- and `ParseFloat` do with a number.
  pub compute_node_breakdown_cost_charged :
      ReadsBack fl
      → (tc : TencentCloud F Q) (cfg : CustomPricing F) (node : Node Q)
        (ins_price : QCloudInstancePrice F) (ins : Instance) (p : CvmPrice F) (price : ItemPrice F)
        (u : F)
      → is_virtual_node (some node) ≡ false
      → tc.custom_pricing ≡ some cfg
      → get_instance_price tc (parse_id node.provider_id) ≡ some ins_price
      → ins_price.cvm_instance ≡ some ins
      → ins_price.price ≡ some p
      → p.instance_price ≡ some price
      → hourly_price ins price ≡ some u
      → let cores = nan_to_zero (of_int (get_or ins.cpu (value node.cpu))) in
        let ram_gb = per_gb (nan_to_zero (of_int (value node.memory))) in
        (c : BaseInstancePrice) × (compute_node_breakdown_cost tc cfg (some node) ≡ ok c)
        × IsSplit cfg cores ram_gb (nan_to_zero u) c
        × (c.cost ≡ show_v u)
        × (c.ram ≡ show_f ram_gb)
        × (c.usage_type ≡ get_or ins.instance_charge_type "Default")
        × (c.uses_default_price ≡ false)
        × (c.provider_id ≡ node.provider_id)
  unfolding compute_node_breakdown_cost real_node_price break_down fill_from_node
      instance_node_price
  compute_node_breakdown_cost_charged laws tc cfg node ins_price ins p price u real known cached
        has_ins has_price has_item h =
      let usage = get_or ins.instance_charge_type "Default" in
      let base = instance_node_price cfg node ins usage u in
      let ram_gb = per_gb (nan_to_zero (of_int (value node.memory))) in
      let filled = fill_from_node F node base in
      let c : BaseInstancePrice = record filled { ram = show_f ram_gb } in
      let cores = nan_to_zero (of_int (get_or ins.cpu (value node.cpu))) in
      let same = set_unit_prices-IsSameElsewhere cfg cores ram_gb (nan_to_zero u) c in
      (
        set_unit_prices cfg cores ram_gb (nan_to_zero u) c,
        rw (real) (
            rw
              (
                get_cloud_instance_price_lem tc cfg node ins_price ins p price known cached has_ins
                    has_price has_item,
                charged_node_price_lem cfg node ins price u h,
              )
              (rw (cores_of-instance laws cfg node ins usage u, total_price_lem laws filled u refl)
                refl)),
        set_unit_prices_lem cfg cores ram_gb (nan_to_zero u) c refl,
        same.0,
        same.3,
        same.4,
        same.5,
        same.6 ∙ or_else_text_self node.provider_id,
      )
