-- ===== src/Qcloud/Breakdown/Totality.antt =====
-- `GetNodesCost` on a cache without nil pointers.
use fadvisor.Prelude.{
  ◌≡◌, ◌≢◌, refl, some, inl, inr, List, [], ◌∷◌, arith, String, Bool-cases, Option-cases,
}
use fadvisor.Prelude.Dict.{Dict, lookup, insert}
use fadvisor.Prelude.Outcome.{ok, panic, Outcome-cases}
use fadvisor.Float.{Float}
use fadvisor.Kube.{Quantity, Node}
use fadvisor.Cloud.{BaseInstancePrice, CustomPricing}
use fadvisor.Qcloud.ProviderId.{parse_id}
use fadvisor.Qcloud.State.{
  ItemPrice, CvmPrice, Instance, QCloudInstancePrice, TencentCloud, is_virtual_node,
  get_instance_price,
}
use fadvisor.Qcloud.NodePrice.{get_cloud_instance_price, cached_node_price, charged_node_price}
use fadvisor.Qcloud.Breakdown.{
  compute_node_breakdown_cost, real_node_price, break_down, total_price, nodes_cost, get_nodes_cost,
}
use fadvisor.Qcloud.Breakdown.Maps.{cost_by_name, get_nodes_cost_lem}

module _ {F : Type 0} where
  -- A cached price whose pointers to a price, for a month and for an hour, are not nil.
  abbrev pub IsPriced : QCloudInstancePrice F → Type 0
  IsPriced q =
      (p : CvmPrice F) × (item : ItemPrice F) × (o u : F) × (q.price ≡ some p)
      × (p.instance_price ≡ some item)
      × (item.original_price ≡ some o)
      × (item.unit_price ≡ some u)

module _ {F Q : Type 0} where
  abbrev pub AllPriced : TencentCloud F Q → Type 0
  AllPriced tc =
      (id : String) (q : QCloudInstancePrice F) → get_instance_price tc id ≡ some q → IsPriced q

module _ {F : Type 0} ⦃fl : Float F⦄ where
  total_price-ne : (c : BaseInstancePrice) → total_price {F = F} c ≢ panic
  unfolding total_price
  total_price-ne c e = ground (arith, e)

  break_down-ne :
      (cfg : CustomPricing F) (cpu ram_gb : F) (c : BaseInstancePrice)
      → break_down cfg cpu ram_gb c ≢ panic
  unfolding break_down
  break_down-ne cfg cpu ram_gb c e = ground (arith, e, total_price-ne c)

module _ {F Q : Type 0} ⦃fl : Float F⦄ ⦃qu : Quantity Q⦄ where
  charged_node_price-ne :
      (cfg : CustomPricing F) (node : Node Q) (ins : Instance) (item : ItemPrice F) (o u : F)
      → item.original_price ≡ some o
      → item.unit_price ≡ some u
      → charged_node_price cfg node ins item ≢ panic
  unfolding charged_node_price
  charged_node_price-ne cfg node ins item o u eo eu e = ground (arith, e, eo, eu)

  cached_node_price-ne :
      (cfg : CustomPricing F) (node : Node Q) (q : QCloudInstancePrice F)
      → IsPriced q
      → cached_node_price cfg node (some q) ≢ panic
  unfolding cached_node_price
  cached_node_price-ne cfg node q (p, item, o, u, ep, ei, eo, eu) e =
      elim (Option-cases q.cvm_instance) [
        | inl no_ins ↦ ground (arith, e, no_ins)
        | inr (ins, i) ↦
            ground (arith, e, i, ep, ei, charged_node_price-ne cfg node ins item o u eo eu)
      ]

  get_cloud_instance_price-ne :
      (tc : TencentCloud F Q) (node : Node Q)
      → AllPriced tc
      → get_cloud_instance_price tc node ≢ panic
  unfolding get_cloud_instance_price cached_node_price get_instance_price
  get_cloud_instance_price-ne tc node priced e = elim (Option-cases tc.custom_pricing) [
    | inl unknown ↦ ground (arith, e, unknown)
    | inr (cfg, known) ↦ elim (Option-cases (get_instance_price tc (parse_id node.provider_id))) [
      | inl missed ↦ ground (arith, e, known, missed)
      | inr (q, cached) ↦
          cached_node_price-ne cfg node q (priced (parse_id node.provider_id) q cached)
            (of_cached cfg q known cached)
    ]
  ]
    where
      of_cached :
          (cfg : CustomPricing F) (q : QCloudInstancePrice F)
          → tc.custom_pricing ≡ some cfg
          → get_instance_price tc (parse_id node.provider_id) ≡ some q
          → cached_node_price cfg node (some q) ≡ panic
      of_cached cfg q known cached = rw (known, cached) at e

  real_node_price-ne :
      (cfg : CustomPricing F) (node : Node Q) (c : BaseInstancePrice)
      → real_node_price cfg node c ≢ panic
  unfolding real_node_price
  real_node_price-ne cfg node c e = elim (Bool-cases c.uses_default_price) [
    | inl default ↦ ground (arith, e, default)
    | inr other ↦ break_down-ne cfg _ _ _ (rw other at e)
  ]

  compute_node_breakdown_cost-ne :
      (tc : TencentCloud F Q) (cfg : CustomPricing F) (node : Node Q)
      → AllPriced tc
      → compute_node_breakdown_cost tc cfg (some node) ≢ panic
  unfolding compute_node_breakdown_cost
  compute_node_breakdown_cost-ne tc cfg node priced e =
      elim (Bool-cases (is_virtual_node (some node))) [
        | inl virtual ↦ ground (arith, e, virtual)
        | inr real ↦ elim (Outcome-cases (get_cloud_instance_price tc node)) [
          | inl p ↦ get_cloud_instance_price-ne tc node priced p
          | inr (inl (c, o)) ↦ ground (arith, e, real, o, real_node_price-ne cfg node c)
          | inr (inr (t, f)) ↦ ground (arith, e, real, f)
        ]
      ]

  nodes_cost_total :
      (tc : TencentCloud F Q) (cfg : CustomPricing F)
      → AllPriced tc
      → (nodes : List (Node Q)) (m : Dict BaseInstancePrice)
      → (costs : Dict BaseInstancePrice) × (nodes_cost tc cfg nodes m ≡ ok costs)
  unfolding nodes_cost
  nodes_cost_total tc cfg priced [] m = (m, refl)
  nodes_cost_total tc cfg priced (node ∷ nodes) m =
      elim (Bool-cases (is_virtual_node (some node))) [
        | inl virtual ↦
            let (costs, e) = nodes_cost_total tc cfg priced nodes m in
            (costs, ground (arith, virtual, e))
        | inr real ↦ elim (Outcome-cases (compute_node_breakdown_cost tc cfg (some node))) [
          | inl p ↦ absurd (compute_node_breakdown_cost-ne tc cfg node priced p)
          | inr (inl (c, o)) ↦
              let (costs, e) = nodes_cost_total tc cfg priced nodes (insert node.name c m) in
              (costs, ground (arith, real, o, e))
          | inr (inr (t, f)) ↦
              let (costs, e) = nodes_cost_total tc cfg priced nodes m in
              (costs, ground (arith, real, f, e))
        ]
      ]

  -- If prices are configured, and no cached price lacks its price for a month or for an hour,
  -- `GetNodesCost` ends with a map. It has under each name the price of the last node of that name
  -- that is not virtual and whose price could be computed, and nothing else.
  pub get_nodes_cost_total :
      (tc : TencentCloud F Q) (cfg : CustomPricing F)
      → tc.custom_pricing ≡ some cfg
      → AllPriced tc
      → (costs : Dict BaseInstancePrice) × (get_nodes_cost tc ≡ ok costs)
        × ((name : String) → lookup name costs ≡ cost_by_name tc cfg name tc.nodes)
  get_nodes_cost_total tc cfg known priced =
      let (costs, e) = nodes_cost_total tc cfg priced tc.nodes [] in
      let run : get_nodes_cost tc ≡ ok costs = started costs e in
      (costs, run, get_nodes_cost_lem tc cfg known run)
    where
      started :
          (costs : Dict BaseInstancePrice)
          → nodes_cost tc cfg tc.nodes [] ≡ ok costs
          → get_nodes_cost tc ≡ ok costs
      started costs e = unfold get_nodes_cost in (ground (arith, known, e))
