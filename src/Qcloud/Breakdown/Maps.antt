-- ===== src/Qcloud/Breakdown/Maps.antt =====
-- Which nodes and pods get a price.
use mathlib.Core.Option.{or_else}
use fadvisor.Prelude.{
  ◌≡◌, refl, ◌∙◌, Option, none, some, List, [], ◌∷◌, arith, String, ◌=s=◌, if◌then◌else◌,
  Bool-cases, inl, inr, ◌⊎◌,
}
use fadvisor.Prelude.Dict.{Dict, lookup, insert, lookup-insert}
use fadvisor.Prelude.Outcome.{ok, panic, Outcome-cases}
use fadvisor.Float.{Float}
use fadvisor.Kube.{Quantity, Node, Pod}
use fadvisor.Cloud.{BaseInstancePrice, CustomPricing}
use fadvisor.Qcloud.State.{TencentCloud, is_virtual_node, nodes_map}
use fadvisor.Qcloud.Breakdown.{
  compute_node_breakdown_cost, nodes_cost, get_nodes_cost, pods_cost, get_pods_cost,
}

module _ {F Q : Type 0} ⦃fl : Float F⦄ ⦃qu : Quantity Q⦄ (tc : TencentCloud F Q)
    (cfg : CustomPricing F) where
  -- The price that one node contributes to the map of costs.
  abbrev pub own_cost : Node Q → Option BaseInstancePrice
  own_cost node =
      if is_virtual_node (some node)
      then none
      else elim (compute_node_breakdown_cost tc cfg (some node)) [ ok c ↦ some c | _ ↦ none ]

  -- The price of the last node of that name that has one.
  abbrev pub cost_by_name : String → List (Node Q) → Option BaseInstancePrice
  cost_by_name name [] = none
  cost_by_name name (node ∷ nodes) =
      or_else (cost_by_name name nodes) (if node.name =s= name then own_cost node else none)

  nodes_cost_lem :
      (nodes : List (Node Q)) (m : Dict BaseInstancePrice) {costs : Dict BaseInstancePrice}
      → nodes_cost tc cfg nodes m ≡ ok costs
      → (name : String) → lookup name costs ≡ or_else (cost_by_name name nodes) (lookup name m)
  unfolding nodes_cost or_else
  nodes_cost_lem [] m e name = ground arith
  nodes_cost_lem (node ∷ nodes) m {costs} e name = elim (Bool-cases (is_virtual_node (some node))) [
    | inl virtual ↦ ground (
      arith,
      virtual,
      λ (h : nodes_cost tc cfg nodes m ≡ ok costs). nodes_cost_lem nodes m h name,
    )
    | inr real ↦ elim (Outcome-cases (compute_node_breakdown_cost tc cfg (some node))) [
      | inl p ↦ ground (arith, real, p)
      | inr (inl (c, o)) ↦ ground (
        arith,
        real,
        o,
        λ (h : nodes_cost tc cfg nodes (insert node.name c m) ≡ ok costs).
            nodes_cost_lem nodes (insert node.name c m) h name,
        lookup-insert name node.name c m,
      )
      | inr (inr (t, f)) ↦ ground (
        arith,
        real,
        f,
        λ (h : nodes_cost tc cfg nodes m ≡ ok costs). nodes_cost_lem nodes m h name,
      )
    ]
  ]

  -- Some pod's node is not in the cache.
  abbrev pub HasUnknownNode : List (Pod Q) → Type 0
  HasUnknownNode [] = ⊥
  HasUnknownNode (pod ∷ pods) =
      (lookup pod.node_name (nodes_map tc.nodes []) ≡ none) ⊎ HasUnknownNode pods

  pods_cost_panics :
      (kobj : Pod Q → String) (pods : List (Pod Q)) (m : Dict BaseInstancePrice)
      → HasUnknownNode pods
      → pods_cost kobj tc cfg pods m ≡ panic
  unfolding pods_cost
  pods_cost_panics kobj [] m h = absurd h
  pods_cost_panics kobj (pod ∷ pods) m (inl unknown) =
      unfold is_virtual_node compute_node_breakdown_cost in (rw unknown)
  pods_cost_panics kobj (pod ∷ pods) m (inr later) =
      let node = lookup pod.node_name (nodes_map tc.nodes []) in
      elim (Bool-cases (is_virtual_node node)) [
        | inl virtual ↦ rw virtual (pods_cost_panics kobj pods m later)
        | inr real ↦ elim (Outcome-cases (compute_node_breakdown_cost tc cfg node)) [
          | inl p ↦ rw (real, p)
          | inr (inl (c, o)) ↦
              rw (real, o) (pods_cost_panics kobj pods (insert (kobj pod) c m) later)
          | inr (inr (t, f)) ↦ rw (real, f) (pods_cost_panics kobj pods m later)
        ]
      ]

module _ {F Q : Type 0} ⦃fl : Float F⦄ ⦃qu : Quantity Q⦄ where
  -- The map of `GetNodesCost` has under each name the price of the last node of that name that is
  -- not virtual and whose price could be computed, and nothing else.
  pub get_nodes_cost_lem :
      (tc : TencentCloud F Q) (cfg : CustomPricing F) {costs : Dict BaseInstancePrice}
      → tc.custom_pricing ≡ some cfg
      → get_nodes_cost tc ≡ ok costs
      → (name : String) → lookup name costs ≡ cost_by_name tc cfg name tc.nodes
  unfolding get_nodes_cost lookup or_else
  get_nodes_cost_lem tc cfg {costs} known e name =
      let run : nodes_cost tc cfg tc.nodes [] ≡ ok costs = ground (arith, known, e) in
      nodes_cost_lem tc cfg tc.nodes [] run name ∙ right (cost_by_name tc cfg name tc.nodes)
    where
      right : (o : Option BaseInstancePrice) → or_else o none ≡ o
      right none = refl
      right (some c) = refl

  -- If prices are configured and some pod names a node that the cache does not list, such as a pod
  -- that is not scheduled yet, `GetPodsCost` panics.
  pub get_pods_cost_panics :
      (kobj : Pod Q → String) (tc : TencentCloud F Q) (cfg : CustomPricing F)
      → tc.custom_pricing ≡ some cfg
      → HasUnknownNode tc cfg tc.pods
      → get_pods_cost kobj tc ≡ panic
  unfolding get_pods_cost
  get_pods_cost_panics kobj tc cfg known h =
      ground (arith, known, pods_cost_panics tc cfg kobj tc.pods [] h)
