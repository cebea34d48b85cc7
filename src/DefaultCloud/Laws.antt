-- ===== src/DefaultCloud/Laws.antt =====
-- What the default provider's maps of costs hold.
use mathlib.Core.Option.{or_else}
use fadvisor.Prelude.{
  ◌≡◌, refl, Option, none, some, inl, inr, List, [], ◌∷◌, arith, String, ◌=s=◌, if◌then◌else◌,
  Option-cases,
}
use fadvisor.Prelude.Dict.{Dict, lookup, insert, lookup-insert, lookup-nil}
use fadvisor.Prelude.Outcome.{ok}
use fadvisor.Float.{Float}
use fadvisor.Kube.{Quantity, Node, Pod}
use fadvisor.Cloud.{BaseInstancePrice, CustomPricing}
use fadvisor.Qcloud.State.{nodes_map}
use fadvisor.DefaultCloud.{
  DefaultCloud, get_default_node_price, nodes_loop, get_nodes_cost, price_of_pointer, pods_loop,
  get_pods_cost,
}

module _ {Q : Type 0} where
  -- The last node of a name.
  abbrev pub last_node : String → List (Node Q) → Option (Node Q)
  last_node name [] = none
  last_node name (node ∷ nodes) =
      or_else (last_node name nodes) (if node.name =s= name then some node else none)

  lookup-nodes_map :
      (name : String) (nodes : List (Node Q)) (m : Dict (Node Q))
      → lookup name (nodes_map nodes m) ≡ or_else (last_node name nodes) (lookup name m)
  unfolding nodes_map or_else
  lookup-nodes_map name [] m = refl
  lookup-nodes_map name (node ∷ nodes) m = ground (
    arith,
    lookup-nodes_map name nodes (insert node.name node m),
    lookup-insert name node.name node m,
  )

  -- Every pod's node is in the cache.
  abbrev pub AllScheduled : List (Node Q) → List (Pod Q) → Type 0
  AllScheduled nodes [] = Unit
  AllScheduled nodes (pod ∷ pods) =
      ((node : Node Q) × (last_node pod.node_name nodes ≡ some node)) × AllScheduled nodes pods

module _ {F Q : Type 0} ⦃fl : Float F⦄ ⦃qu : Quantity Q⦄ where
  abbrev pub default_price : CustomPricing F → Option (Node Q) → Option BaseInstancePrice
  default_price cfg none = none
  default_price cfg (some node) = some (get_default_node_price cfg node)

  lookup-nodes_loop :
      (cfg : CustomPricing F) (name : String) (nodes : List (Node Q)) (m : Dict BaseInstancePrice)
      → lookup name (nodes_loop cfg nodes m)
        ≡ or_else (default_price cfg (last_node name nodes)) (lookup name m)
  unfolding nodes_loop or_else
  lookup-nodes_loop cfg name [] m = refl
  lookup-nodes_loop cfg name (node ∷ nodes) m = elim (Option-cases (last_node name nodes)) [
    | inl last ↦ ground (
      arith,
      last,
      lookup-nodes_loop cfg name nodes (insert node.name (get_default_node_price cfg node) m),
      lookup-insert name node.name (get_default_node_price cfg node) m,
    )
    | inr (later, known) ↦ ground (
      arith,
      known,
      lookup-nodes_loop cfg name nodes (insert node.name (get_default_node_price cfg node) m),
    )
  ]

  -- The price of the last pod of that text.
  abbrev pub pod_price :
      (Pod Q → String)
      → CustomPricing F
      → List (Node Q)
      → String
      → List (Pod Q)
      → Option BaseInstancePrice
  pod_price kobj cfg nodes key [] = none
  pod_price kobj cfg nodes key (pod ∷ pods) =
      or_else (pod_price kobj cfg nodes key pods)
        (if kobj pod =s= key then default_price cfg (last_node pod.node_name nodes) else none)

  pods_loop_lem :
      (kobj : Pod Q → String) (tc : DefaultCloud F Q) (cfg : CustomPricing F) (pods : List (Pod Q))
      (m : Dict BaseInstancePrice)
      → AllScheduled tc.nodes pods
      → (costs : Dict BaseInstancePrice) × (pods_loop kobj tc cfg pods m ≡ ok costs)
        × ((key : String)
            → lookup key costs ≡ or_else (pod_price kobj cfg tc.nodes key pods) (lookup key m))
  unfolding pods_loop price_of_pointer or_else
  pods_loop_lem kobj tc cfg [] m h = (m, refl, λ key. refl)
  pods_loop_lem kobj tc cfg (pod ∷ pods) m ((node, known), rest) =
      let c = get_default_node_price cfg node in
      let (costs, made, h) = pods_loop_lem kobj tc cfg pods (insert (kobj pod) c m) rest in
      let found = lookup-nodes_map pod.node_name tc.nodes [] in
      (
        costs,
        ground (arith, found, known, made),
        λ key. ground (arith, known, h key, lookup-insert key (kobj pod) c m),
      )

  -- If prices are configured and every pod's node is in the cache, both maps of the default provider
  -- are made: that of the nodes has under each name the default price of the last node of that name,
  -- and that of the pods has under each text of a pod the default price of the node of the last pod
  -- with that text. Neither has anything else.
  pub get_costs_lem :
      (kobj : Pod Q → String) (tc : DefaultCloud F Q) (cfg : CustomPricing F)
      → tc.custom_pricing ≡ some cfg
      → AllScheduled tc.nodes tc.pods
      → (nodes pods : Dict BaseInstancePrice) × (get_nodes_cost tc ≡ ok nodes)
        × (get_pods_cost kobj tc ≡ ok pods)
        × ((name : String) → lookup name nodes ≡ default_price cfg (last_node name tc.nodes))
        × ((key : String) → lookup key pods ≡ pod_price kobj cfg tc.nodes key tc.pods)
  unfolding get_nodes_cost get_pods_cost or_else
  get_costs_lem kobj tc cfg known scheduled =
      let (pods, made, h) = pods_loop_lem kobj tc cfg tc.pods [] scheduled in
      (
        nodes_loop cfg tc.nodes [],
        pods,
        ground (arith, known),
        ground (arith, known, made),
        λ name. ground (
          arith,
          lookup-nodes_loop cfg name tc.nodes [],
          lookup-nil {V = BaseInstancePrice} name,
        ),
        λ key. ground (arith, h key, lookup-nil {V = BaseInstancePrice} key),
      )
