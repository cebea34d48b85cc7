-- ===== src/Qcloud/Cache/Laws.antt =====
-- What the cache of instances holds after a refresh of the instances' prices, and after a node is
-- added and deleted.
use mathlib.Core.Option.{or_else}
use fadvisor.Prelude.{
  contains, ◌≡◌, refl, Bool, false, Option, none, some, inl, inr, Option-cases, List, [], ◌∷◌,
  arith, String, ◌=s=◌, eq_iff, if◌then◌else◌,
}
use fadvisor.Prelude.Dict.{Dict, lookup, insert, lookup-insert, lookup-erase}
use fadvisor.Prelude.Outcome.{ok, err, ◌>>=◌}
use fadvisor.Kube.{Node}
use fadvisor.Qcloud.ProviderId.{parse_id}
use fadvisor.Qcloud.State.{
  Instance, QCloudInstancePrice, TencentCloud, is_virtual_node, get_instance_price,
}
use fadvisor.Qcloud.Cache.{
  CvmClient, node_ids, add_prices, retain, refresh_instance_pricing_cache, on_node_delete,
  store_first, on_node_add,
}

module _ {F : Type 0} where
  -- The last of the prices that is for this instance.
  abbrev pub has_id : String → QCloudInstancePrice F → Bool
  has_id id ins_price = elim ins_price.cvm_instance [
    | none ↦ false
    | some ins ↦ elim ins.instance_id [ none ↦ false | some j ↦ j =s= id ]
  ]

  abbrev pub last_price : String → List (QCloudInstancePrice F) → Option (QCloudInstancePrice F)
  last_price id [] = none
  last_price id (p ∷ ps) = or_else (last_price id ps) (if has_id id p then some p else none)

  lookup-add_prices :
      (id : String) (ps : List (QCloudInstancePrice F)) (m : Dict (QCloudInstancePrice F))
      → lookup id (add_prices ps m) ≡ or_else (last_price id ps) (lookup id m)
  unfolding add_prices or_else
  lookup-add_prices id [] m = refl
  lookup-add_prices id (p ∷ ps) m = elim (Option-cases p.cvm_instance) [
    | inl no_ins ↦ ground (arith, no_ins, lookup-add_prices id ps m)
    | inr (ins, e) ↦ elim (Option-cases ins.instance_id) [
      | inl no_id ↦ ground (arith, e, no_id, lookup-add_prices id ps m)
      | inr (j, i) ↦
          ground (
            arith,
            e,
            i,
            lookup-add_prices id ps (insert j p m),
            lookup-insert id j p m,
            eq_iff j id,
          )
    ]
  ]

  lookup-retain :
      (id : String) (ids : List String) (m : Dict (QCloudInstancePrice F))
      → lookup id (retain ids m) ≡ (if contains ids id then lookup id m else none)
  unfolding retain lookup
  lookup-retain id ids [] = ground arith
  lookup-retain id ids ((j, p) ∷ m) = ground (arith, lookup-retain id ids m, eq_iff j id)

module _ {F Q : Type 0} where
  -- If both queries of a refresh succeed, no instance is cached afterwards unless a node has its
  -- id. An instance whose id a node has is cached with the last price in the answer that is for it,
  -- or, if there is none, as it was before. All else of the state is as it was.
  pub refresh_instance_pricing_cache_lem :
      (cvm : CvmClient F) (nodes : List (Node Q)) (tc : TencentCloud F Q) (found : List Instance)
      (prices : List (QCloudInstancePrice F))
      → cvm.get_cvm_instances (node_ids nodes) ≡ ok found
      → cvm.get_cvm_instances_price found ≡ ok prices
      → (m : Dict (QCloudInstancePrice F)) × (refresh_instance_pricing_cache cvm nodes tc
          ≡ ok (record tc { instances = m }, none))
        × ((id : String)
            → lookup id m ≡ (
                if contains (node_ids nodes) id
                then or_else (last_price id prices) (lookup id tc.instances)
                else none))
  unfolding refresh_instance_pricing_cache
  refresh_instance_pricing_cache_lem cvm nodes tc found prices e f = (
    retain (node_ids nodes) (add_prices prices tc.instances),
    ground (arith, e, f),
    λ id. ground (
      arith,
      lookup-retain id (node_ids nodes) (add_prices prices tc.instances),
      lookup-add_prices id prices tc.instances,
    ),
  )

  -- If one of the queries of a refresh fails, the error is returned and nothing is changed.
  pub refresh_instance_pricing_cache_failed :
      (cvm : CvmClient F) (nodes : List (Node Q)) (tc : TencentCloud F Q) (e : String)
      → (cvm.get_cvm_instances (node_ids nodes) >>= cvm.get_cvm_instances_price) ≡ err e
      → refresh_instance_pricing_cache cvm nodes tc ≡ ok (tc, some e)
  unfolding refresh_instance_pricing_cache
  refresh_instance_pricing_cache_failed cvm nodes tc e h = ground (arith, h)

  -- What `OnNodeAdd` stores for the instance of a node that is not virtual: the first price of the
  -- answer, under the id of the node. Every other instance keeps what it had.
  abbrev pub IsAdded :
      String → List (QCloudInstancePrice F) → TencentCloud F Q → TencentCloud F Q → Type 0
  IsAdded id [] old new = new ≡ old
  IsAdded id (p ∷ ps) old new =
      (j : String)
      → get_instance_price new j ≡ (if id =s= j then some p else get_instance_price old j)

  -- If both queries for a node that is not virtual succeed, the first price that they give is
  -- cached under the node's id, and nothing changes where they give none. Deleting the node
  -- afterwards removes the entry, and leaves all others.
  pub on_node_add-delete :
      (cvm : CvmClient F) (node : Node Q) (tc : TencentCloud F Q) (found : List Instance)
      (prices : List (QCloudInstancePrice F))
      → is_virtual_node (some node) ≡ false
      → cvm.get_cvm_instances (parse_id node.provider_id ∷ []) ≡ ok found
      → cvm.get_cvm_instances_price found ≡ ok prices
      → let id = parse_id node.provider_id in
        (new : TencentCloud F Q) × (on_node_add cvm (some node) tc ≡ ok (new, none))
        × IsAdded id prices tc new
        × ((j : String)
            → get_instance_price (on_node_delete (some node) new) j
              ≡ (if id =s= j then none else get_instance_price tc j))
  unfolding on_node_add store_first get_instance_price on_node_delete
  on_node_add-delete cvm node tc found [] real e f = (
    tc,
    ground (arith, real, e, f),
    refl,
    λ j. ground (arith, lookup-erase j (parse_id node.provider_id) tc.instances),
  )
  on_node_add-delete cvm node tc found (p ∷ ps) real e f =
      let id = parse_id node.provider_id in
      (
        record tc { instances = insert id p tc.instances },
        ground (arith, real, e, f),
        λ j. lookup-insert j id p tc.instances,
        λ j. ground (
          arith,
          lookup-erase j id (insert id p tc.instances),
          lookup-insert j id p tc.instances,
        ),
      )
