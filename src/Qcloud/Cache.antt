-- ===== src/Qcloud/Cache.antt =====
-- pkg/cloudproviders/qcloud/price_cache.go: the caches of standard prices and of instance prices. The
-- locks make each update one step, so an operation is a function from state to state.
pub mod Laws
use fadvisor.Prelude.{
  contains, Bool, true, false, not, ◌||◌, Option, none, some, List, [], ◌∷◌, ◌++◌, String, ◌<>◌,
  ◌=s=◌, if◌then◌else◌,
}
use fadvisor.Prelude.Dict.{Dict, lookup, insert, erase}
use fadvisor.Prelude.Outcome.{Outcome, ok, err, panic, ◌>>=◌, deref}
use fadvisor.Kube.{Node}
use fadvisor.Qcloud.ProviderId.{parse_id}
use fadvisor.Qcloud.State.{Instance, QCloudInstancePrice, QuotaItem, TencentCloud, is_virtual_node}

-- The methods of `CVMClient` that the cache calls.
pub record CvmClient (F : Type 0) : Type 0 where
  pub get_all_zone_instance_config_infos : Outcome (List (QuotaItem F))
  pub get_cvm_instances : List String → Outcome (List Instance)
  pub get_cvm_instances_price : List Instance → Outcome (List (QCloudInstancePrice F))

-- An operation that fails leaves a state all the same: the error stands beside it.
abbrev pub Update : Type 0 → Type 0 → Type 0
Update F Q = Outcome (TencentCloud F Q × Option String)

module _ {F : Type 0} where
  unfoldable pub pricing_key : QuotaItem F → Outcome String
  pricing_key item = do
    zone ← deref item.zone
    ins_type ← deref item.instance_type
    charge_type ← deref item.instance_charge_type
    ok (zone <> "," <> ins_type <> "," <> charge_type)

  unfoldable pub add_quota_items :
      List (QuotaItem F) → Dict (QuotaItem F) → Outcome (Dict (QuotaItem F))
  add_quota_items [] m = ok m
  add_quota_items (item ∷ items) m =
      pricing_key item >>= λ key. add_quota_items items (insert key item m)

  -- The first loop under the lock.
  unfoldable pub add_prices :
      List (QCloudInstancePrice F) → Dict (QCloudInstancePrice F) → Dict (QCloudInstancePrice F)
  add_prices [] m = m
  add_prices (ins_price ∷ rest) m = elim ins_price.cvm_instance [
    | none ↦ add_prices rest m
    | some ins ↦ elim ins.instance_id [
      | none ↦ add_prices rest m
      | some id ↦ add_prices rest (insert id ins_price m)
    ]
  ]

  -- The second one deletes the instances that are no node's.
  unfoldable pub retain : List String → Dict (QCloudInstancePrice F) → Dict (QCloudInstancePrice F)
  retain ids [] = []
  retain ids ((id, ins_price) ∷ m) =
      let rest = retain ids m in if contains ids id then (id, ins_price) ∷ rest else rest

module _ {Q : Type 0} where
  -- The ids of the nodes, without those that have none.
  unfoldable pub node_ids : List (Node Q) → List String
  node_ids [] = []
  node_ids (node ∷ nodes) =
      let rest = node_ids nodes in
      if parse_id node.provider_id =s= "" then rest else parse_id node.provider_id ∷ rest

module _ {F Q : Type 0} where
  unfoldable pub refresh_pricing_cache : CvmClient F → TencentCloud F Q → Update F Q
  refresh_pricing_cache cvm tc = elim cvm.get_all_zone_instance_config_infos [
    | err e ↦ ok (tc, some e)
    | panic ↦ panic
    | ok items ↦ add_quota_items items tc.standard_pricing >>= λ m.
        ok (record tc { standard_pricing = m }, none)
  ]

  unfoldable pub refresh_instance_pricing_cache :
      CvmClient F → List (Node Q) → TencentCloud F Q → Update F Q
  refresh_instance_pricing_cache cvm nodes tc =
      let ids = node_ids nodes in
      elim (cvm.get_cvm_instances ids >>= cvm.get_cvm_instances_price) [
        | err e ↦ ok (tc, some e)
        | panic ↦ panic
        | ok prices ↦
            ok (record tc { instances = retain ids (add_prices prices tc.instances) }, none)
      ]

  abbrev after_pricing : CvmClient F → TencentCloud F Q × Option String → Update F Q
  after_pricing cvm (tc, some e) = ok (tc, some e)
  after_pricing cvm (tc, none) = refresh_instance_pricing_cache cvm tc.nodes tc

  -- `WarmUp`; `Refresh` does the same, and logs the error.
  unfoldable pub warm_up : CvmClient F → TencentCloud F Q → Update F Q
  warm_up cvm tc = refresh_pricing_cache cvm tc >>= after_pricing cvm

  unfoldable pub refresh : CvmClient F → TencentCloud F Q → Outcome (TencentCloud F Q)
  unfolding warm_up
  refresh cvm tc = warm_up cvm tc >>= λ r. ok r.0

  unfoldable pub on_node_delete : Option (Node Q) → TencentCloud F Q → TencentCloud F Q
  on_node_delete none tc = tc
  on_node_delete (some node) tc = record tc {
    instances = erase (parse_id node.provider_id) tc.instances;
  }

  -- The price that came first is stored.
  unfoldable pub store_first :
      String → TencentCloud F Q → List (QCloudInstancePrice F) → TencentCloud F Q
  store_first id tc [] = tc
  store_first id tc (ins_price ∷ rest) = record tc { instances = insert id ins_price tc.instances }

  unfoldable pub on_node_add : CvmClient F → Option (Node Q) → TencentCloud F Q → Update F Q
  on_node_add cvm none tc = ok (tc, none)
  on_node_add cvm (some node) tc =
      let id = parse_id node.provider_id in
      if is_virtual_node (some node)
      then ok (tc, none)
      else elim (cvm.get_cvm_instances (id ∷ []) >>= cvm.get_cvm_instances_price) [
        | err e ↦ ok (tc, some e)
        | panic ↦ panic
        | ok prices ↦ ok (store_first id tc prices, none)
      ]

  unfoldable pub on_node_update : Node Q → Node Q → TencentCloud F Q → TencentCloud F Q
  on_node_update old new tc = tc
