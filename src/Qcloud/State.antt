-- ===== src/Qcloud/State.antt =====
-- The state of `TencentCloud`, pkg/cloudproviders/qcloud/qcloud.go, with the fields of the cloud
-- SDK's objects that the code reads, and the tests on nodes.
use fadvisor.Prelude.{
  ℕ, Bool, false, Option, none, some, List, [], ◌∷◌, String, ◌=s=◌, if◌then◌else◌,
}
use fadvisor.Prelude.Dict.{Dict, lookup, insert}
use fadvisor.Kube.{Node, Pod, get_region, label_instance_type, label_instance_type_stable}
use fadvisor.Cloud.{CustomPricing}
use fadvisor.Qcloud.Regions.{short_name2region}

-- `cvm.ItemPrice`
pub record ItemPrice (F : Type 0) : Type 0 where
  pub unit_price : Option F
  pub charge_unit : Option String
  pub original_price : Option F
  pub discount_price : Option F
  pub discount : Option F
  pub unit_price_discount : Option F
  pub unit_price_second_step : Option F
  pub unit_price_discount_second_step : Option F
  pub unit_price_third_step : Option F
  pub unit_price_discount_third_step : Option F
  pub original_price_three_year : Option F
  pub discount_price_three_year : Option F
  pub discount_three_year : Option F
  pub original_price_five_year : Option F
  pub discount_price_five_year : Option F
  pub discount_five_year : Option F
  pub original_price_one_year : Option F
  pub discount_price_one_year : Option F
  pub discount_one_year : Option F

-- `cvm.Price`
pub record CvmPrice (F : Type 0) : Type 0 where
  pub instance_price : Option (ItemPrice F)

-- `cvm.Instance`; `placement` is the pointer to a placement, with the pointer to its zone. The
-- memory is in gigabytes.
pub record Instance : Type 0 where
  pub instance_id : Option String
  pub instance_charge_type : Option String
  pub instance_type : Option String
  pub cpu : Option ℕ
  pub memory : Option ℕ
  pub placement : Option (Option String)

-- `QCloudInstancePrice` of pkg/cloudsdk/qcloud/cvm.
pub record QCloudInstancePrice (F : Type 0) : Type 0 where
  pub cvm_instance : Option Instance
  pub price : Option (CvmPrice F)

-- `cvm.InstanceTypeQuotaItem`
pub record QuotaItem (F : Type 0) : Type 0 where
  pub zone : Option String
  pub instance_type : Option String
  pub instance_charge_type : Option String
  pub price : Option (ItemPrice F)

-- The fields of `TencentCloud`. `nodes` and `pods` are what its cache lists; the instances are
-- pointers, and the custom pricing is one.
pub record TencentCloud (F Q : Type 0) : Type 0 where
  pub nodes : List (Node Q)
  pub pods : List (Pod Q)
  pub custom_pricing : Option (CustomPricing F)
  pub standard_pricing : Dict (QuotaItem F)
  pub instances : Dict (QCloudInstancePrice F)

abbrev pub value_node_type_eklet : String
value_node_type_eklet = "eklet"

abbrev pub label_node_instance_version : String
label_node_instance_version = "eks.tke.cloud.tencent.com/version"

abbrev pub value_node_instance_version_v2 : String
value_node_instance_version_v2 = "v2"

-- A label that is there and is not empty.
abbrev pub non_empty_label : String → Dict String → Option String
non_empty_label name labels = elim (lookup name labels) [
  | none ↦ none
  | some v ↦ if v =s= "" then none else some v
]

abbrev eklet_version : Dict String → Bool
eklet_version labels = elim (non_empty_label label_node_instance_version labels) [
  | none ↦ false
  | some v ↦ v =s= value_node_instance_version_v2
]

abbrev has_eklet_type : Option String → Dict String → Bool
has_eklet_type none labels = false
has_eklet_type (some t) labels = if t =s= value_node_type_eklet then eklet_version labels else false

abbrev instance_type_label : Dict String → Option String
instance_type_label labels = elim (non_empty_label label_instance_type_stable labels) [
  | some t ↦ some t
  | none ↦ non_empty_label label_instance_type labels
]

abbrev has_virtual_labels : Dict String → Bool
has_virtual_labels [] = false
has_virtual_labels (l ∷ labels) = has_eklet_type (instance_type_label (l ∷ labels)) (l ∷ labels)

module _ {Q : Type 0} where
  -- `IsVirtualNode`; `none` is a nil pointer.
  unfoldable pub is_virtual_node : Option (Node Q) → Bool
  is_virtual_node none = false
  is_virtual_node (some node) = has_virtual_labels node.labels

  -- `getNodeRegion`
  unfoldable pub get_node_region : Node Q → String
  get_node_region node =
      let short = (get_region node.labels).0 in
      elim (lookup short short_name2region) [ some r ↦ r.region | none ↦ short ]

  -- The map from names to nodes that `IsServerlessPod` and `GetPodsCost` build.
  unfoldable pub nodes_map : List (Node Q) → Dict (Node Q) → Dict (Node Q)
  nodes_map [] m = m
  nodes_map (node ∷ nodes) m = nodes_map nodes (insert node.name node m)

module _ {F Q : Type 0} where
  -- `IsServerlessPod`
  unfoldable pub is_serverless_pod : TencentCloud F Q → Pod Q → Bool
  is_serverless_pod tc pod = is_virtual_node (lookup pod.node_name (nodes_map tc.nodes []))

module _ {F Q : Type 0} where
  -- `GetInstancePrice`
  unfoldable pub get_instance_price : TencentCloud F Q → String → Option (QCloudInstancePrice F)
  get_instance_price tc id = lookup id tc.instances

  -- `getInstanceById`
  unfoldable pub get_instance_by_id : TencentCloud F Q → String → Option Instance
  get_instance_by_id tc id = elim (lookup id tc.instances) [
    | none ↦ none
    | some ins ↦ ins.cvm_instance
  ]
