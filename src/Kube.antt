-- ===== src/Kube.antt =====
-- The parts of Kubernetes objects that the code reads, and pkg/util/annotation.go.
pub mod Owner
use fadvisor.Prelude.{ℕ, ℤ, Bool, true, false, Option, none, some, List, String}
use fadvisor.Prelude.Dict.{Dict, lookup}

-- `resource.Quantity` of apimachinery.
pub record Quantity (Q : Type 0) : Type 0 where
  pub no_quantity : Q
  -- `Value`, `MilliValue`, where they are not negative, and `String`
  pub value : Q → ℕ
  pub milli_value : Q → ℕ
  pub show : Q → String
  -- `Add`
  pub plus : Q → Q → Q
  -- `NewQuantity` in the binary and `NewMilliQuantity` in the decimal format
  pub of_value : ℤ → Q
  pub of_milli : ℤ → Q

-- `v1.Node`. A nil map of labels and an empty one are read alike.
pub record Node (Q : Type 0) : Type 0 where
  pub name : String
  pub labels : Dict String
  pub provider_id : String
  pub cpu : Q
  pub memory : Q

-- `v1.Container`; `requests` and `limits` are `none` where the map is nil.
pub record Container (Q : Type 0) : Type 0 where
  pub name : String
  pub requests : Option (Dict Q)
  pub limits : Option (Dict Q)

-- `v1.Pod`; `annotations` is `none` where the map is nil, `owner_kinds` are the kinds of the owner
-- references.
pub record Pod (Q : Type 0) : Type 0 where
  pub namespace : String
  pub name : String
  pub node_name : String
  pub annotations : Option (Dict String)
  pub owner_kinds : List String
  pub containers : List (Container Q)

-- The label names of k8s.io/api.
abbrev pub label_topology_region : String
label_topology_region = "topology.kubernetes.io/region"

abbrev pub label_zone_region : String
label_zone_region = "failure-domain.beta.kubernetes.io/region"

abbrev pub label_topology_zone : String
label_topology_zone = "topology.kubernetes.io/zone"

abbrev pub label_zone_failure_domain : String
label_zone_failure_domain = "failure-domain.beta.kubernetes.io/zone"

abbrev pub label_instance_type : String
label_instance_type = "beta.kubernetes.io/instance-type"

abbrev pub label_instance_type_stable : String
label_instance_type_stable = "node.kubernetes.io/instance-type"

abbrev pub label_os_stable : String
label_os_stable = "kubernetes.io/os"

-- The body that the four functions share: the first label that is there, and whether one is.
first_label : String → String → Dict String → String × Bool
first_label fst snd labels = elim (lookup fst labels) [
  | some v ↦ (v, true)
  | none ↦ elim (lookup snd labels) [ some v ↦ (v, true) | none ↦ ("", false) ]
]

unfoldable pub get_region : Dict String → String × Bool
unfolding first_label
get_region = first_label label_topology_region label_zone_region

unfoldable pub get_zone : Dict String → String × Bool
unfolding first_label
get_zone = first_label label_topology_zone label_zone_failure_domain

unfoldable pub get_instance_type : Dict String → String × Bool
unfolding first_label
get_instance_type = first_label label_instance_type label_instance_type_stable

unfoldable pub get_operating_system : Dict String → String × Bool
unfolding first_label
get_operating_system = first_label label_os_stable "beta.kubernetes.io/os"
