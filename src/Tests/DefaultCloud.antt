-- ===== src/Tests/DefaultCloud.antt =====
-- A cluster with one node and one pod on it, priced by the default provider.
use mathlib.Core.Option.{or_else}
use fadvisor.Prelude.{ℕ, ◌≡◌, refl, none, some, [], ◌∷◌, String}
use fadvisor.Prelude.Dict.{Dict, lookup}
use fadvisor.Prelude.Outcome.{ok}
use fadvisor.Kube.{Pod}
use fadvisor.Cloud.{BaseInstancePrice}
use fadvisor.DefaultCloud.{DefaultCloud, get_nodes_cost, get_pods_cost}
use fadvisor.DefaultCloud.Laws.{last_node, default_price, pod_price, get_costs_lem}
use fadvisor.Tests.Numbers.{strokes_float, nat_quantity}
use fadvisor.Tests.Config.{pricing}
use fadvisor.Tests.Qcloud.{worker}

abbrev web : Pod ℕ
web = record {
  namespace = "default";
  name = "web";
  node_name = "worker";
  annotations = none;
  owner_kinds = [];
  containers = [];
}

abbrev pod_text : Pod ℕ → String
pod_text pod = pod.name

abbrev small_cloud : DefaultCloud ℕ ℕ
small_cloud = record { nodes = worker ∷ []; pods = web ∷ []; custom_pricing = some pricing }

get_costs_example :
    (nodes pods : Dict BaseInstancePrice) × (get_nodes_cost small_cloud ≡ ok nodes)
    × (get_pods_cost pod_text small_cloud ≡ ok pods)
    × ((name : String) → lookup name nodes ≡ default_price pricing (last_node name (worker ∷ [])))
    × ((key : String) → lookup key pods ≡ pod_price pod_text pricing (worker ∷ []) key (web ∷ []))
unfolding or_else
get_costs_example = get_costs_lem pod_text small_cloud pricing refl ((worker, refl), tt)
