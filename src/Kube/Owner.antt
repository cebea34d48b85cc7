-- ===== src/Kube/Owner.antt =====
-- pkg/util/owner/owner.go, the search for the object that stands behind a pod, and `FetchReplicas` of
-- pkg/util/target/fetcher.go. The API server and the mapping of kinds to resources are parameters.
pub mod Laws
use fadvisor.Prelude.{
  ℕ, zero, suc, Option, none, some, List, [], ◌∷◌, ◌++◌, String, ◌<>◌, ◌=s=◌, if◌then◌else◌,
}
use fadvisor.Prelude.Outcome.{Outcome, ok, err, panic, ◌>>=◌}

pub record OwnerReference : Type 0 where
  pub api_version : String
  pub kind : String
  pub name : String

-- `unstructured.Unstructured`, as far as it is read.
pub record Object : Type 0 where
  pub api_version : String
  pub kind : String
  pub namespace : String
  pub name : String
  pub owner_references : List OwnerReference

-- `scale.Spec.Replicas` and `scale.Status.Replicas`, or the two counts of a daemon set.
pub record Replicas : Type 0 where
  pub desired : ℕ
  pub current : ℕ

-- A mapping of the REST mapper is known by its resource.
pub record Api : Type 0 where
  -- `schema.ParseGroupVersion`: the group and the version
  pub parse_group_version : String → Outcome (String × String)
  -- `RESTMappings` by group, kind and version, and by group and kind
  pub rest_mappings : String → String → String → Outcome (List String)
  pub all_mappings : String → String → Outcome (List String)
  -- `Resource(r).Namespace(ns).Get(name)`
  pub get : String → String → String → Outcome Object
  -- `DefaultUnstructuredConverter.ToUnstructured`
  pub to_unstructured : Object → Outcome Object
  -- `fmt.Errorf("%v", errs)`
  pub show_errors : List String → String
  -- `DaemonSets(ns).Get(name)` and `Scales(ns).Get(r, name)`
  pub get_daemon_set : String → String → Outcome Replicas
  pub get_scale : String → String → String → Outcome Replicas
  pub to_lower : String → String

module _ (api : Api) where
  -- The loop over the mappings, with the errors so far: the first object that the server finds.
  unfoldable pub first_owner : List String → String → String → List String → Outcome Object
  first_owner [] ns name errs = err (api.show_errors errs)
  first_owner (r ∷ rs) ns name errs = elim (api.get r ns name) [
    | ok o ↦ ok o
    | err e ↦ first_owner rs ns name (errs ++ (e ∷ []))
    | panic ↦ panic
  ]

  -- The owner that the first reference names.
  unfoldable pub owner_of : Object → OwnerReference → Outcome Object
  owner_of obj owner = do
    (group, version) ← api.parse_group_version owner.api_version
    mappings ← api.rest_mappings group owner.kind version
    first_owner mappings obj.namespace owner.name []

  -- `FindRootOwner`, on fuel: `none` when it runs out.
  unfoldable pub find_root_owner : ℕ → Object → Option (Outcome Object)
  find_root_owner zero obj = none
  find_root_owner (suc fuel) obj = elim obj.owner_references [
    | [] ↦ some (api.to_unstructured obj)
    | owner ∷ rest ↦ elim (owner_of obj owner) [
      | ok o ↦ find_root_owner fuel o
      | err e ↦ some (err e)
      | panic ↦ some panic
    ]
  ]

  -- `getReplicasFromScale`, its loop.
  unfoldable pub first_scale : List String → String → String → List String → Outcome Replicas
  first_scale [] ns name errs = err (api.show_errors errs)
  first_scale (r ∷ rs) ns name errs = elim (api.get_scale ns r name) [
    | ok o ↦ ok o
    | err e ↦ first_scale rs ns name (errs ++ (e ∷ []))
    | panic ↦ panic
  ]

  unfoldable pub get_replicas_from_scale : String → String → String → String → Outcome Replicas
  get_replicas_from_scale group kind ns name = do
    mappings ← api.all_mappings group kind
    first_scale mappings ns name []

  unfoldable pub fetch_replicas : Object → Outcome Replicas
  fetch_replicas target = do
    (group, version) ← api.parse_group_version target.api_version
    (if api.to_lower target.kind =s= api.to_lower "DaemonSet"
        then api.get_daemon_set target.namespace target.name
        else get_replicas_from_scale group target.kind target.namespace target.name)
