-- ===== src/Comparator/Workloads/Laws.antt =====
-- Which pod stands for a workload.
use mathlib.Core.Option.{get_or, or_else}
use fadvisor.Prelude.{
  ℕ, ◌≡◌, ◌&&◌, Option, none, some, List, [], ◌∷◌, String, ◌=s=◌, arith, eq_iff, if◌then◌else◌, sym,
  ap, ◌∙◌, inl, inr, Option-cases,
}
use fadvisor.Prelude.Dict.{lookup, lookup-insert}
use fadvisor.Kube.{Pod}
use fadvisor.Kube.Owner.{Object}
use fadvisor.Comparator.{NamespacedName, NameMap, same_name, lookup_name}
use fadvisor.Comparator.Workloads.{
  SpecConverter, WorkloadSpec, WorkloadsSpec, Owners, name_of, workload_spec, add_name, add_pod,
  init_workloads_spec,
}
use fadvisor.Comparator.Checkpoint.Keys.{
  find_name, or_else-none, lookup_name-insert_name, same_name_eq,
}

module _ {Q : Type 0} (cloud : SpecConverter Q) (owners : Owners Q) where
  -- The number of pods that a pod speaks for: of a job none, of a pod that nothing owns its own, and
  -- of any other workload the desired replicas, if they can be fetched.
  abbrev pub desired_goods : Pod Q → Object → Option ℕ
  desired_goods pod o =
      let kind = owners.to_lower o.kind in
      if kind =s= "pod"
      then some (cloud.pod2spec pod).goods_num
      else if kind =s= "job"
      then none
      else if kind =s= "cronjob"
      then none
      else owners.replicas o

  -- The specification of a pod for its workload, with that number.
  abbrev pub spec_for : Pod Q → Object → Option (WorkloadSpec Q)
  spec_for pod o = elim (desired_goods pod o) [
    | none ↦ none
    | some n ↦ some (record { spec = record (cloud.pod2spec pod) { goods_num = n }; workload = o })
  ]

  workload_spec_lem : (pod : Pod Q) (o : Object) → workload_spec cloud owners pod o ≡ spec_for pod o
  unfolding workload_spec
  workload_spec_lem pod o =
      let kind = owners.to_lower o.kind in
      ground (arith, eq_iff kind "pod", eq_iff kind "job", eq_iff kind "cronjob")

  -- The first pod of this workload that has a specification.
  abbrev pub first_spec : String → NamespacedName → List (Pod Q) → Option (WorkloadSpec Q)
  first_spec kind nn [] = none
  first_spec kind nn (pod ∷ pods) = elim (owners.root pod) [
    | none ↦ first_spec kind nn pods
    | some o ↦
        if o.kind =s= kind && same_name (name_of o) nn
        then or_else (spec_for pod o) (first_spec kind nn pods)
        else first_spec kind nn pods
  ]

  lookup_name-add_name :
      (nn : NamespacedName) (pod : Pod Q) (o : Object) (names : NameMap (WorkloadSpec Q))
      → lookup_name nn (add_name cloud owners pod o names) ≡ (
          if same_name (name_of o) nn
          then or_else (lookup_name nn names) (workload_spec cloud owners pod o)
          else lookup_name nn names)
  unfolding add_name or_else
  lookup_name-add_name nn pod o names = elim (Option-cases (workload_spec cloud owners pod o)) [
    | inl no_spec ↦ ground (arith, no_spec, or_else-none (lookup_name nn names))
    | inr (w, has_spec) ↦ ground (
      arith,
      has_spec,
      same_name_eq (name_of o) nn,
      or_else-none (lookup_name nn names),
      lookup_name-insert_name nn (name_of o) w names,
    )
  ]

  find_name-add_pod :
      (kind : String) (nn : NamespacedName) (pod : Pod Q) (m : WorkloadsSpec Q)
      → find_name kind nn (add_pod cloud owners pod m)
        ≡ or_else (find_name kind nn m) (first_spec kind nn (pod ∷ []))
  unfolding find_name add_pod or_else
  find_name-add_pod kind nn pod m = elim (Option-cases (owners.root pod)) [
    | inl none_found ↦ ground (arith, none_found, or_else-none (find_name kind nn m))
    | inr (o, found) ↦
        let names = get_or (lookup o.kind m) [] in
        ground (
          arith,
          found,
          eq_iff o.kind kind,
          or_else-none (spec_for pod o),
          or_else-none (find_name kind nn m),
          or_else-none (lookup_name nn names),
          lookup-insert kind o.kind (add_name cloud owners pod o names) m,
          lookup_name-add_name nn pod o names,
          workload_spec_lem pod o,
        )
  ]

  first_spec-cons :
      (kind : String) (nn : NamespacedName) (pod : Pod Q) (pods : List (Pod Q))
      (w : Option (WorkloadSpec Q))
      → or_else (or_else w (first_spec kind nn (pod ∷ []))) (first_spec kind nn pods)
        ≡ or_else w (first_spec kind nn (pod ∷ pods))
  unfolding or_else
  first_spec-cons kind nn pod pods w = ground arith

  find_name-init_workloads_spec :
      (kind : String) (nn : NamespacedName) (pods : List (Pod Q)) (m : WorkloadsSpec Q)
      → find_name kind nn (init_workloads_spec cloud owners pods m)
        ≡ or_else (find_name kind nn m) (first_spec kind nn pods)
  unfolding init_workloads_spec
  find_name-init_workloads_spec kind nn [] m = sym (or_else-none (find_name kind nn m))
  find_name-init_workloads_spec kind nn (pod ∷ pods) m =
      find_name-init_workloads_spec kind nn pods (add_pod cloud owners pod m)
      ∙ ap (λ w. or_else w (first_spec kind nn pods)) (find_name-add_pod kind nn pod m)
      ∙ first_spec-cons kind nn pod pods (find_name kind nn m)

  -- For every kind and name the specification comes from the first pod, in the order of the cache,
  -- whose root is that workload and that has one: a pod without a root, a job or a cron job, and a
  -- workload whose replicas cannot be fetched give none, and later pods change nothing. It is the
  -- specification of that pod, with the desired replicas unless the root is the pod itself.
  pub init_workloads_spec_lem :
      (kind : String) (nn : NamespacedName) (pods : List (Pod Q))
      → find_name kind nn (init_workloads_spec cloud owners pods []) ≡ first_spec kind nn pods
  unfolding find_name lookup lookup_name or_else
  init_workloads_spec_lem kind nn pods = find_name-init_workloads_spec kind nn pods []
