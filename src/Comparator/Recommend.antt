-- ===== src/Comparator/Recommend.antt =====
-- `GetAllWorkloadRecommendedData` and `ServerlessWorkloadsResourceTotal` of
-- pkg/cost-comparator/comparator.go. The statistics of the containers, which the result also keeps,
-- are left out of it.
pub mod Limits
pub mod Laws
use mathlib.Core.Option.{get_or, map as map_option}
use fadvisor.Prelude.{ℕ, Bool, Option, none, some, List, [], ◌∷◌, String, ◌=s=◌, if◌then◌else◌}
use fadvisor.Prelude.Dict.{Dict, lookup, insert}
use fadvisor.Prelude.Outcome.{Outcome, ok, err, panic, ◌>>=◌, deref}
use fadvisor.Float.{Float}
use fadvisor.Kube.{Quantity, Pod, Container}
use fadvisor.Cloud.{CloudPodSpec}
use fadvisor.Coster.{WorkloadRecommendedData}
use fadvisor.Comparator.{NamespacedName, NameMap, lookup_name, RawContainerTimeSeriesData}
use fadvisor.Comparator.Checkpoint.{ContainerCache}
use fadvisor.Comparator.Checkpoint.Load.{store_name}
use fadvisor.Comparator.Estimator.{
  StatsLibrary, Statistic, ConfigValue, estimation, merge_time_series_list,
}
use fadvisor.Comparator.Workloads.{SpecConverter, WorkloadSpec, WorkloadsSpec}

-- The four copies of a pod that the loop over its containers changes.
pub record RecommendedPods (Q : Type 0) : Type 0 where
  pub recommended : Pod Q
  pub percent : Pod Q
  pub max : Pod Q
  pub max_margin : Pod Q

module _ {Q : Type 0} where
  -- `if _, ok := limits[name]; ok { limits[name] = q }`
  unfoldable pub replace_limit : String → Q → Dict Q → Dict Q
  replace_limit name q lims = elim (lookup name lims) [
    | none ↦ lims
    | some old ↦ insert name q lims
  ]

module _ {F Q : Type 0} ⦃fl : Float F⦄ ⦃qu : Quantity Q⦄ where
  open fl use {mul, div, of_int, to_int}
  open qu use {milli_value, of_value, of_milli}

  abbrev ratio_of : Option Q → Option Q → F
  ratio_of (some req) (some lim) = div (of_int (milli_value lim)) (of_int (milli_value req))
  ratio_of (some req) none = of_int 1
  ratio_of none lim = of_int 1

  -- A limit divided by a request, 1.0 where one of them is missing.
  unfoldable pub req_lim_ratio : String → Container Q → F
  req_lim_ratio resource container = elim container.requests [
    | none ↦ of_int 1
    | some reqs ↦ elim container.limits [
      | none ↦ of_int 1
      | some lims ↦ ratio_of (lookup resource reqs) (lookup resource lims)
    ]
  ]

  -- The two ratios; both are read from the CPU.
  unfoldable pub cpu_req_lim_ratio : Container Q → F
  cpu_req_lim_ratio = req_lim_ratio "cpu"

  unfoldable pub mem_req_lim_ratio : Container Q → F
  mem_req_lim_ratio = req_lim_ratio "cpu"

  -- The body under `if cpu != nil && mem != nil`, for one container.
  unfoldable pub set_resources : F → F → F → F → Container Q → Container Q
  set_resources cpu mem cpu_ratio mem_ratio container = record container {
    requests = some (
        ("cpu", of_milli (to_int (mul cpu (of_int 1000))))
        ∷ ("memory", of_value (to_int mem))
        ∷ []);
    limits =
        map_option
          (λ lims.
            replace_limit "memory" (of_value (to_int (mul mem mem_ratio))) (
              replace_limit "cpu" (of_milli (to_int (mul (mul cpu cpu_ratio) (of_int 1000)))) lims))
          container.limits;
  }

  unfoldable pub recommend_container : Option F → Option F → Container Q → Container Q → Container Q
  recommend_container (some cpu) (some mem) original container =
      set_resources cpu mem (cpu_req_lim_ratio original) (mem_req_lim_ratio original) container
  recommend_container (some cpu) none original container = container
  recommend_container none mem original container = container

  -- The loop over the containers of a copy: those of that name are changed.
  unfoldable pub recommend_containers :
      Option F → Option F → Container Q → List (Container Q) → List (Container Q)
  recommend_containers cpu mem original [] = []
  recommend_containers cpu mem original (c ∷ cs) =
      (if original.name =s= c.name then recommend_container cpu mem original c else c)
      ∷ recommend_containers cpu mem original cs

  unfoldable pub recommend_pod : Option F → Option F → Container Q → Pod Q → Pod Q
  recommend_pod cpu mem original pod = record pod {
    containers = recommend_containers cpu mem original pod.containers;
  }

  unfoldable pub recommend_pods :
      Statistic F → Statistic F → Container Q → RecommendedPods Q → RecommendedPods Q
  recommend_pods cpu mem original pods = record {
    recommended = recommend_pod cpu.recommended mem.recommended original pods.recommended;
    percent = recommend_pod cpu.percentile mem.percentile original pods.percent;
    max = recommend_pod cpu.max mem.max original pods.max;
    max_margin = recommend_pod cpu.max_recommended mem.max_recommended original pods.max_margin;
  }

module _ {A B : Type 0} where
  -- `if err != nil { continue }`
  abbrev pub on_error : Outcome A → Outcome B → (A → Outcome B) → Outcome B
  on_error (ok a) skip f = f a
  on_error (err e) skip f = skip
  on_error panic skip f = panic

module _ {F : Type 0} where
  -- `workloadsContainerData[kind][nn]`, empty where there is none.
  unfoldable pub series_of :
      ContainerCache F → String → NamespacedName → Dict (RawContainerTimeSeriesData F)
  series_of cache kind nn = get_or (lookup_name nn (get_or (lookup kind cache) [])) []

module _ {Q : Type 0} where
  -- The specification of a recommended pod, with the replicas of the workload.
  unfoldable pub recommended_spec_of : SpecConverter Q → ℕ → Pod Q → CloudPodSpec Q
  recommended_spec_of cloud goods pod = record (cloud.pod2serverless_spec pod) {
    pod_ref = some pod;
    goods_num = goods;
  }

module _ {F Q : Type 0} ⦃fl : Float F⦄ ⦃qu : Quantity Q⦄ (stats : StatsLibrary F) where
  -- One round of the loop over the containers, from the cached series of the workload's containers.
  unfoldable pub container_round :
      Dict (ConfigValue F)
      → Dict (RawContainerTimeSeriesData F)
      → Container Q
      → RecommendedPods Q
      → Outcome (RecommendedPods Q)
  container_round config series container pods = elim (lookup container.name series) [
    | none ↦ ok pods
    | some raw ↦
        on_error (estimation stats (merge_time_series_list raw.cpu) config) (ok pods) (λ cpu.
          on_error (estimation stats (merge_time_series_list raw.mem) config) (ok pods)
            (λ mem. ok (recommend_pods cpu mem container pods)))
  ]

  unfoldable pub container_rounds :
      Dict (ConfigValue F)
      → Dict (RawContainerTimeSeriesData F)
      → List (Container Q)
      → RecommendedPods Q
      → Outcome (RecommendedPods Q)
  container_rounds config series [] pods = ok pods
  container_rounds config series (c ∷ cs) pods =
      container_round config series c pods >>= λ pods'. container_rounds config series cs pods'

  unfoldable pub workload_recommended_data :
      SpecConverter Q
      → Dict (ConfigValue F)
      → Dict (RawContainerTimeSeriesData F)
      → WorkloadSpec Q
      → Outcome (WorkloadRecommendedData Q)
  workload_recommended_data cloud config series w = do
    pod ← deref w.spec.pod_ref
    pods ←
        container_rounds config series pod.containers
          (record { recommended = pod; percent = pod; max = pod; max_margin = pod })
    let spec_of = recommended_spec_of cloud w.spec.goods_num
    ok (record {
      recommended_spec = spec_of pods.recommended;
      max_recommended_spec = some (spec_of pods.max);
      max_margin_recommended_spec = some (spec_of pods.max_margin);
      percent_recommended_spec = some (spec_of pods.percent);
    })

  unfoldable pub recommend_names :
      SpecConverter Q
      → Dict (ConfigValue F)
      → ContainerCache F
      → String
      → NameMap (WorkloadSpec Q)
      → Dict (NameMap (WorkloadRecommendedData Q))
      → Outcome (Dict (NameMap (WorkloadRecommendedData Q)))
  recommend_names cloud config cache kind [] results = ok results
  recommend_names cloud config cache kind ((nn, w) ∷ names) results =
      workload_recommended_data cloud config (series_of cache kind nn) w >>= λ wrd.
      recommend_names cloud config cache kind names (store_name kind nn wrd results)

  -- The loop over the kinds; the map of a kind is made first.
  unfoldable pub get_all_workload_recommended_data :
      SpecConverter Q
      → Dict (ConfigValue F)
      → ContainerCache F
      → WorkloadsSpec Q
      → Dict (NameMap (WorkloadRecommendedData Q))
      → Outcome (Dict (NameMap (WorkloadRecommendedData Q)))
  get_all_workload_recommended_data cloud config cache [] results = ok results
  get_all_workload_recommended_data cloud config cache ((kind, names) ∷ kinds) results =
      recommend_names cloud config cache kind names
        (insert kind (get_or (lookup kind results) []) results)
      >>= λ results'. get_all_workload_recommended_data cloud config cache kinds results'

module _ {Q : Type 0} ⦃qu : Quantity Q⦄ where
  open qu use {no_quantity, plus}

  -- The inner loop: the totals of CPU and memory.
  unfoldable pub add_workload_totals : NameMap (WorkloadRecommendedData Q) → Q × Q → Q × Q
  add_workload_totals [] totals = totals
  add_workload_totals ((nn, recs) ∷ rest) (cpu, mem) =
      add_workload_totals rest
        (plus cpu recs.recommended_spec.cpu, plus mem recs.recommended_spec.mem)

  unfoldable pub serverless_workloads_resource_total :
      (String → String) → Dict (NameMap (WorkloadRecommendedData Q)) → Q × Q → Q × Q
  serverless_workloads_resource_total to_lower [] totals = totals
  serverless_workloads_resource_total to_lower ((kind, recs) ∷ kinds) totals =
      if to_lower kind =s= "daemonset"
      then serverless_workloads_resource_total to_lower kinds totals
      else serverless_workloads_resource_total to_lower kinds (add_workload_totals recs totals)
