-- ===== src/Coster/Sums.antt =====
-- The serverful and the serverless coster of pkg/cost-comparator/coster, and sums over the lists of
-- nodes, pods and workloads.
use fadvisor.Prelude.{
  ◌≡◌, ◌≢◌, refl, Bool-cases, inl, inr, Option, none, List, [], ◌∷◌, ◌++◌, arith, String, ◌=s=◌,
  if◌then◌else◌,
}
use fadvisor.Prelude.Dict.{Dict}
use fadvisor.Prelude.Outcome.{Outcome, ok, err, panic}
use fadvisor.Float.{Float, nan_to_zero}
use fadvisor.Cloud.{BaseInstancePrice, CloudPodSpec, CloudNodeSpec, Pricer, serverless_kind}
use fadvisor.Coster.{
  CosterContext, price_of, asked, add_cost, pod_costs, hours, workload_costs, kind_costs,
  serverless_total_cost,
}

module _ {F : Type 0} ⦃fl : Float F⦄ where
  open fl use {add, mul, div, of_int, parse, parses}

  -- `0 + x + y + ...`, added from the left as it stands: a sum of floating point numbers depends on it.
  abbrev pub sum_from : F → List F → F
  sum_from total [] = total
  sum_from total (x ∷ xs) = sum_from (add total x) xs

  pub sum_from-append :
      (total : F) (xs ys : List F) → sum_from total (xs ++ ys) ≡ sum_from (sum_from total xs) ys
  sum_from-append total [] ys = refl
  sum_from-append total (x ∷ xs) ys = sum_from-append (add total x) xs ys

  -- The price per hour in an answer, a NaN counted as 0: 0 where the cost is an empty text, and none
  -- where there is no answer or the cost is no number.
  abbrev pub listed_price : Outcome BaseInstancePrice → List F
  listed_price (err e) = []
  listed_price panic = []
  listed_price (ok c) =
      if c.cost =s= ""
      then nan_to_zero (of_int 0) ∷ []
      else if parses c.cost
      then nan_to_zero (parse c.cost) ∷ []
      else []

  -- What it comes to over some hours.
  abbrev pub charges : F → List F → List F
  charges h [] = []
  charges h (p ∷ ps) = mul p h ∷ charges h ps

  pub asked_lem :
      (h total : F) (c : Outcome BaseInstancePrice)
      → c ≢ panic
      → (p : Option F) × (asked c ≡ ok p)
        × (add_cost h total p ≡ sum_from total (charges h (listed_price c)))
  unfolding asked price_of add_cost
  asked_lem h total (ok c) calm = (price_of c, refl, ground arith)
  asked_lem h total (err e) calm = (none, refl, refl)
  asked_lem h total panic calm = absurd (calm refl)

module _ {Q : Type 0} where
  abbrev pub real_nodes : Dict (CloudNodeSpec Q) → List (CloudNodeSpec Q)
  real_nodes [] = []
  real_nodes ((name, spec) ∷ specs) =
      let rest = real_nodes specs in if spec.virtual_node then rest else spec ∷ rest

  abbrev pub serverless_pods : Dict (CloudPodSpec Q) → List (CloudPodSpec Q)
  serverless_pods [] = []
  serverless_pods ((name, spec) ∷ specs) =
      let rest = serverless_pods specs in if spec.serverless then spec ∷ rest else rest

module _ {F Q : Type 0} ⦃fl : Float F⦄ where
  open fl use {add, mul, div, of_int}

  -- The pricer always answers, with a price or an error.
  abbrev pub NodeAnswers : Pricer F Q → Type 0
  NodeAnswers pricer = (spec : CloudNodeSpec Q) → pricer.node_price spec ≢ panic

  abbrev pub PodAnswers : Pricer F Q → Type 0
  PodAnswers pricer = (spec : CloudPodSpec Q) → pricer.serverless_pod_price spec ≢ panic

  abbrev pub node_charges : Pricer F Q → F → List (CloudNodeSpec Q) → List F
  node_charges pricer h [] = []
  node_charges pricer h (spec ∷ specs) =
      charges h (listed_price (pricer.node_price spec)) ++ node_charges pricer h specs

  abbrev pub pod_charges : Pricer F Q → F → List (CloudPodSpec Q) → List F
  pod_charges pricer h [] = []
  pod_charges pricer h (spec ∷ specs) =
      charges h (listed_price (pricer.serverless_pod_price spec)) ++ pod_charges pricer h specs

  module _ (pricer : Pricer F Q) (h : F) where
    pub pod_costs_lem :
        PodAnswers pricer
        → (specs : Dict (CloudPodSpec Q)) (total : F)
        → pod_costs pricer h specs total
          ≡ ok (sum_from total (pod_charges pricer h (serverless_pods specs)))
    unfolding pod_costs
    pod_costs_lem answers [] total = refl
    pod_costs_lem answers ((name, spec) ∷ specs) total = elim (Bool-cases spec.serverless) [
      | inl is ↦
          let (p, e, same) = asked_lem h total (pricer.serverless_pod_price spec) (answers spec) in
          let own = charges h (listed_price (pricer.serverless_pod_price spec)) in
          ground (
            arith,
            is,
            e,
            same,
            pod_costs_lem answers specs (add_cost h total p),
            sum_from-append total own (pod_charges pricer h (serverless_pods specs)),
          )
      | inr plain ↦ ground (arith, plain, pod_costs_lem answers specs total)
    ]

  -- The workloads, less those of kind `DaemonSet`.
  abbrev pub workload_charges : Pricer F Q → F → Dict (CloudPodSpec Q) → List F
  workload_charges pricer h [] = []
  workload_charges pricer h ((nn, spec) ∷ specs) =
      charges h (listed_price (pricer.serverless_pod_price spec)) ++ workload_charges pricer h specs

  abbrev pub kind_charges :
      (String → String) → Pricer F Q → F → Dict (Dict (CloudPodSpec Q)) → List F
  kind_charges to_lower pricer h [] = []
  kind_charges to_lower pricer h ((kind, specs) ∷ kinds) =
      let rest = kind_charges to_lower pricer h kinds in
      if to_lower kind =s= "daemonset" then rest else workload_charges pricer h specs ++ rest

  module _ (pricer : Pricer F Q) (h : F) (answers : PodAnswers pricer) where
    workload_costs_lem :
        (specs : Dict (CloudPodSpec Q)) (total : F)
        → workload_costs pricer h specs total
          ≡ ok (sum_from total (workload_charges pricer h specs))
    unfolding workload_costs
    workload_costs_lem [] total = refl
    workload_costs_lem ((nn, spec) ∷ specs) total =
        let (p, e, same) = asked_lem h total (pricer.serverless_pod_price spec) (answers spec) in
        let own = charges h (listed_price (pricer.serverless_pod_price spec)) in
        ground (
          arith,
          e,
          same,
          workload_costs_lem specs (add_cost h total p),
          sum_from-append total own (workload_charges pricer h specs),
        )

    kind_costs_lem :
        (to_lower : String → String) (kinds : Dict (Dict (CloudPodSpec Q))) (total : F)
        → kind_costs to_lower pricer h kinds total
          ≡ ok (sum_from total (kind_charges to_lower pricer h kinds))
    unfolding kind_costs
    kind_costs_lem to_lower [] total = refl
    kind_costs_lem to_lower ((kind, specs) ∷ kinds) total =
        elim (Bool-cases (to_lower kind =s= "daemonset")) [
          | inl daemon ↦ ground (arith, daemon, kind_costs_lem to_lower kinds total)
          | inr other ↦
              let own = workload_charges pricer h specs in
              ground (
                arith,
                other,
                workload_costs_lem specs total,
                kind_costs_lem to_lower kinds (sum_from total own),
                sum_from-append total own (kind_charges to_lower pricer h kinds),
              )
        ]

  -- If the pricer always answers, the serverless coster's cost is the sum of the prices of all
  -- workloads but daemon sets, in the order of the maps, each price times the hours of the time span
  -- once. A price that fails, or is no number, adds nothing. The total adds the price of the
  -- serverless platform, asked for without a number of nodes.
  pub serverless_total_cost_lem :
      (to_lower : String → String) (ctx : CosterContext F Q)
      → PodAnswers ctx.pricer
      → let h = div (of_int ctx.time_span_seconds) (of_int 3600) in
        let workloads =
          sum_from (of_int 0) (kind_charges to_lower ctx.pricer h ctx.workloads_spec) in
        let platform : F =
          (ctx.pricer.platform_price (record {
            nodes = none;
            cluster_level = none;
            platform = serverless_kind;
          })).total_price in
        serverless_total_cost to_lower ctx
        ≡ ok (record {
          total_cost = add workloads platform;
          serverful_cost = of_int 0;
          serverless_cost = workloads;
          serverful_platform_cost = of_int 0;
          serverless_platform_cost = platform;
        })
  unfolding serverless_total_cost hours
  serverless_total_cost_lem to_lower ctx answers =
      let h = div (of_int ctx.time_span_seconds) (of_int 3600) in
      rw (kind_costs_lem ctx.pricer h answers to_lower ctx.workloads_spec (of_int 0)) refl
