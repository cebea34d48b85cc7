-- ===== src/Coster/Recommender.antt =====
-- `recommender.TotalCost` and `workloadCosting` of pkg/cost-comparator/coster/recommended_coster.go.
pub mod Laws
use fadvisor.Prelude.{Option, none, some, List, [], ◌∷◌, String, ◌=s=◌, if◌then◌else◌}
use fadvisor.Prelude.Dict.{Dict}
use fadvisor.Prelude.Outcome.{Outcome, ok, err, panic, ◌>>=◌}
use fadvisor.Float.{Float}
use fadvisor.Cloud.{CloudPodSpec, Pricer, serverless_kind}
use fadvisor.Coster.{WorkloadRecommendedData, CosterContext, asked, hours}

pub record RecommendedCost (F : Type 0) : Type 0 where
  pub total_cost : F
  pub platform_cost : F
  pub workload_cost : F

-- The four sums of the loop.
pub record RecTotals (F : Type 0) : Type 0 where
  pub recommended : F
  pub max_recommended : F
  pub max_margin : F
  pub percent : F

-- The four results, in the order in which they are returned.
pub record Recommendations (F : Type 0) : Type 0 where
  pub rec_cost : RecommendedCost F
  pub percent_cost : RecommendedCost F
  pub max_rec_cost : RecommendedCost F
  pub max_margin_cost : RecommendedCost F

module _ {F : Type 0} ⦃fl : Float F⦄ where
  open fl use {add, mul, of_int}

  unfoldable pub add_recommended : RecommendedCost F → RecommendedCost F → RecommendedCost F
  add_recommended c other = record {
    total_cost = add c.total_cost other.total_cost;
    platform_cost = add c.platform_cost other.platform_cost;
    workload_cost = add c.workload_cost other.workload_cost;
  }

  -- The end of `workloadCosting`.
  unfoldable pub cost_of : F → Option F → F
  cost_of h none = of_int 0
  cost_of h (some p) = mul p h

  unfoldable pub with_platform : F → F → RecommendedCost F
  with_platform platform workloads = record {
    total_cost = add workloads platform;
    workload_cost = workloads;
    platform_cost = platform;
  }

module _ {F Q : Type 0} ⦃fl : Float F⦄ where
  open fl use {add, mul, of_int}

  unfoldable pub workload_costing : Pricer F Q → F → CloudPodSpec Q → Outcome F
  workload_costing pricer h spec =
      asked (pricer.serverless_pod_price spec) >>= λ p. ok (cost_of h p)

  -- `total += workloadCosting(...) * timespanInHour`
  unfoldable pub add_workload : Pricer F Q → F → F → CloudPodSpec Q → Outcome F
  add_workload pricer h total spec =
      workload_costing pricer h spec >>= λ c. ok (add total (mul c h))

  -- `if spec != nil`
  unfoldable pub add_optional : Pricer F Q → F → F → Option (CloudPodSpec Q) → Outcome F
  add_optional pricer h total none = ok total
  add_optional pricer h total (some spec) = add_workload pricer h total spec

  -- The first loops; nothing is done with their sum.
  unfoldable pub current_costs : Pricer F Q → F → Dict (CloudPodSpec Q) → F → Outcome F
  current_costs pricer h [] total = ok total
  current_costs pricer h ((nn, spec) ∷ specs) total =
      add_workload pricer h total spec >>= λ t. current_costs pricer h specs t

  unfoldable pub current_kinds : Pricer F Q → F → Dict (Dict (CloudPodSpec Q)) → F → Outcome F
  current_kinds pricer h [] total = ok total
  current_kinds pricer h ((kind, specs) ∷ kinds) total =
      current_costs pricer h specs total >>= λ t. current_kinds pricer h kinds t

  -- One round of the inner loop over the recommendations.
  unfoldable pub rec_round :
      Pricer F Q → F → WorkloadRecommendedData Q → RecTotals F → Outcome (RecTotals F)
  rec_round pricer h rec_spec t = do
    rec ← add_workload pricer h t.recommended rec_spec.recommended_spec
    max ← add_optional pricer h t.max_recommended rec_spec.max_recommended_spec
    margin ← add_optional pricer h t.max_margin rec_spec.max_margin_recommended_spec
    percent ← add_optional pricer h t.percent rec_spec.percent_recommended_spec
    ok (record { recommended = rec; max_recommended = max; max_margin = margin; percent = percent })

  unfoldable pub rec_costs :
      Pricer F Q → F → Dict (WorkloadRecommendedData Q) → RecTotals F → Outcome (RecTotals F)
  rec_costs pricer h [] t = ok t
  rec_costs pricer h ((nn, rec_spec) ∷ rest) t =
      rec_round pricer h rec_spec t >>= λ t'. rec_costs pricer h rest t'

  unfoldable pub rec_kinds :
      (String → String)
      → Pricer F Q
      → F
      → Dict (Dict (WorkloadRecommendedData Q))
      → RecTotals F
      → Outcome (RecTotals F)
  rec_kinds to_lower pricer h [] t = ok t
  rec_kinds to_lower pricer h ((kind, specs) ∷ kinds) t =
      if to_lower kind =s= "daemonset"
      then rec_kinds to_lower pricer h kinds t
      else (rec_costs pricer h specs t >>= λ t'. rec_kinds to_lower pricer h kinds t')

  unfoldable pub recommender_total_cost :
      (String → String) → CosterContext F Q → Outcome (Recommendations F)
  recommender_total_cost to_lower ctx = do
    unused ← current_kinds ctx.pricer (hours ctx.time_span_seconds) ctx.workloads_spec (of_int 0)
    t ← rec_kinds to_lower ctx.pricer (hours ctx.time_span_seconds) ctx.workloads_rec_spec (record {
      recommended = of_int 0;
      max_recommended = of_int 0;
      max_margin = of_int 0;
      percent = of_int 0;
    })
    let platform =
        ctx.pricer.platform_price
          (record { nodes = none; cluster_level = none; platform = serverless_kind })
    ok (record {
      rec_cost = with_platform platform.total_price t.recommended;
      percent_cost = with_platform platform.total_price t.percent;
      max_rec_cost = with_platform platform.total_price t.max_recommended;
      max_margin_cost = with_platform platform.total_price t.max_margin;
    })
