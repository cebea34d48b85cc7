-- ===== src/Coster.antt =====
-- pkg/cost-comparator/coster: the cost of a cluster over a span of time, from the specifications of
-- its nodes, pods and workloads. A NaN test, the parsing of a price and the pricer's errors are as in
-- the code; what the pricer does is the interface `Pricer`. The maps by kind that the code fills and
-- never reads are left out.
pub mod Sums
pub mod Recommender
use fadvisor.Prelude.{
  ℕ, ◌+◌, ◌*◌, Bool, true, false, Option, none, some, List, [], ◌∷◌, String, ◌=s=◌, if◌then◌else◌,
}
use fadvisor.Prelude.Dict.{Dict}
use fadvisor.Prelude.Outcome.{Outcome, ok, err, panic, ◌>>=◌}
use fadvisor.Float.{Float, nan_to_zero}
use fadvisor.Cloud.{
  BaseInstancePrice, Prices, PlatformParameter, CloudPodSpec, CloudNodeSpec, Pricer, serverful_kind,
  serverless_kind,
}

-- `spec.WorkloadRecommendedData`, less the statistics of its containers.
pub record WorkloadRecommendedData (Q : Type 0) : Type 0 where
  pub recommended_spec : CloudPodSpec Q
  pub percent_recommended_spec : Option (CloudPodSpec Q)
  pub max_recommended_spec : Option (CloudPodSpec Q)
  pub max_margin_recommended_spec : Option (CloudPodSpec Q)

-- `CosterContext`; the inner maps have the namespaced names as keys, and no pointer in them is nil.
pub record CosterContext (F Q : Type 0) : Type 0 where
  pub time_span_seconds : ℕ
  -- Handed on, and read by no coster.
  pub discount : Option F
  pub pods_spec : Dict (CloudPodSpec Q)
  pub nodes_spec : Dict (CloudNodeSpec Q)
  pub workloads_spec : Dict (Dict (CloudPodSpec Q))
  pub workloads_rec_spec : Dict (Dict (WorkloadRecommendedData Q))
  pub pricer : Pricer F Q

pub record Cost (F : Type 0) : Type 0 where
  pub total_cost : F
  pub serverful_cost : F
  pub serverless_cost : F
  pub serverful_platform_cost : F
  pub serverless_platform_cost : F

module _ {F : Type 0} ⦃fl : Float F⦄ where
  open fl use {add, mul, div, of_int, parse, parses}

  -- `float64(TimeSpanSeconds) / time.Hour.Seconds()`
  unfoldable pub hours : ℕ → F
  hours seconds = div (of_int seconds) (of_int 3600)

  -- The price in a pricer's answer; `none` where the loop goes on without it.
  unfoldable pub price_of : BaseInstancePrice → Option F
  unfolding nan_to_zero
  price_of c =
      if c.cost =s= ""
      then some (nan_to_zero (of_int 0))
      else if parses c.cost
      then some (nan_to_zero (parse c.cost))
      else none

  unfoldable pub asked : Outcome BaseInstancePrice → Outcome (Option F)
  asked (ok c) = ok (price_of c)
  asked (err e) = ok none
  asked panic = panic

  -- `total += price * timespanInHour`
  unfoldable pub add_cost : F → F → Option F → F
  add_cost h total none = total
  add_cost h total (some p) = add total (mul p h)

  unfoldable pub add_costs : Cost F → Cost F → Cost F
  add_costs c other = record {
    total_cost = add c.total_cost other.total_cost;
    serverful_cost = add c.serverful_cost other.serverful_cost;
    serverless_cost = add c.serverless_cost other.serverless_cost;
    serverless_platform_cost = add c.serverless_platform_cost other.serverless_platform_cost;
    serverful_platform_cost = add c.serverful_platform_cost other.serverful_platform_cost;
  }

module _ {F Q : Type 0} ⦃fl : Float F⦄ where
  open fl use {add, of_int}

  -- The loop over the nodes: the total, and the number of real nodes.
  unfoldable pub node_costs : Pricer F Q → F → Dict (CloudNodeSpec Q) → F → ℕ → Outcome (F × ℕ)
  node_costs pricer h [] total n = ok (total, n)
  node_costs pricer h ((name, spec) ∷ specs) total n =
      let skipped = node_costs pricer h specs total n in
      if spec.virtual_node
      then skipped
      else (asked (pricer.node_price spec) >>= λ p.
          node_costs pricer h specs (add_cost h total p) (n + 1))

  -- The loop over the pods.
  unfoldable pub pod_costs : Pricer F Q → F → Dict (CloudPodSpec Q) → F → Outcome F
  pod_costs pricer h [] total = ok total
  pod_costs pricer h ((name, spec) ∷ specs) total =
      let skipped = pod_costs pricer h specs total in
      if spec.serverless
      then (asked (pricer.serverless_pod_price spec) >>= λ p.
          pod_costs pricer h specs (add_cost h total p))
      else skipped

  -- `serverful.TotalCost`; a cluster has fewer than 2 ^ 31 nodes, so the count does not wrap.
  unfoldable pub serverful_total_cost : CosterContext F Q → Outcome (Cost F)
  serverful_total_cost ctx = do
    (nodes, n) ← node_costs ctx.pricer (hours ctx.time_span_seconds) ctx.nodes_spec (of_int 0) 0
    pods ← pod_costs ctx.pricer (hours ctx.time_span_seconds) ctx.pods_spec (of_int 0)
    let serverful =
        ctx.pricer.platform_price
          (record { nodes = some n; cluster_level = none; platform = serverful_kind })
    let serverless =
        ctx.pricer.platform_price
          (record { nodes = some n; cluster_level = none; platform = serverless_kind })
    ok (record {
      total_cost = add (add (add nodes pods) serverful.total_price) serverless.total_price;
      serverful_cost = nodes;
      serverless_cost = pods;
      serverful_platform_cost = serverful.total_price;
      serverless_platform_cost = serverless.total_price;
    })

  -- The inner loop of `serverless.TotalCost`.
  unfoldable pub workload_costs : Pricer F Q → F → Dict (CloudPodSpec Q) → F → Outcome F
  workload_costs pricer h [] total = ok total
  workload_costs pricer h ((nn, spec) ∷ specs) total =
      asked (pricer.serverless_pod_price spec) >>= λ p.
      workload_costs pricer h specs (add_cost h total p)

  -- Its outer loop; `to_lower` is `strings.ToLower`.
  unfoldable pub kind_costs :
      (String → String) → Pricer F Q → F → Dict (Dict (CloudPodSpec Q)) → F → Outcome F
  kind_costs to_lower pricer h [] total = ok total
  kind_costs to_lower pricer h ((kind, specs) ∷ kinds) total =
      if to_lower kind =s= "daemonset"
      then kind_costs to_lower pricer h kinds total
      else (workload_costs pricer h specs total >>= λ t. kind_costs to_lower pricer h kinds t)

  -- `serverless.TotalCost`
  unfoldable pub serverless_total_cost : (String → String) → CosterContext F Q → Outcome (Cost F)
  serverless_total_cost to_lower ctx = do
    total ←
        kind_costs to_lower ctx.pricer (hours ctx.time_span_seconds) ctx.workloads_spec (of_int 0)
    let platform =
        ctx.pricer.platform_price
          (record { nodes = none; cluster_level = none; platform = serverless_kind })
    ok (record {
      total_cost = add total platform.total_price;
      serverful_cost = of_int 0;
      serverless_cost = total;
      serverful_platform_cost = of_int 0;
      serverless_platform_cost = platform.total_price;
    })
