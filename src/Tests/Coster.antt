-- ===== src/Tests/Coster.antt =====
-- A cluster priced for two hours, as it is, on a serverless platform and as recommended.
use fadvisor.Float.{nan_to_zero}
use fadvisor.Prelude.{ℕ, ◌≡◌, true, false, none, some, [], ◌∷◌}
use fadvisor.Prelude.Outcome.{ok}
use fadvisor.Cloud.{BaseInstancePrice, no_price, Pricer, CloudNodeSpec}
use fadvisor.Coster.{CosterContext, WorkloadRecommendedData, serverless_total_cost}
use fadvisor.Coster.Sums.{serverless_total_cost_lem}
use fadvisor.Coster.Recommender.{RecommendedCost, recommender_total_cost}
use fadvisor.Coster.Recommender.Laws.{recommender_total_cost_lem}
use fadvisor.Tests.Numbers.{strokes_float, nat_quantity}
use fadvisor.Tests.Client.{web_spec}

abbrev fixed_price : BaseInstancePrice
fixed_price = record no_price { cost = "III0" }

abbrev fixed_pricer : Pricer ℕ ℕ
fixed_pricer = record {
  node_price = λ spec. ok fixed_price;
  serverless_pod_price = λ spec. ok fixed_price;
  platform_price = λ cp. record { total_price = 1; discount_price = none };
}

abbrev node_spec : CloudNodeSpec ℕ
node_spec = record {
  node_ref = none;
  cpu = 2;
  mem = 4;
  gpu = 0;
  gpu_type = "";
  instance_type = "S5";
  charge_type = "Default";
  zone = "";
  region = "";
  virtual_node = false;
}

abbrev virtual_spec : CloudNodeSpec ℕ
virtual_spec = record node_spec { virtual_node = true }

abbrev web_recs : WorkloadRecommendedData ℕ
web_recs = record {
  recommended_spec = web_spec;
  percent_recommended_spec = none;
  max_recommended_spec = some web_spec;
  max_margin_recommended_spec = some web_spec;
}

abbrev two_hours : CosterContext ℕ ℕ
two_hours = record {
  time_span_seconds = 7200;
  discount = none;
  pods_spec = ("web", web_spec) ∷ [];
  nodes_spec = ("a", node_spec) ∷ ("b", virtual_spec) ∷ [];
  workloads_spec = ("Deployment", ("web", web_spec) ∷ []) ∷ [];
  workloads_rec_spec = ("Deployment", ("web", web_recs) ∷ []) ∷ [];
  pricer = fixed_pricer;
}

serverless_total_cost_example :
    serverless_total_cost (λ kind. kind) two_hours
    ≡ ok (record {
      total_cost = 7;
      serverful_cost = 0;
      serverless_cost = 6;
      serverful_platform_cost = 0;
      serverless_platform_cost = 1;
    })
unfolding strokes_float nan_to_zero
serverless_total_cost_example = serverless_total_cost_lem (λ kind. kind) two_hours (λ spec e. cc)

abbrev twelve : RecommendedCost ℕ
twelve = record { total_cost = 13; platform_cost = 1; workload_cost = 12 }

recommender_total_cost_example :
    recommender_total_cost (λ kind. kind) two_hours
    ≡ ok (record {
      rec_cost = twelve;
      percent_cost = record { total_cost = 1; platform_cost = 1; workload_cost = 0 };
      max_rec_cost = twelve;
      max_margin_cost = twelve;
    })
unfolding strokes_float nan_to_zero
recommender_total_cost_example = recommender_total_cost_lem (λ kind. kind) two_hours (λ spec e. cc)
