-- ===== src/Qcloud/Serverless.antt =====
-- `CloudPodSpec2EKSPriceRequest` and `ServerlessPodPrice` of pkg/cloudproviders/qcloud/qcloud.go.
pub mod Laws
use fadvisor.Prelude.{ℕ, Option, none, some, ◌⊎◌, inl, inr, String, ◌=s=◌, if◌then◌else◌}
use fadvisor.Prelude.Outcome.{Outcome, ok, err, panic, ◌>>=◌, deref}
use fadvisor.Float.{Float}
use fadvisor.Kube.{Quantity}
use fadvisor.Cloud.{BaseInstancePrice, no_price, CustomPricing, CloudPodSpec}
use fadvisor.Qcloud.State.{TencentCloud}
use fadvisor.Qcloud.NodePrice.{per_gb}
use fadvisor.Qcloud.Breakdown.{break_down}

-- `tke.GetPriceRequest`; the fields that the code always sets are no pointers here.
pub record GetPriceRequest (F : Type 0) : Type 0 where
  pub cpu : F
  pub mem : F
  pub time_span : ℕ
  pub goods_num : ℕ
  pub machine_type : Option String
  pub pod_type : Option String
  pub zone : Option String

-- The response to it, in cents.
pub record EksPrice : Type 0 where
  pub cost : Option ℕ
  pub total_cost : Option ℕ

abbrev unless_empty : String → Option String
unless_empty s = if s =s= "" then none else some s

module _ (F : Type 0) {Q : Type 0} ⦃fl : Float F⦄ ⦃qu : Quantity Q⦄ where
  open fl use {div, of_int}
  open qu use {value, milli_value}

  abbrev pub spec_cores : CloudPodSpec Q → F
  spec_cores spec = div (of_int (milli_value spec.cpu)) (of_int 1000)

  unfoldable pub cloud_pod_spec2eks_price_request : CloudPodSpec Q → GetPriceRequest F
  cloud_pod_spec2eks_price_request spec = record {
    cpu = spec_cores spec;
    mem = per_gb (of_int (value spec.mem));
    time_span = spec.time_span;
    goods_num = spec.goods_num;
    machine_type = unless_empty spec.machine_arch;
    pod_type = unless_empty spec.pod_charge_type;
    zone = unless_empty spec.zone;
  }

module _ {F : Type 0} ⦃fl : Float F⦄ where
  open fl use {div, of_int}

  -- The cost and the discounted cost: 0 without a response or without a cost in it.
  unfoldable pub eks_costs : Option EksPrice → Outcome (F × F)
  eks_costs none = ok (of_int 0, of_int 0)
  eks_costs (some r) = elim r.cost [
    | none ↦ ok (of_int 0, of_int 0)
    | some c ↦
        deref r.total_cost >>= λ t. ok (div (of_int t) (of_int 100), div (of_int c) (of_int 100))
  ]

module _ {F Q : Type 0} ⦃fl : Float F⦄ ⦃qu : Quantity Q⦄ where
  open fl use {of_int, show_f}
  open qu use {value}

  -- The literal that the price starts from.
  unfoldable pub pod_price_of : CloudPodSpec Q → F → F → BaseInstancePrice
  pod_price_of spec cost discount_cost =
      let ram = of_int (value spec.mem) in
      record no_price {
        discounted_cost = show_f discount_cost;
        cost = show_f cost;
        cpu = show_f (spec_cores F spec);
        ram = show_f (per_gb ram);
        ram_bytes = show_f ram;
      }

  -- The price is broken down as a node's is; a missing configuration is a nil pointer.
  -- `eks_pod_price` is the query of the service.
  unfoldable pub serverless_pod_price :
      (GetPriceRequest F → String ⊎ Option EksPrice)
      → TencentCloud F Q
      → CloudPodSpec Q
      → Outcome BaseInstancePrice
  serverless_pod_price eks_pod_price tc spec =
      elim (eks_pod_price (cloud_pod_spec2eks_price_request F spec)) [
        | inl e ↦ err e
        | inr response ↦ eks_costs response >>= λ (cost, discount_cost).
            deref tc.custom_pricing >>= λ cfg.
            break_down cfg (spec_cores F spec) (per_gb (of_int (value spec.mem)))
              (pod_price_of spec cost discount_cost)
      ]
