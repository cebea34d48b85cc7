-- ===== src/Qcloud/Serverless/Laws.antt =====
-- What a serverless pod costs.
use fadvisor.Qcloud.Breakdown.Split.{IsSplit, set_unit_prices_lem, set_unit_prices-IsSameElsewhere}
use fadvisor.Prelude.{ℕ, ◌≡◌, ◌≢◌, refl, true, Option, some, ◌⊎◌, inr, arith, String, eq_iff}
use fadvisor.Prelude.Outcome.{ok}
use fadvisor.Float.{Float, nan_to_zero}
use fadvisor.Kube.{Quantity}
use fadvisor.Cloud.{BaseInstancePrice, CustomPricing, CloudPodSpec}
use fadvisor.Qcloud.State.{TencentCloud}
use fadvisor.Qcloud.NodePrice.{per_gb}
use fadvisor.Qcloud.Breakdown.{break_down, total_price, set_unit_prices}
use fadvisor.Qcloud.Serverless.{
  GetPriceRequest, EksPrice, spec_cores, cloud_pod_spec2eks_price_request, eks_costs, pod_price_of,
  serverless_pod_price,
}

-- What the code relies on in the texts that `%f` gives: they are not empty, and `ParseFloat` reads
-- them, though only so many digits of the number are in them.
pub record Readable {F : Type 0} (fl : Float F) : Type 0 where
  pub show_f_ne : (x : F) → fl.show_f x ≢ ""
  pub parses-show_f : (x : F) → fl.parses (fl.show_f x) ≡ true

module _ {F : Type 0} ⦃fl : Float F⦄ where
  open fl use {show_f, parse}

  total_price-show_f :
      Readable fl
      → (c : BaseInstancePrice) (x : F) → c.cost ≡ show_f x
      → total_price c ≡ ok (nan_to_zero (parse (show_f x)))
  unfolding total_price
  total_price-show_f laws c x e =
      ground (arith, e, eq_iff (show_f x) "", laws.show_f_ne x, laws.parses-show_f x)

module _ {F Q : Type 0} ⦃fl : Float F⦄ ⦃qu : Quantity Q⦄ where
  open fl use {div, of_int, show_f, parse}
  open qu use {value}

  -- If prices are configured and the service answers with both costs, in cents, the pod has a
  -- price: its cost and discounted cost are those, in units, its size is that of the specification,
  -- and its prices of a core and of a gigabyte are the split of the cost, as its text says it, over the cores and gigabytes of the
  -- specification. It rests on `ParseFloat` reading what `%f` writes.
  pub serverless_pod_price_lem :
      Readable fl
      → (eks_pod_price : GetPriceRequest F → String ⊎ Option EksPrice) (tc : TencentCloud F Q)
        (cfg : CustomPricing F) (spec : CloudPodSpec Q) (cents total_cents : ℕ)
      → tc.custom_pricing ≡ some cfg
      → eks_pod_price (cloud_pod_spec2eks_price_request F spec)
        ≡ inr (some (record { cost = some cents; total_cost = some total_cents }))
      → let cost = div (of_int total_cents) (of_int 100) in
        let ram_gb = per_gb (of_int (value spec.mem)) in
        let price = nan_to_zero (parse (show_f cost)) in
        (c : BaseInstancePrice) × (serverless_pod_price eks_pod_price tc spec ≡ ok c)
        × IsSplit cfg (spec_cores F spec) ram_gb price c
        × (c.cost ≡ show_f cost)
        × (c.discounted_cost ≡ show_f (div (of_int cents) (of_int 100)))
        × (c.cpu ≡ show_f (spec_cores F spec))
        × (c.ram ≡ show_f ram_gb)
  unfolding serverless_pod_price eks_costs pod_price_of break_down
  serverless_pod_price_lem laws eks_pod_price tc cfg spec cents total_cents known answered =
      let cost = div (of_int total_cents) (of_int 100) in
      let c = pod_price_of spec cost (div (of_int cents) (of_int 100)) in
      let cores = spec_cores F spec in
      let ram_gb = per_gb (of_int (value spec.mem)) in
      let price = nan_to_zero (parse (show_f cost)) in
      let same = set_unit_prices-IsSameElsewhere cfg cores ram_gb price c in
      (
        set_unit_prices cfg cores ram_gb price c,
        ground (arith, known, answered, total_price-show_f laws c cost refl),
        set_unit_prices_lem cfg cores ram_gb price c refl,
        same.0,
        same.1,
        same.2,
        same.3,
      )
