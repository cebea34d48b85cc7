-- ===== src/Qcloud/Platform.antt =====
-- `PlatformCost` of tke.go and eks.go, and `PlatformPrice` of qcloud.go, in
-- pkg/cloudproviders/qcloud: what the management of a cluster costs an hour.
pub mod Laws
use fadvisor.Prelude.{ℕ, Option, none, some, List, [], ◌∷◌, String, leb, ◌=s=◌, if◌then◌else◌}
use fadvisor.Float.{Float}
use fadvisor.Cloud.{Prices, PlatformParameter, serverful_kind, serverless_kind}

-- The numbers of nodes of a request count nodes, so they are not negative.
pub record PriceStageFeeUnit (F : Type 0) : Type 0 where
  pub max_nodes : ℕ
  pub price_hourly : F

module _ {F : Type 0} ⦃fl : Float F⦄ where
  open fl use {of_int, decimal}

  abbrev stage : ℕ → ℕ → PriceStageFeeUnit F
  stage nodes hundredths = record { max_nodes = nodes; price_hourly = decimal hundredths 2 }

  abbrev pub default_cluster_price_model : List (PriceStageFeeUnit F)
  default_cluster_price_model =
      stage 5 13
      ∷ stage 20 40
      ∷ stage 50 73
      ∷ stage 100 122
      ∷ stage 200 255
      ∷ stage 500 511
      ∷ stage 1000 930
      ∷ stage 3000 1560
      ∷ stage 5000 2804
      ∷ []

  -- The price of the last stage.
  unfoldable pub last_price : F → List (PriceStageFeeUnit F) → F
  last_price p [] = p
  last_price p (unit ∷ units) = last_price unit.price_hourly units

  -- The loop, and what is returned behind it.
  unfoldable pub stage_price : ℕ → F → List (PriceStageFeeUnit F) → F
  stage_price nodes otherwise [] = otherwise
  stage_price nodes otherwise (unit ∷ units) =
      let rest = stage_price nodes otherwise units in
      if leb nodes unit.max_nodes then unit.price_hourly else rest

  abbrev only_total : F → Prices F
  only_total p = record { total_price = p; discount_price = none }

  unfoldable pub tke_platform_cost : PlatformParameter → Prices F
  unfolding last_price stage_price
  tke_platform_cost cp = elim cp.nodes [
    | none ↦ only_total (decimal 13 2)
    | some n ↦ only_total (
        stage_price n (last_price (decimal 0 0) default_cluster_price_model)
          default_cluster_price_model)
  ]

  unfoldable pub eks_platform_cost : PlatformParameter → Prices F
  eks_platform_cost cp = record { total_price = of_int 0; discount_price = some (of_int 0) }

  unfoldable pub platform_price : PlatformParameter → Prices F
  platform_price cp =
      if cp.platform =s= serverful_kind
      then tke_platform_cost cp
      else if cp.platform =s= serverless_kind
      then eks_platform_cost cp
      else tke_platform_cost cp
