-- ===== src/Qcloud/Platform/Laws.antt =====
-- The price of a platform, and the number of nodes.
use fadvisor.Prelude.{ℕ, ◌≤◌, ◌≡◌, ◌≢◌, refl, some, arith, leb, eq_iff, if◌then◌else◌}
use fadvisor.Float.{Float}
use fadvisor.Cloud.{Prices, PlatformParameter, serverless_kind}
use fadvisor.Qcloud.Platform.{tke_platform_cost, platform_price}

-- The price in hundredths for so many nodes, written as tests.
abbrev pub hundredths : ℕ → ℕ
hundredths n =
    if leb n 5
    then 13
    else if leb n 20
    then 40
    else if leb n 50
    then 73
    else if leb n 100
    then 122
    else if leb n 200
    then 255
    else if leb n 500
    then 511
    else if leb n 1000
    then 930
    else if leb n 3000
    then 1560
    else 2804

hundredths_mono : (n m : ℕ) → n ≤ m → hundredths n ≤ hundredths m
hundredths_mono n m h = ground arith

module _ {F : Type 0} ⦃fl : Float F⦄ where
  open fl use {of_int, decimal}

  tke_platform_cost_lem :
      (cp : PlatformParameter) (n : ℕ)
      → cp.nodes ≡ some n
      → (tke_platform_cost cp).total_price ≡ decimal (hundredths n) 2
  unfolding tke_platform_cost
  tke_platform_cost_lem cp n e = ground (arith, e)

  -- Of two requests for a platform that is not serverless, with numbers of nodes of which the first
  -- is not the larger, both prices are a number of hundredths, and the first is not the larger.
  pub platform_price_mono :
      (cp : PlatformParameter) (n m : ℕ)
      → n ≤ m
      → cp.platform ≢ serverless_kind
      → let small : Prices F = platform_price (record cp { nodes = some n }) in
        let large : Prices F = platform_price (record cp { nodes = some m }) in
        (p q : ℕ) × (small.total_price ≡ decimal p 2) × (large.total_price ≡ decimal q 2) × (p ≤ q)
  unfolding platform_price
  platform_price_mono cp n m h kind =
      let other = eq_iff cp.platform serverless_kind in
      (
        hundredths n,
        hundredths m,
        ground (arith, other, kind, tke_platform_cost_lem (record cp { nodes = some n }) n refl),
        ground (arith, other, kind, tke_platform_cost_lem (record cp { nodes = some m }) m refl),
        hundredths_mono n m h,
      )
