-- ===== src/Qcloud/Breakdown/Split.antt =====
-- `set_unit_prices` against the formula for the prices of a core and of a gigabyte.
use fadvisor.Prelude.{◌≡◌, arith, if◌then◌else◌}
use fadvisor.Float.{Float, nan_to_zero}
use fadvisor.Cloud.{BaseInstancePrice, CustomPricing}
use fadvisor.Qcloud.Breakdown.{cpu_to_ram_ratio, ram_multiple, unit_prices, set_unit_prices}

-- What the split leaves alone.
abbrev pub IsSameElsewhere : BaseInstancePrice → BaseInstancePrice → Type 0
IsSameElsewhere c d =
    (c.cost ≡ d.cost)
    × (c.discounted_cost ≡ d.discounted_cost)
    × (c.cpu ≡ d.cpu)
    × (c.ram ≡ d.ram)
    × (c.usage_type ≡ d.usage_type)
    × (c.uses_default_price ≡ d.uses_default_price)
    × (c.provider_id ≡ d.provider_id)

module _ {F : Type 0} ⦃fl : Float F⦄ where
  open fl use {add, mul, div, is_zero, show_f}

  -- The unit prices that a price per hour comes to, over so many cores and gigabytes: a gigabyte has
  -- the price divided by the gigabytes and the cores, a core counted as `ratio` gigabytes, and a core
  -- `ratio` times that. Without a configured price for memory the cores bear the price alone.
  abbrev pub IsSplit : CustomPricing F → F → F → F → BaseInstancePrice → Type 0
  IsSplit cfg cores ram_gb price c =
      let ratio =
        nan_to_zero
          (div (nan_to_zero cfg.cpu_hourly_price) (nan_to_zero cfg.ram_gb_hourly_price)) in
      let gigabytes = nan_to_zero (add (mul cores ratio) (nan_to_zero ram_gb)) in
      let per_gigabyte = nan_to_zero (div price gigabytes) in
      let free = is_zero (nan_to_zero cfg.ram_gb_hourly_price) in
      (c.ram_gb_hourly_cost ≡ (if free then "" else show_f per_gigabyte))
      × (c.cpu_hourly_cost
          ≡ show_f (
              if free
              then (if is_zero cores then price else div price cores)
              else mul per_gigabyte ratio))

  pub set_unit_prices_lem :
      (cfg : CustomPricing F) (cores ram_gb price : F) (c : BaseInstancePrice)
      → c.ram_gb_hourly_cost ≡ ""
      → IsSplit cfg cores ram_gb price (set_unit_prices cfg cores ram_gb price c)
  unfolding set_unit_prices unit_prices ram_multiple cpu_to_ram_ratio
  set_unit_prices_lem cfg cores ram_gb price c e = ground (arith, e)

  pub set_unit_prices-IsSameElsewhere :
      (cfg : CustomPricing F) (cores ram_gb price : F) (c : BaseInstancePrice)
      → IsSameElsewhere (set_unit_prices cfg cores ram_gb price c) c
  unfolding set_unit_prices
  set_unit_prices-IsSameElsewhere cfg cores ram_gb price c = ground arith
