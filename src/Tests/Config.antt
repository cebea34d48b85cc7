-- ===== src/Tests/Config.antt =====
-- A config map that names a price, and a provider id.
use Prim.Native.String.{◌++◌}
use fadvisor.Prelude.{Option, ◌⊎◌, inr, ℕ, ◌≡◌, ◌↔◌, true, none, [], ◌∷◌, arith, String}
use fadvisor.Prelude.Outcome.{ok}
use fadvisor.Prelude.Dict.{Dict}
use fadvisor.Cloud.{CustomPricing}
use fadvisor.Cloud.Config.{update_config_from_config_map}
use fadvisor.Cloud.Config.Laws.{all_text_names, update_config_from_config_map_lem}
use fadvisor.Qcloud.ProviderId.{parse_id, key_id}
use fadvisor.Qcloud.ProviderId.Laws.{parse_id_lem}

abbrev pub pricing : CustomPricing ℕ
pricing = record {
  region = "";
  provider = "";
  description = "";
  cpu_hourly_price = 3;
  ram_gb_hourly_price = 1;
}

abbrev same : String → String
same k = k

abbrev price_conf : Dict String
price_conf = ("Region", "ap-guangzhou") ∷ ("CpuHourlyPrice", "5") ∷ []

-- Every text reads as a number.
abbrev any_number : String → String ⊎ ℕ
any_number s = inr 5

update_config_from_config_map_example :
    (new : CustomPricing ℕ) × (e : Option String) × (update_config_from_config_map any_number same
        price_conf pricing
      ≡ ok (new, e))
    × (new.cpu_hourly_price ≡ 3)
    × (new.ram_gb_hourly_price ≡ 1)
    × ((e ≡ none) ↔ (all_text_names same price_conf ≡ true))
update_config_from_config_map_example =
    update_config_from_config_map_lem any_number same price_conf pricing

parse_id_example :
    let id = "qcloud:///" ++ ("800005" ++ ("/" ++ ("ins-2jv4wpmr" ++ ""))) in
    (parse_id id ≡ "ins-2jv4wpmr") × (key_id id ≡ "ins-2jv4wpmr")
parse_id_example =
    parse_id_lem "800005" "ins-2jv4wpmr" "" (ground arith) (λ e. cc) (ground arith) (λ e. cc) tt
