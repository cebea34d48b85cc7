-- ===== src/Cloud/Config/Laws.antt =====
-- What a config map can change.
use fadvisor.Prelude.{
  ◌≡◌, ◌↔◌, Bool, true, false, ◌||◌, none, [], ◌∷◌, arith, String, ◌=s=◌, eq_iff, if◌then◌else◌,
  ◌<>◌, ◌⊎◌, inl, inr, refl, ◌∙◌, Option, some, Option-cases, Bool-cases,
}
use fadvisor.Prelude.Outcome.{ok}
use fadvisor.Prelude.Dict.{Dict}
use fadvisor.Cloud.{CustomPricing}
use fadvisor.Cloud.Config.{set_parsed, set_custom_pricing, update_config_from_config_map}

abbrev pub is_text_name : String → Bool
is_text_name n = n =s= "Region" || (n =s= "Provider" || n =s= "Description")

abbrev pub all_text_names : (String → String) → Dict String → Bool
all_text_names title [] = true
all_text_names title ((k, v) ∷ conf) =
    if is_text_name (title k) then all_text_names title conf else false

module _ {F : Type 0} (parse_float : String → String ⊎ F) where
  -- An object and its error, where the hourly prices are those of `obj`.
  abbrev KeepsPrices : CustomPricing F → CustomPricing F → Type 0
  KeepsPrices obj new =
      (new.cpu_hourly_price ≡ obj.cpu_hourly_price)
      × (new.ram_gb_hourly_price ≡ obj.ram_gb_hourly_price)

  set_custom_pricing_lem :
      (obj : CustomPricing F) (name value : String)
      → (new : CustomPricing F) × (e : Option String) × (set_custom_pricing parse_float obj name
            value
          ≡ ok (new, e))
        × KeepsPrices obj new
        × ((e ≡ none) ↔ (is_text_name name ≡ true))
  unfolding set_custom_pricing set_parsed
  set_custom_pricing_lem obj name value = elim (Bool-cases (name =s= "Region")) [
    | inl a ↦ (
      record obj { region = value },
      none,
      rw (set_custom_pricing, a) refl,
      (refl, refl),
      ground (arith, a, eq_iff name "Region"),
    )
    | inr a ↦ elim (Bool-cases (name =s= "Provider")) [
      | inl b ↦ (
        record obj { provider = value },
        none,
        rw (set_custom_pricing, a, b) refl,
        (refl, refl),
        ground (arith, a, b, eq_iff name "Provider"),
      )
      | inr b ↦ elim (Bool-cases (name =s= "Description")) [
        | inl c ↦ (
          record obj { description = value },
          none,
          rw (set_custom_pricing, a, b, c) refl,
          (refl, refl),
          ground (arith, a, b, c, eq_iff name "Description"),
        )
        | inr c ↦ elim (Bool-cases (name =s= "CpuHourlyPrice")) [
          | inl d ↦ (
            obj,
            some "provided value type didn't match custom pricing field type",
            rw (set_custom_pricing, a, b, c, d) refl,
            (refl, refl),
            ground (arith, a, b, c, d, eq_iff name "CpuHourlyPrice"),
          )
          | inr d ↦ elim (Bool-cases (name =s= "RamGBHourlyPrice")) [
            | inl e ↦ (
              obj,
              some "provided value type didn't match custom pricing field type",
              rw (set_custom_pricing, a, b, c, d, e) refl,
              (refl, refl),
              ground (arith, a, b, c, d, e, eq_iff name "RamGBHourlyPrice"),
            )
            | inr e ↦ (
              obj,
              some ("no such field: " <> name <> " in obj"),
              rw (set_custom_pricing, a, b, c, d, e) refl,
              (refl, refl),
              ground (arith, a, b, c),
            )
          ]
        ]
      ]
    ]
  ]

  -- Whatever a config map holds, an update ends without a panic and leaves both hourly prices as
  -- they were, and it returns no error exactly if every key names one of the three text fields: a
  -- key for a price is refused like an unknown one, whatever its value reads as.
  pub update_config_from_config_map_lem :
      (title : String → String) (conf : Dict String) (obj : CustomPricing F)
      → (new : CustomPricing F) × (e : Option String) × (update_config_from_config_map parse_float
            title conf obj
          ≡ ok (new, e))
        × (new.cpu_hourly_price ≡ obj.cpu_hourly_price)
        × (new.ram_gb_hourly_price ≡ obj.ram_gb_hourly_price)
        × ((e ≡ none) ↔ (all_text_names title conf ≡ true))
  unfolding update_config_from_config_map
  update_config_from_config_map_lem title [] obj = (obj, none, refl, refl, refl, ground arith)
  update_config_from_config_map_lem title ((k, v) ∷ conf) obj =
      let (new, e, made, keeps, ends) = set_custom_pricing_lem obj (title k) v in
      elim (Option-cases e) [
        | inl n ↦
            let (new', e', made', cpu', ram', ends') =
              update_config_from_config_map_lem title conf new in
            (
              new',
              e',
              ground (arith, made, n, made'),
              cpu' ∙ keeps.0,
              ram' ∙ keeps.1,
              ground (arith, n, ends, ends'),
            )
        | inr (x, s) ↦ (new, e, ground (arith, made, s), keeps.0, keeps.1, ground (arith, s, ends))
      ]
