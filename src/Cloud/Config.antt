-- ===== src/Cloud/Config.antt =====
-- `PriceConfig` of pkg/cloud/cloud.go: the custom prices and their update from a config map.
-- `title` is `strings.Title`, and `parse_float` is `strconv.ParseFloat` with its error as a text.
pub mod Laws
use fadvisor.Prelude.{
  Bool, Option, none, some, List, [], ◌∷◌, String, ◌<>◌, ◌=s=◌, if◌then◌else◌, ◌⊎◌, inl, inr, true,
  false,
}
use fadvisor.Prelude.Outcome.{Outcome, ok, panic, ◌>>=◌}
use fadvisor.Prelude.Dict.{Dict}
use fadvisor.Cloud.{CustomPricing}

-- A Go value of one of the two types that the fields of a `CustomPricing` have.
pub data Value (F : Type 0) : Type 0 where
  text : String → Value F
  number : F → Value F

-- A field: whether its type is `string`, whether its kind is a floating point one, and `Set`, which
-- panics at a value of another type.
pub record Field (F : Type 0) : Type 0 where
  pub is_string : Bool
  pub is_float : Bool
  pub set : Value F → CustomPricing F → Outcome (CustomPricing F)

module _ {F : Type 0} where
  abbrev text_field : (String → CustomPricing F → CustomPricing F) → Field F
  text_field assign = record {
    is_string = true;
    is_float = false;
    set = λ v c. elim v [ text s ↦ ok (assign s c) | number x ↦ panic ];
  }

  abbrev float_field : (F → CustomPricing F → CustomPricing F) → Field F
  float_field assign = record {
    is_string = false;
    is_float = true;
    set = λ v c. elim v [ text s ↦ panic | number x ↦ ok (assign x c) ];
  }

  -- `FieldByName`; all five fields are exported, so `CanSet` holds of each.
  abbrev pub field_by_name : String → Option (Field F)
  field_by_name name =
      if name =s= "Region"
      then some (text_field (λ v c. record c { region = v }))
      else if name =s= "Provider"
      then some (text_field (λ v c. record c { provider = v }))
      else if name =s= "Description"
      then some (text_field (λ v c. record c { description = v }))
      else if name =s= "CpuHourlyPrice"
      then some (float_field (λ x c. record c { cpu_hourly_price = x }))
      else if name =s= "RamGBHourlyPrice"
      then some (float_field (λ x c. record c { ram_gb_hourly_price = x }))
      else none

module _ {F : Type 0} (parse_float : String → String ⊎ F) where
  -- The branch for a floating point field, and the assignment.
  unfoldable pub set_parsed :
      Field F → String → CustomPricing F → Outcome (CustomPricing F × Option String)
  set_parsed field value obj =
      if field.is_float
      then elim (parse_float value) [
        | inl e ↦ ok (obj, some e)
        | inr t ↦ field.set (number t) obj >>= λ new. ok (new, none)
      ]
      else (field.set (text value) obj >>= λ new. ok (new, none))

  -- The object as the call leaves it, and its error. The type of the field is compared with that of
  -- the value, which is `string`.
  unfoldable pub set_custom_pricing :
      CustomPricing F → String → String → Outcome (CustomPricing F × Option String)
  set_custom_pricing obj name value = elim (field_by_name name) [
    | none ↦ ok (obj, some ("no such field: " <> name <> " in obj"))
    | some field ↦
        if field.is_string
        then set_parsed field value obj
        else ok (obj, some "provided value type didn't match custom pricing field type")
  ]

  -- The loop goes over the map until the first error.
  unfoldable pub update_config_from_config_map :
      (String → String) → Dict String → CustomPricing F → Outcome (CustomPricing F × Option String)
  update_config_from_config_map title [] obj = ok (obj, none)
  update_config_from_config_map title ((k, v) ∷ conf) obj =
      set_custom_pricing obj (title k) v >>= λ (new, e). elim e [
        | none ↦ update_config_from_config_map title conf new
        | some e' ↦ ok (new, some e')
      ]
