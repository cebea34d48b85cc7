-- ===== src/Qcloud/NodePrice.antt =====
-- The price of a node from the configured prices and from its instance, in
-- pkg/cloudproviders/qcloud/qcloud.go.
use mathlib.Core.Option.{get_or}
use fadvisor.Prelude.{ℕ, ◌^◌, ◌*◌, true, Option, none, some, String, ◌=s=◌, if◌then◌else◌}
use fadvisor.Prelude.Outcome.{Outcome, ok, err, ◌>>=◌, deref}
use fadvisor.Float.{Float}
use fadvisor.Kube.{Quantity, Node, get_instance_type}
use fadvisor.Cloud.{BaseInstancePrice, no_price, CustomPricing}
use fadvisor.Qcloud.ProviderId.{parse_id}
use fadvisor.Qcloud.State.{
  ItemPrice, Instance, QCloudInstancePrice, TencentCloud, get_node_region, get_instance_price,
}

-- `consts.GB`
abbrev pub gb : ℕ
gb = 2 ^ 30

abbrev pub prepaid : String
prepaid = "PREPAID"

abbrev pub postpaid_by_hour : String
postpaid_by_hour = "POSTPAID_BY_HOUR"

abbrev pub spotpaid : String
spotpaid = "SPOTPAID"

abbrev pub per_gb : {F : Type 0} ⦃fl : Float F⦄ → F → F
per_gb ⦃fl⦄ ram = fl.div ram (fl.of_int gb)

module _ {F Q : Type 0} ⦃fl : Float F⦄ ⦃qu : Quantity Q⦄ where
  open fl use {add, mul, div, of_int, is_nan, is_zero, show_v, show_f, parse, parses}
  open qu use {value, show}

  -- `getDefaultNodePrice`
  unfoldable pub get_default_node_price : CustomPricing F → Node Q → BaseInstancePrice
  get_default_node_price cfg node =
      let cpu = of_int (value node.cpu) in
      let mem = of_int (value node.memory) in
      record no_price {
        cost = show_v (
            add (mul cfg.cpu_hourly_price cpu) (div (mul cfg.ram_gb_hourly_price mem) (of_int gb)));
        cpu = show_v cpu;
        cpu_hourly_cost = show_v cfg.cpu_hourly_price;
        ram = show_v (per_gb mem);
        ram_bytes = show_v mem;
        ram_gb_hourly_cost = show_v cfg.ram_gb_hourly_price;
        default_cpu_price = show_v cfg.cpu_hourly_price;
        default_ram_price = show_v cfg.ram_gb_hourly_price;
        usage_type = "Default";
        uses_default_price = true;
        instance_type = (get_instance_type node.labels).0;
        provider_id = node.provider_id;
        region = get_node_region node;
      }

  -- The literal that the three branches for a charge type return.
  unfoldable pub instance_node_price :
      CustomPricing F → Node Q → Instance → String → F → BaseInstancePrice
  instance_node_price cfg node ins usage cost =
      let mem : F = elim ins.memory [
        | some m ↦ mul (of_int m) (of_int gb)
        | none ↦ of_int (value node.memory)
      ] in
      record no_price {
        cost = show_v cost;
        cpu = show_v (of_int (get_or ins.cpu (value node.cpu)));
        ram = show_v (per_gb mem);
        ram_bytes = show_v mem;
        default_cpu_price = show_v cfg.cpu_hourly_price;
        default_ram_price = show_v cfg.ram_gb_hourly_price;
        usage_type = usage;
        instance_type = get_or ins.instance_type (get_instance_type node.labels).0;
        region = get_node_region node;
        provider_id = node.provider_id;
      }

  -- The prices per hour of the kinds of instances: a month's price is spread over 30 * 24 hours.
  unfoldable pub charged_node_price :
      CustomPricing F → Node Q → Instance → ItemPrice F → Outcome BaseInstancePrice
  charged_node_price cfg node ins price =
      let usage = get_or ins.instance_charge_type "Default" in
      if usage =s= prepaid
      then (deref price.original_price >>= λ p.
          ok (instance_node_price cfg node ins prepaid (div p (of_int (30 * 24)))))
      else if usage =s= postpaid_by_hour
      then (deref price.unit_price >>= λ p.
          ok (instance_node_price cfg node ins postpaid_by_hour p))
      else if usage =s= spotpaid
      then (deref price.unit_price >>= λ p. ok (instance_node_price cfg node ins spotpaid p))
      else ok (get_default_node_price cfg node)

  -- A cached price with an instance; the price itself is read through a pointer.
  unfoldable pub cached_node_price :
      CustomPricing F → Node Q → Option (QCloudInstancePrice F) → Outcome BaseInstancePrice
  cached_node_price cfg node none = ok (get_default_node_price cfg node)
  cached_node_price cfg node (some ins_price) = elim ins_price.cvm_instance [
    | none ↦ ok (get_default_node_price cfg node)
    | some ins ↦ deref ins_price.price >>= λ p. elim p.instance_price [
      | none ↦ ok (get_default_node_price cfg node)
      | some price ↦ charged_node_price cfg node ins price
    ]
  ]

  -- `getCloudInstancePrice`
  unfoldable pub get_cloud_instance_price : TencentCloud F Q → Node Q → Outcome BaseInstancePrice
  get_cloud_instance_price tc node = elim tc.custom_pricing [
    | none ↦ err "custompricing config is null"
    | some cfg ↦ cached_node_price cfg node (get_instance_price tc (parse_id node.provider_id))
  ]
