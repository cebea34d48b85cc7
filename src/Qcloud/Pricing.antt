-- ===== src/Qcloud/Pricing.antt =====
-- `GetNodesPricing` of pkg/cloudproviders/qcloud/qcloud.go: the cached prices as they are.
use fadvisor.Prelude.{ℕ, some, [], ◌∷◌, String}
use fadvisor.Prelude.Dict.{Dict, insert}
use fadvisor.Prelude.Outcome.{Outcome, ok, ◌>>=◌, deref}
use fadvisor.Cloud.{Price, PriceItem}
use fadvisor.Qcloud.State.{ItemPrice, QCloudInstancePrice, TencentCloud}

module _ {F : Type 0} where
  unfoldable pub price_item : ItemPrice F → PriceItem F
  price_item p = record {
    unit_price = p.unit_price;
    charge_unit = p.charge_unit;
    original_price = p.original_price;
    discount_price = p.discount_price;
    discount = p.discount;
    unit_price_discount = p.unit_price_discount;
    unit_price_second_step = p.unit_price_second_step;
    unit_price_discount_second_step = p.unit_price_discount_second_step;
    unit_price_third_step = p.unit_price_third_step;
    unit_price_discount_third_step = p.unit_price_discount_third_step;
    original_price_three_year = p.original_price_three_year;
    discount_price_three_year = p.discount_price_three_year;
    discount_three_year = p.discount_three_year;
    original_price_five_year = p.original_price_five_year;
    discount_price_five_year = p.discount_price_five_year;
    discount_five_year = p.discount_five_year;
    original_price_one_year = p.original_price_one_year;
    discount_price_one_year = p.discount_price_one_year;
    discount_one_year = p.discount_one_year;
  }

module _ {F : Type 0} (show_int : ℕ → String) where
  -- One round of the loop; each field is read through its pointer.
  unfoldable pub instance_pricing : QCloudInstancePrice F → Outcome (Price F)
  instance_pricing ins_price = do
    price ← deref ins_price.price
    ins ← deref ins_price.cvm_instance
    type ← deref ins.instance_type
    charge ← deref ins.instance_charge_type
    cpu ← deref ins.cpu
    memory ← deref ins.memory
    item ← deref price.instance_price
    ok (record {
      instance_type = type;
      charge_type = charge;
      memory = show_int memory;
      vcpu = show_int cpu;
      cvm_price = some (price_item item);
    })

  unfoldable pub instances_pricing :
      Dict (QCloudInstancePrice F) → Dict (Price F) → Outcome (Dict (Price F))
  instances_pricing [] results = ok results
  instances_pricing ((id, ins_price) ∷ rest) results =
      instance_pricing ins_price >>= λ p. instances_pricing rest (insert id p results)

  -- `GetNodesPricing`
  unfoldable pub get_nodes_pricing : {Q : Type 0} → TencentCloud F Q → Outcome (Dict (Price F))
  get_nodes_pricing tc = instances_pricing tc.instances []
