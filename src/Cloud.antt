-- ===== src/Cloud.antt =====
-- The types of pkg/cloud (provider.go, pricer.go, cloud.go) and of pkg/spec.
pub mod Config
pub mod Plugins
use fadvisor.Prelude.{ℕ, Bool, false, Option, none, String}
use fadvisor.Prelude.Outcome.{Outcome}
use fadvisor.Kube.{Node, Pod}

-- `cloud.PriceItem`
pub record PriceItem (F : Type 0) : Type 0 where
  pub unit_price : Option F
  pub charge_unit : Option String
  pub original_price : Option F
  pub discount_price : Option F
  pub discount : Option F
  pub unit_price_discount : Option F
  pub unit_price_second_step : Option F
  pub unit_price_discount_second_step : Option F
  pub unit_price_third_step : Option F
  pub unit_price_discount_third_step : Option F
  pub original_price_three_year : Option F
  pub discount_price_three_year : Option F
  pub discount_three_year : Option F
  pub original_price_five_year : Option F
  pub discount_price_five_year : Option F
  pub discount_five_year : Option F
  pub original_price_one_year : Option F
  pub discount_price_one_year : Option F
  pub discount_one_year : Option F

-- `cloud.Price`
pub record Price (F : Type 0) : Type 0 where
  pub instance_type : String
  pub charge_type : String
  pub memory : String
  pub vcpu : String
  pub cvm_price : Option (PriceItem F)

-- `BaseInstancePrice`, which is all that a `cloud.Node` and a `cloud.Pod` hold.
pub record BaseInstancePrice : Type 0 where
  pub discounted_cost : String
  pub cost : String
  pub cpu : String
  pub cpu_hourly_cost : String
  pub ram : String
  pub ram_bytes : String
  pub ram_gb_hourly_cost : String
  pub uses_default_price : Bool
  pub default_cpu_price : String
  pub default_ram_price : String
  pub usage_type : String
  pub instance_type : String
  pub region : String
  pub provider_id : String

-- The zero value.
abbrev pub no_price : BaseInstancePrice
no_price = record {
  discounted_cost = "";
  cost = "";
  cpu = "";
  cpu_hourly_cost = "";
  ram = "";
  ram_bytes = "";
  ram_gb_hourly_cost = "";
  uses_default_price = false;
  default_cpu_price = "";
  default_ram_price = "";
  usage_type = "";
  instance_type = "";
  region = "";
  provider_id = "";
}

pub record Prices (F : Type 0) : Type 0 where
  pub total_price : F
  pub discount_price : Option F

abbrev pub serverless_kind : String
serverless_kind = "serverless"

abbrev pub serverful_kind : String
serverful_kind = "serverful"

pub record PlatformParameter : Type 0 where
  pub nodes : Option ℕ
  pub cluster_level : Option String
  pub platform : String

pub record CustomPricing (F : Type 0) : Type 0 where
  pub region : String
  pub provider : String
  pub description : String
  pub cpu_hourly_price : F
  pub ram_gb_hourly_price : F

-- `spec.CloudPodSpec`, less the workload object that goes with it. The quality of service class is
-- the name that the core API gives it.
pub record CloudPodSpec (Q : Type 0) : Type 0 where
  pub pod_ref : Option (Pod Q)
  pub cpu : Q
  pub mem : Q
  pub cpu_limit : Q
  pub mem_limit : Q
  pub zone : String
  pub machine_arch : String
  pub gpu : Q
  pub pod_charge_type : String
  pub time_span : ℕ
  pub goods_num : ℕ
  pub serverless : Bool
  pub qos_class : String

-- `spec.CloudNodeSpec`
pub record CloudNodeSpec (Q : Type 0) : Type 0 where
  pub node_ref : Option (Node Q)
  pub cpu : Q
  pub mem : Q
  pub gpu : Q
  pub gpu_type : String
  pub instance_type : String
  pub charge_type : String
  pub zone : String
  pub region : String
  pub virtual_node : Bool

-- The methods of `cloud.Pricer` that are called.
pub record Pricer (F Q : Type 0) : Type 0 where
  pub node_price : CloudNodeSpec Q → Outcome BaseInstancePrice
  pub serverless_pod_price : CloudPodSpec Q → Outcome BaseInstancePrice
  pub platform_price : PlatformParameter → Prices F
