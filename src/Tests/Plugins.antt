-- ===== src/Tests/Plugins.antt =====
-- A provider that is registered.
use fadvisor.Prelude.{ℕ, ◌≡◌, refl, Bool, true, some, [], String, ◌=s=◌, if◌then◌else◌}
use fadvisor.Prelude.Dict.{Dict, lookup-nil}
use fadvisor.Prelude.Outcome.{ok, panic}
use fadvisor.Cloud.Plugins.{Factory, register_cloud_provider, init_result, init_cloud_provider}
use fadvisor.Cloud.Plugins.Laws.{register_cloud_provider_lem}

abbrev numbered : Factory ℕ ℕ
numbered file input = ok (some input)

abbrev in_quotes : String → String
in_quotes name = name

abbrev opens : String → Bool
opens file = true

register_cloud_provider_example :
    (new : Dict (Factory ℕ ℕ)) × (register_cloud_provider "qcloud" numbered [] ≡ ok new)
    × ((other : String)
        → init_cloud_provider {In = ℕ} {C = ℕ} in_quotes opens new "cloud.conf" other 7 ≡ (
            if "qcloud" =s= other
            then init_result {C = ℕ} in_quotes other (ok (some 7))
            else init_cloud_provider {In = ℕ} {C = ℕ} in_quotes opens [] "cloud.conf" other 7))
    × ((again : Factory ℕ ℕ) → register_cloud_provider "qcloud" again new ≡ panic)
register_cloud_provider_example =
    register_cloud_provider_lem in_quotes opens [] "qcloud" numbered "cloud.conf" 7
      (lookup-nil {V = Factory ℕ ℕ} "qcloud") refl
