-- ===== src/Cloud/Plugins.antt =====
-- The registry of providers in pkg/cloud/plugins.go, and `DetectProvider` and `DetectRegion` of
-- cloud.go. `klog.Fatalf` ends the process, which is a panic here.
pub mod Laws
use mathlib.Core.Option.{get_or}
use fadvisor.Prelude.{Bool, Option, none, some, String, ◌<>◌, ◌=s=◌, if◌then◌else◌}
use fadvisor.Prelude.Dict.{Dict, lookup, insert}
use fadvisor.Prelude.Outcome.{Outcome, ok, err, panic}
use fadvisor.Kube.{Node, get_region}
use fadvisor.Qcloud.Regions.{short_name2region}

-- `C` is `cloud.Cloud`, and `In` what a factory is called with: the configuration file, if one is
-- open, the prices and the cache. A factory gives a provider, nil, or an error.
abbrev pub Factory : Type 0 → Type 0 → Type 0
Factory In C = Option String → In → Outcome (Option C)

module _ {C : Type 0} where
  -- The end of `InitCloudProvider`; `quoted` is `%q`.
  unfoldable pub init_result : (String → String) → String → Outcome (Option C) → Outcome C
  init_result quoted name (ok (some c)) = ok c
  init_result quoted name (ok none) = err ("unknown price provider " <> quoted name)
  init_result quoted name (err e) =
      err ("could not init price provider " <> quoted name <> ": " <> e)
  init_result quoted name panic = panic

module _ {In C : Type 0} where
  unfoldable pub register_cloud_provider :
      String → Factory In C → Dict (Factory In C) → Outcome (Dict (Factory In C))
  register_cloud_provider name cloud providers = elim (lookup name providers) [
    | some f ↦ panic
    | none ↦ ok (insert name cloud providers)
  ]

  unfoldable pub get_cloud_provider :
      Dict (Factory In C) → String → Option String → In → Outcome (Option C)
  get_cloud_provider providers name file input = elim (lookup name providers) [
    | none ↦ ok none
    | some f ↦ f file input
  ]

  -- `open_file` is whether `os.Open` succeeds; if it does not, the process ends.
  unfoldable pub init_cloud_provider :
      (String → String) → (String → Bool) → Dict (Factory In C) → String → String → In → Outcome C
  init_cloud_provider quoted open_file providers file name input =
      if file =s= ""
      then init_result quoted name (get_cloud_provider providers name none input)
      else if open_file file
      then init_result quoted name (get_cloud_provider providers name (some file) input)
      else panic

abbrev pub tencent_cloud : String
tencent_cloud = "qcloud"

abbrev pub default_cloud : String
default_cloud = "default"

module _ {Q : Type 0} (strings_contains : String → String → Bool) where
  -- `strings_contains` is `strings.Contains`.
  unfoldable pub detect_provider : Node Q → String
  detect_provider node =
      if strings_contains node.provider_id "qcloud" then tencent_cloud else default_cloud

  unfoldable pub detect_region : Node Q → String
  unfolding detect_provider
  detect_region node =
      let short = (get_region node.labels).0 in
      if detect_provider node =s= tencent_cloud
      then elim (lookup short short_name2region) [ some r ↦ r.region | none ↦ "" ]
      else short
