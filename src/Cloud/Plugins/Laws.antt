-- ===== src/Cloud/Plugins/Laws.antt =====
-- What the registry holds, and how a provider is started.
use fadvisor.Prelude.{◌≡◌, Bool, true, none, some, arith, String, ◌=s=◌, eq_iff, if◌then◌else◌}
use fadvisor.Prelude.Dict.{Dict, lookup, insert, lookup-insert}
use fadvisor.Prelude.Outcome.{ok, panic}
use fadvisor.Cloud.Plugins.{
  Factory, register_cloud_provider, get_cloud_provider, init_result, init_cloud_provider,
}

module _ {In C : Type 0} where
  -- A provider whose name is new can be registered. Afterwards a start under that name, with a
  -- configuration file that opens or without one, comes to what the factory makes of it; a start
  -- under any other name comes to what it did before; and the name cannot be registered again.
  pub register_cloud_provider_lem :
      (quoted : String → String) (open_file : String → Bool) (providers : Dict (Factory In C))
      (name : String) (cloud : Factory In C) (file : String) (input : In)
      → lookup name providers ≡ none
      → open_file file ≡ true
      → let given = if file =s= "" then none else some file in
        (new : Dict (Factory In C)) × (register_cloud_provider name cloud providers ≡ ok new)
        × ((other : String)
            → init_cloud_provider quoted open_file new file other input ≡ (
                if name =s= other
                then init_result quoted other (cloud given input)
                else init_cloud_provider quoted open_file providers file other input))
        × ((again : Factory In C) → register_cloud_provider name again new ≡ panic)
  unfolding register_cloud_provider init_cloud_provider get_cloud_provider
  register_cloud_provider_lem quoted open_file providers name cloud file input new opens = (
    insert name cloud providers,
    ground (arith, new),
    λ other. ground (arith, opens, lookup-insert other name cloud providers),
    λ again. ground (arith, lookup-insert name name cloud providers, eq_iff name name),
  )
