-- ===== src/DataSource.antt =====
-- The proxies of pkg/datasource/proxy.go, which ask the registered sources of metrics one by one.
pub mod Laws
use fadvisor.Prelude.{Option, none, some, List, [], ◌∷◌, ◌++◌, String}
use fadvisor.Prelude.Dict.{Dict, lookup, insert, erase}
use fadvisor.Prelude.Outcome.{Outcome, ok, err, panic}

-- The map of providers; `none` is a nil map.
abbrev pub Proxy : Type 0 → Type 0
Proxy P = Option (Dict P)

-- The texts with which a proxy fails, from the errors of its sources.
pub record Texts : Type 0 where
  pub real_time : List String → String
  pub history : List String → String

module _ {P : Type 0} where
  abbrev pub providers_of : Proxy P → Dict P
  providers_of none = []
  providers_of (some m) = m

  -- An assignment to a nil map panics.
  unfoldable pub register_real_time_provider : String → P → Proxy P → Outcome (Proxy P)
  register_real_time_provider name provider none = panic
  register_real_time_provider name provider (some m) = ok (some (insert name provider m))

  unfoldable pub register_history_provider : String → P → Proxy P → Proxy P
  register_history_provider name provider none = some (insert name provider [])
  register_history_provider name provider (some m) = some (insert name provider m)

  -- `DeleteRealTimeProvider` and `DeleteHistoryProvider`; on a nil map nothing happens.
  unfoldable pub delete_provider : String → Proxy P → Proxy P
  delete_provider name none = none
  delete_provider name (some m) = some (erase name m)

  -- The first loop of `getSortedProviders`.
  unfoldable pub names : Dict P → List String
  names [] = []
  names ((name, provider) ∷ m) = name ∷ names m

  -- The second; a name that is missing would give a nil provider.
  unfoldable pub providers : List String → Dict P → List (Option P)
  providers [] m = []
  providers (name ∷ ns) m = lookup name m ∷ providers ns m

  unfoldable pub get_sorted_providers : (List String → List String) → Proxy P → List (Option P)
  get_sorted_providers sort proxy = let m = providers_of proxy in providers (sort (names m)) m

module _ {P R : Type 0} (ask : P → Outcome R) where
  -- A call of a nil provider panics.
  abbrev pub ask_provider : Option P → Outcome R
  ask_provider none = panic
  ask_provider (some provider) = ask provider

  -- The loop over the providers, with the errors so far.
  unfoldable pub query_loop : (List String → String) → List (Option P) → List String → Outcome R
  query_loop text [] errs = err (text errs)
  query_loop text (provider ∷ ps) errs = elim (ask_provider provider) [
    | ok res ↦ ok res
    | err e ↦ query_loop text ps (errs ++ (e ∷ []))
    | panic ↦ panic
  ]

module _ {P R : Type 0} (sort : List String → List String) (texts : Texts) where
  unfoldable pub query_latest_time_series : (P → Outcome R) → Proxy P → Outcome R
  query_latest_time_series ask proxy =
      query_loop ask texts.real_time (get_sorted_providers sort proxy) []

  unfoldable pub query_time_series : (P → Outcome R) → Proxy P → Outcome R
  query_time_series ask proxy = query_loop ask texts.history (get_sorted_providers sort proxy) []
