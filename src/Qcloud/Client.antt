-- ===== src/Qcloud/Client.antt =====
-- `CVMClient` of pkg/cloudsdk/qcloud/cvm/cvm.go: calls of the service with retries, in batches.
pub mod Retry
pub mod Batches
use mathlib.Core.Option.{get_or}
use fadvisor.Prelude.{
  ℕ, zero, suc, ◌+◌, ◌-◌, ◌*◌, ◌^◌, Bool, true, false, Option, none, some, ◌⊎◌, inl, inr, List, [],
  ◌∷◌, ◌++◌, String, length, take, drop, ltb, if◌then◌else◌,
}
use fadvisor.Prelude.Dict.{Dict}
use fadvisor.Prelude.Outcome.{Outcome, ok, err, panic, ◌>>=◌, deref}
use fadvisor.Qcloud.State.{Instance, ItemPrice, QCloudInstancePrice, QuotaItem}

-- What `ExponentialRetryCall` does: its result, how often it calls, and how long it sleeps each time,
-- in seconds.
pub record Retried (R : Type 0) : Type 0 where
  pub result : String ⊎ R
  pub calls : ℕ
  pub sleeps : List ℕ

-- `int_range` is `rand.IntnRange`, and `attempt k` is what the call does the time `k`, from 0 on.
module _ {R : Type 0} (int_range : ℕ → ℕ → ℕ) (retry_failed : ℕ → String → String) (retry_cnt : ℕ)
    (attempt : ℕ → String ⊎ R) where
  -- The loop from round `i` on, with `left` rounds to go, after an error.
  unfoldable pub retry_from : ℕ → ℕ → String → Retried R
  retry_from zero i e = record { result = inl (retry_failed retry_cnt e); calls = i; sleeps = [] }
  retry_from (suc left) i e =
      let pause = int_range (2 * 2 ^ i) (2 * 2 ^ (i + 1) + 1) in
      elim (attempt i) [
        | inr r ↦ record { result = inr r; calls = i + 1; sleeps = pause ∷ [] }
        | inl e' ↦
            let rest = retry_from left (i + 1) e' in record rest { sleeps = pause ∷ rest.sleeps }
      ]

  unfoldable pub exponential_retry_call : Retried R
  exponential_retry_call = elim (attempt 0) [
    | inr r ↦ record { result = inr r; calls = 1; sleeps = [] }
    | inl e ↦ retry_from retry_cnt 1 e
  ]

-- The loop of `GetCVMInstances` over the slices `instanceIds[s:e]`, on fuel; `describe` is the query
-- with its retries, whose answer holds a list of instances.
module _ (describe : List String → String ⊎ List Instance) (limit : ℕ) where
  unfoldable pub batches : ℕ → List String → ℕ → List Instance → Option (String ⊎ List Instance)
  batches zero ids s cvms = if ltb s (length ids) then none else some (inr cvms)
  batches (suc fuel) ids s cvms =
      let e = if ltb (length ids) (s + limit) then length ids else s + limit in
      let rest = λ (more : List Instance). batches fuel ids (s + limit) (cvms ++ more) in
      if ltb s (length ids)
      then elim (describe (take (e - s) (drop s ids))) [
        | inl e' ↦ some (inl e')
        | inr more ↦ rest more
      ]
      else some (inr cvms)

-- `getClient` may fail; the limit of the configuration is not negative.
module _ {C : Type 0} (get_client : String ⊎ C)
    (describe : C → List String → String ⊎ List Instance) (limit : ℕ) where
  -- A batch that is not empty takes one id at least, so these many rounds are enough where the limit
  -- is not 0.
  unfoldable pub get_cvm_instances : List String → Option (String ⊎ List Instance)
  get_cvm_instances ids = elim get_client [
    | inl e ↦ some (inl e)
    | inr client ↦ batches (describe client) limit (length ids) ids 0 []
  ]

-- One query for the price of an instance: by its type, kind of charge and zone. A `none` is an answer
-- without a `Response`.
module _ {F : Type 0}
    (quota : String → String → String → String ⊎ Option (List (QuotaItem F))) where
  unfoldable pub quota_of : Instance → String ⊎ Option (List (QuotaItem F))
  quota_of ins =
      let zone : String = elim ins.placement [ none ↦ "" | some z ↦ get_or z "" ] in
      quota (get_or ins.instance_type "") (get_or ins.instance_charge_type "") zone

  -- The first item of the answer, if it has a price.
  unfoldable pub first_price : Instance → Option (List (QuotaItem F)) → List (QCloudInstancePrice F)
  first_price ins none = []
  first_price ins (some []) = []
  first_price ins (some (item ∷ items)) = elim item.price [
    | none ↦ []
    | some p ↦
        record { cvm_instance = some ins; price = some (record { instance_price = some p }) } ∷ []
  ]

  -- The loop of `GetCVMInstancesPrice`: a failed query is passed over. In the debug mode the id of
  -- the instance is read through its pointer.
  unfoldable pub instances_price_loop :
      Bool → List Instance → List (QCloudInstancePrice F) → Outcome (List (QCloudInstancePrice F))
  instances_price_loop debug [] prices = ok prices
  instances_price_loop debug (ins ∷ rest) prices = elim (quota_of ins) [
    | inl e ↦ instances_price_loop debug rest prices
    | inr answer ↦ (if debug then deref ins.instance_id else ok "") >>= λ id.
        instances_price_loop debug rest (prices ++ first_price ins answer)
  ]

module _ {F C : Type 0} (get_client : String ⊎ C)
    (quota : C → String → String → String → String ⊎ Option (List (QuotaItem F))) where
  unfoldable pub get_cvm_instances_price :
      Bool → List Instance → Outcome (List (QCloudInstancePrice F))
  get_cvm_instances_price debug found = elim get_client [
    | inl e ↦ err e
    | inr client ↦ instances_price_loop (quota client) debug found []
  ]
