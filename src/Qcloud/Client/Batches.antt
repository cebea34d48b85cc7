-- ===== src/Qcloud/Client/Batches.antt =====
-- What `GetCVMInstances` and `GetCVMInstancesPrice` ask for, and what they return.
use fadvisor.Prelude.{
  ℕ, zero, suc, ◌+◌, ◌-◌, ◌≤◌, ◌<◌, ◌≡◌, refl, sym, ap, ◌∙◌, false, Option, none, some, ◌⊎◌, inl,
  inr, List, [], ◌∷◌, ◌++◌, arith, String, length, take, drop, take_all, drop_all, length-take,
  length-drop, drop-drop, take-append-drop, ltb, if◌then◌else◌, Bool-cases,
}
use mathlib.Core.Option.{get_or}
use mathlib.Core.List.{append-nil, append_assoc}
use fadvisor.Prelude.Outcome.{Outcome, ok, err}
use fadvisor.Qcloud.State.{Instance, QCloudInstancePrice, QuotaItem}
use fadvisor.Qcloud.Client.{
  batches, get_cvm_instances, quota_of, first_price, instances_price_loop, get_cvm_instances_price,
}

-- A service that answers for each id on its own: `found id` are the instances of that id.
abbrev pub gather : (String → List Instance) → List String → List Instance
gather found [] = []
gather found (id ∷ ids) = found id ++ gather found ids

gather-append :
    (found : String → List Instance) (xs ys : List String)
    → gather found (xs ++ ys) ≡ gather found xs ++ gather found ys
gather-append found [] ys = refl
gather-append found (x ∷ xs) ys =
    ap (λ l. found x ++ l) (gather-append found xs ys)
    ∙ sym (append_assoc (found x) (gather found xs) (gather found ys))

-- The end of the slice `ids[s:e]`.
abbrev slice_end : ℕ → ℕ → List String → ℕ
slice_end limit s ids = if ltb (length ids) (s + limit) then length ids else s + limit

-- The slice, and the ids behind it, are what is left from `s` on.
slice-append :
    (limit s : ℕ) (ids : List String)
    → s < length ids
    → let slice = take (slice_end limit s ids - s) (drop s ids) in
      (slice ++ drop (s + limit) ids ≡ drop s ids) × (length slice ≤ limit)
slice-append limit s ids lt = elim (Bool-cases (ltb (length ids) (s + limit))) [
  | inl over ↦
      let rest = drop s ids in
      let short : length rest ≤ length ids - s = omega (arith, length-drop s ids) in
      let whole = take_all (length ids - s) rest short in
      let none_left = drop_all (s + limit) ids (ground arith) in
      (
        rw (over, whole, none_left) (append-nil rest),
        rw (over, whole) (ground (arith, length-drop s ids)),
      )
  | inr inside ↦
      let rest = drop s ids in
      let size : s + limit - s ≡ limit = omega arith in
      (
        rw (inside, size, ← drop-drop s limit ids) (take-append-drop limit rest),
        rw (inside, size) (length-take limit rest),
      )
]

module _ (describe : List String → String ⊎ List Instance) (limit : ℕ)
    (found : String → List Instance) (positive : 0 < limit)
    (answers : (ids : List String)
      → length ids ≤ limit
      → describe ids ≡ inr (gather found ids)) where
  batches_lem :
      (fuel s : ℕ) (ids : List String) (cvms : List Instance)
      → length ids ≤ fuel + s
      → batches describe limit fuel ids s cvms ≡ some (inr (cvms ++ gather found (drop s ids)))
  unfolding batches
  batches_lem zero s ids cvms h = rw (drop_all s ids (omega arith), append-nil cvms) (ground arith)
  batches_lem (suc fuel) s ids cvms h = elim (Bool-cases (ltb s (length ids))) [
    | inl more ↦
        let (split, small) = slice-append limit s ids (ground arith) in
        let slice = take (slice_end limit s ids - s) (drop s ids) in
        let rest = batches_lem fuel (s + limit) ids (cvms ++ gather found slice) (omega arith) in
        let together =
          append_assoc cvms (gather found slice) (gather found (drop (s + limit) ids))
          ∙ ap (λ l. cvms ++ l)
              (sym (gather-append found slice (drop (s + limit) ids)) ∙ ap (gather found) split) in
        ground (arith, more, answers slice small, rest, together)
    | inr done ↦ rw (drop_all s ids (ground arith), append-nil cvms) (ground (arith, done))
  ]

abbrev pub gathered :
    {C : Type 0} → (String → List Instance) → List String → String ⊎ C → String ⊎ List Instance
gathered found ids (inl e) = inl e
gathered found ids (inr client) = inr (gather found ids)

Sum-cases : {A B : Type 0} (a : A ⊎ B) → ((x : A) × (a ≡ inl x)) ⊎ ((y : B) × (a ≡ inr y))
Sum-cases (inl x) = inl (x, refl)
Sum-cases (inr y) = inr (y, refl)

module _ {C : Type 0} (get_client : String ⊎ C)
    (describe : C → List String → String ⊎ List Instance) (limit : ℕ)
    (found : String → List Instance) (positive : 0 < limit)
    (answers : (client : C) (ids : List String)
      → length ids ≤ limit
      → describe client ids ≡ inr (gather found ids)) where
  -- If the limit is not 0, and the service answers every query for no more ids than the limit with
  -- the instances of each id, then `GetCVMInstances` ends: with the error of the client, if there is
  -- none, or else with the instances of all ids, in their order.
  pub get_cvm_instances_lem :
      (ids : List String)
      → get_cvm_instances get_client describe limit ids ≡ some (gathered found ids get_client)
  unfolding get_cvm_instances
  get_cvm_instances_lem ids = elim (Sum-cases get_client) [
    | inl (e, failed) ↦ rw (failed) refl
    | inr (client, made) ↦ rw (made) (
        batches_lem (describe client) limit found positive (answers client) (length ids) 0 ids []
          (omega arith))
  ]

abbrev text_or_empty : Option String → String
text_or_empty none = ""
text_or_empty (some s) = s

get_or_empty : (o : Option String) → get_or o "" ≡ text_or_empty o
get_or_empty none = refl
get_or_empty (some s) = refl

abbrev zone_or_empty : Option (Option String) → String
zone_or_empty none = ""
zone_or_empty (some z) = text_or_empty z

zone_eq :
    (o : Option (Option String)) → elim o [ none ↦ "" | some z ↦ get_or z "" ] ≡ zone_or_empty o
zone_eq none = refl
zone_eq (some z) = get_or_empty z

module _ {F : Type 0} where
  -- What an answer holds for an instance: the price in its first item.
  abbrev offer : Instance → String ⊎ Option (List (QuotaItem F)) → List (QCloudInstancePrice F)
  offer ins (inl e) = []
  offer ins (inr none) = []
  offer ins (inr (some [])) = []
  offer ins (inr (some (item ∷ items))) = elim item.price [
    | none ↦ []
    | some p ↦
        record { cvm_instance = some ins; price = some (record { instance_price = some p }) } ∷ []
  ]

  first_price_lem :
      (quota : String → String → String → String ⊎ Option (List (QuotaItem F))) (ins : Instance)
      (answer : Option (List (QuotaItem F)))
      → first_price quota ins answer ≡ offer ins (inr answer)
  unfolding first_price
  first_price_lem quota ins none = refl
  first_price_lem quota ins (some []) = refl
  first_price_lem quota ins (some (item ∷ items)) = refl

module _ {F : Type 0}
    (quota : String → String → String → String ⊎ Option (List (QuotaItem F))) where
  -- The service is asked by the type, the kind of charge and the zone of the instance.
  abbrev pub quoted : Instance → List (QCloudInstancePrice F)
  quoted ins = offer ins (
      quota (text_or_empty ins.instance_type) (text_or_empty ins.instance_charge_type)
        (zone_or_empty ins.placement))

  abbrev pub quoted_all : List Instance → List (QCloudInstancePrice F)
  quoted_all [] = []
  quoted_all (ins ∷ rest) = quoted ins ++ quoted_all rest

  quota_of_lem :
      (ins : Instance)
      → quota_of quota ins
        ≡ quota
            (text_or_empty ins.instance_type)
            (text_or_empty ins.instance_charge_type)
            (zone_or_empty ins.placement)
  unfolding quota_of
  quota_of_lem ins =
      rw
        (
          get_or_empty ins.instance_type,
          get_or_empty ins.instance_charge_type,
          zone_eq ins.placement,
        )
        refl

  price_loop-cons :
      (ins : Instance) (rest : List Instance) (prices : List (QCloudInstancePrice F))
      → instances_price_loop quota false (ins ∷ rest) prices
        ≡ instances_price_loop quota false rest (prices ++ quoted ins)
  unfolding instances_price_loop
  price_loop-cons ins rest prices = rw (← quota_of_lem ins) (go (quota_of quota ins))
    where
      go :
          (a : String ⊎ Option (List (QuotaItem F)))
          → elim a [
            | inl e ↦ instances_price_loop quota false rest prices
            | inr answer ↦
                instances_price_loop quota false rest (prices ++ first_price quota ins answer)
          ]
            ≡ instances_price_loop quota false rest (prices ++ offer ins a)
      go (inl e) = ap (instances_price_loop quota false rest) (sym (append-nil prices))
      go (inr answer) =
          ap (λ ps. instances_price_loop quota false rest (prices ++ ps))
            (first_price_lem quota ins answer)

  price_loop_lem :
      (found : List Instance) (prices : List (QCloudInstancePrice F))
      → instances_price_loop quota false found prices ≡ ok (prices ++ quoted_all found)
  unfolding instances_price_loop
  price_loop_lem [] prices = rw (append-nil prices) refl
  price_loop_lem (ins ∷ rest) prices =
      price_loop-cons ins rest prices
      ∙ price_loop_lem rest (prices ++ quoted ins)
      ∙ ap ok (append_assoc prices (quoted ins) (quoted_all rest))

-- The prices of all instances, if there is a client to ask with.
abbrev pub priced :
    {F C : Type 0}
    → (C → String → String → String → String ⊎ Option (List (QuotaItem F)))
    → List Instance
    → String ⊎ C
    → Outcome (List (QCloudInstancePrice F))
priced quota found (inl e) = err e
priced quota found (inr client) = ok (quoted_all (quota client) found)

-- Without the debug mode `GetCVMInstancesPrice` fails only with the error of the client. Else it
-- asks for each instance by its type, kind of charge and zone, an empty text for what is missing,
-- and returns, in the order of the instances, the price in the first item of each answer together
-- with the instance; an instance whose query fails, or whose answer has no priced first item, is left
-- out.
pub get_cvm_instances_price_lem :
    {F C : Type 0} (get_client : String ⊎ C)
    (quota : C → String → String → String → String ⊎ Option (List (QuotaItem F)))
    (found : List Instance)
    → get_cvm_instances_price get_client quota false found ≡ priced quota found get_client
unfolding get_cvm_instances_price
get_cvm_instances_price_lem (inl e) quota found = refl
get_cvm_instances_price_lem (inr client) quota found = price_loop_lem (quota client) found []
