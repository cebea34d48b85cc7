-- ===== src/Kube/Owner/Laws.antt =====
-- The search for the root of an object, and its fuel.
use fadvisor.Prelude.{ℕ, zero, suc, ◌<◌, ◌≡◌, refl, ◌⊎◌, inl, inr, some, List, [], ◌∷◌, arith}
use fadvisor.Prelude.Outcome.{Outcome, ok, err, panic, Outcome-cases}
use fadvisor.Kube.Owner.{Api, Object, OwnerReference, owner_of, find_root_owner}

module _ (api : Api) where
  -- `top` has no owner, and is reached from `obj` by the first owner of each object.
  pub data IsTop : Object → Object → Type 0 where
    self : (obj : Object) → obj.owner_references ≡ [] → IsTop obj obj
    owned :
        (obj next top : Object) (owner : OwnerReference) (rest : List OwnerReference)
        → obj.owner_references ≡ owner ∷ rest
        → owner_of api obj owner ≡ ok next
        → IsTop next top
        → IsTop obj top

  -- Every first owner that the server finds is of a lower rank, so no object owns itself in the end.
  abbrev pub IsRanked : (Object → ℕ) → Type 0
  IsRanked rank =
      (obj next : Object) (owner : OwnerReference) (rest : List OwnerReference)
      → obj.owner_references ≡ owner ∷ rest
      → owner_of api obj owner ≡ ok next
      → rank next < rank obj

  list_cases :
      (xs : List OwnerReference)
      → (xs ≡ []) ⊎ ((x : OwnerReference) × (rest : List OwnerReference) × (xs ≡ x ∷ rest))
  list_cases [] = inl refl
  list_cases (x ∷ xs) = inr (x, xs, refl)

  -- If owners are of lower rank, fuel beyond the rank of an object is enough for the search; and a
  -- root that is found is the conversion of the object without owners at the end of the chain of
  -- first owners.
  pub find_root_owner_lem :
      (rank : Object → ℕ)
      → IsRanked rank
      → (fuel : ℕ) (obj : Object) → rank obj < fuel
      → (r : Outcome Object) × (find_root_owner api fuel obj ≡ some r)
        × ((root : Object)
            → r ≡ ok root
            → (top : Object) × IsTop obj top × (api.to_unstructured top ≡ ok root))
  unfolding find_root_owner
  find_root_owner_lem rank ranked zero obj lt = absurd (omega arith)
  find_root_owner_lem rank ranked (suc fuel) obj lt = elim (list_cases obj.owner_references) [
    | inl alone ↦
        (api.to_unstructured obj, ground (arith, alone), λ root e. (obj, self obj alone, e))
    | inr (owner, rest, owners) ↦ elim (Outcome-cases (owner_of api obj owner)) [
      | inl stops ↦ (panic, ground (arith, owners, stops), λ root e. cc)
      | inr (inr (e, fails)) ↦ (err e, ground (arith, owners, fails), λ root e'. cc)
      | inr (inl (next, found)) ↦
          let (r, result, is_top) =
            find_root_owner_lem rank ranked fuel next
              (omega (arith, ranked obj next owner rest owners found)) in
          (
            r,
            ground (arith, owners, found, result),
            λ root e.
                let (top, t, converted) = is_top root e in
                (top, owned obj next top owner rest owners found t, converted),
          )
    ]
  ]
