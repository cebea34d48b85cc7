-- ===== src/DataSource/Laws.antt =====
-- The proxies after any uses, and the map of providers that they stand for.
use mathlib.Core.Option.{some-injective}
use fadvisor.Prelude.{
  ◌≡◌, refl, sym, ap, subst, ◌∙◌, Bool, Bool-cases, inl, inr, eq_iff, true, false, Option, none,
  some, List, [], ◌∷◌, ◌++◌, String, arith, ◌=s=◌, if◌then◌else◌, contains,
}
use fadvisor.Prelude.Dict.{Dict, lookup, lookup-nil, insert, erase, lookup-insert, lookup-erase}
use fadvisor.Prelude.Outcome.{Outcome, ok, err, panic, ◌>>=◌, Outcome-cases}
use fadvisor.DataSource.{
  Proxy, Texts, providers_of, register_history_provider, delete_provider, names, providers,
  get_sorted_providers, query_loop, query_time_series, query_latest_time_series,
  register_real_time_provider,
}

-- The names of a list stand in order.
abbrev pub IsSorted : (String → String → Bool) → List String → Type 0
IsSorted le [] = Unit
IsSorted le (n ∷ ns) = ((j : String) → contains ns j ≡ true → le n j ≡ true) × IsSorted le ns

-- `sort.Strings`: the texts of the argument, in an order.
pub record IsSort (le : String → String → Bool) (sort : List String → List String) : Type 0 where
  pub le_refl : (n : String) → le n n ≡ true
  pub sort-IsSorted : (ns : List String) → IsSorted le (sort ns)
  pub contains-sort : (ns : List String) (n : String) → contains (sort ns) n ≡ contains ns n

module _ {P R : Type 0} (le : String → String → Bool) (ask : P → Outcome R) where
  abbrev Fails : P → Type 0
  Fails p = (e : String) × (ask p ≡ err e)

  -- A source answers, or panics, and each source whose name does not come after it fails.
  abbrev IsFirst : (String → Option P) → Outcome R → Type 0
  IsFirst f o =
      (n : String) × ((p : P) × (f n ≡ some p)
        × (ask p ≡ o)
        × ((j : String) (q : P) → f j ≡ some q → le n j ≡ false → Fails q))

  -- What a query gives, from the providers by name.
  abbrev pub IsAnswer : (String → Option P) → Outcome R → Type 0
  IsAnswer f (ok r) = IsFirst f (ok r)
  IsAnswer f (err e) = (j : String) (q : P) → f j ≡ some q → Fails q
  IsAnswer f panic = IsFirst f panic

  module _ (f : String → Option P) (m : Dict P) (le_refl : (n : String) → le n n ≡ true) where
    -- The hypotheses of the loop: the names ahead have a provider, the providers behind failed.
    abbrev HasProviders : List String → Type 0
    HasProviders ns = (n : String) → contains ns n ≡ true → (p : P) × (f n ≡ some p)

    abbrev HaveFailed : List String → Type 0
    HaveFailed ns = (j : String) (q : P) → f j ≡ some q → contains ns j ≡ false → Fails q

    not_ahead :
        (n j : String) (ns : List String)
        → ((k : String) → contains ns k ≡ true → le n k ≡ true)
        → le n j ≡ false
        → contains (n ∷ ns) j ≡ false
    not_ahead n j ns s l = ground (arith, le_refl n, s j, eq_iff n j)

    IsFirst_lem :
        (n : String) (ns : List String) (p : P) (o : Outcome R)
        → f n ≡ some p
        → ask p ≡ o
        → ((j : String) → contains ns j ≡ true → le n j ≡ true)
        → HaveFailed (n ∷ ns)
        → IsFirst f o
    IsFirst_lem n ns p o e a s others =
        (n, (p, e, a, λ j q h l. others j q h (not_ahead n j ns s l)))

    HaveFailed-tail :
        (n : String) (ns : List String) (p : P)
        → f n ≡ some p
        → Fails p
        → HaveFailed (n ∷ ns)
        → HaveFailed ns
    HaveFailed-tail n ns p e fails others j q h c = elim (Bool-cases (n =s= j)) [
      | inl t ↦ subst Fails (some-injective p q (sym e ∙ (ap f ((eq_iff n j).0 t) ∙ h))) fails
      | inr t ↦ others j q h (ground (arith, c, t))
    ]

    query_loop_lem :
        (text : List String → String) (ns errs : List String)
        → IsSorted le ns
        → ((n : String) → lookup n m ≡ f n)
        → HasProviders ns
        → HaveFailed ns
        → IsAnswer f (query_loop ask text (providers ns m) errs)
    unfolding query_loop providers
    query_loop_lem text [] errs s same here others = λ j q e. others j q e refl
    query_loop_lem text (n ∷ ns) errs s same here others =
        let first : (p : P) × (f n ≡ some p) = here n (ground (arith, eq_iff n n)) in
        let p : P = first.0 in
        let e : f n ≡ some p = first.1 in
        elim (Outcome-cases (ask p)) [
          | inl o ↦ rw (same n, e, query_loop, o) (IsFirst_lem n ns p panic e o s.0 others)
          | inr (inl (r, o)) ↦
              rw (same n, e, query_loop, o) (IsFirst_lem n ns p (ok r) e o s.0 others)
          | inr (inr (x, o)) ↦
              rw (same n, e, query_loop, o)
                (query_loop_lem text ns (errs ++ (x ∷ [])) s.1 same
                  (λ k c. here k (ground (arith, c))) (HaveFailed-tail n ns p e (x, o) others))
        ]

-- A use of a proxy: its providers are registered and deleted in some order.
pub data Change (P : Type 0) : Type 0 where
  register : String → P → Change P
  delete : String → Change P

module _ {P : Type 0} where
  contains-names :
      (m : Dict P) (n : String) (p : P) → lookup n m ≡ some p → contains (names m) n ≡ true
  unfolding names lookup
  contains-names [] n p h = absurd (ground (arith, h))
  contains-names ((j, q) ∷ m) n p h = ground (arith, h, contains-names m n p)

  names-here :
      (m : Dict P) (n : String) → contains (names m) n ≡ true → (p : P) × (lookup n m ≡ some p)
  unfolding names lookup
  names-here [] n c = absurd (ground (arith, c))
  names-here ((j, q) ∷ m) n c = elim (Bool-cases (j =s= n)) [
    | inl t ↦ (q, ground (arith, t))
    | inr t ↦
        let rest = names-here m n (ground (arith, c, t)) in (rest.0, ground (arith, t, rest.1))
  ]

  abbrev pub run_history : List (Change P) → Proxy P → Proxy P
  run_history [] h = h
  run_history (register n p ∷ cs) h = run_history cs (register_history_provider n p h)
  run_history (delete n ∷ cs) h = run_history cs (delete_provider n h)

  abbrev pub run_real_time : List (Change P) → Proxy P → Outcome (Proxy P)
  run_real_time [] r = ok r
  run_real_time (register n p ∷ cs) r = register_real_time_provider n p r >>= run_real_time cs
  run_real_time (delete n ∷ cs) r = run_real_time cs (delete_provider n r)

  -- The same, on what a proxy stands for: the provider of each name.
  abbrev pub after : List (Change P) → (String → Option P) → String → Option P
  after [] f n = f n
  after (register k p ∷ cs) f n = after cs (λ j. if k =s= j then some p else f j) n
  after (delete k ∷ cs) f n = after cs (λ j. if k =s= j then none else f j) n

  abbrev pub view : Proxy P → String → Option P
  view h n = lookup n (providers_of h)

  after_cong :
      (cs : List (Change P)) (f g : String → Option P)
      → ((n : String) → f n ≡ g n)
      → (n : String) → after cs f n ≡ after cs g n
  after_cong [] f g h n = h n
  after_cong (register k p ∷ cs) f g h n = after_cong cs _ _ (λ j. ground (arith, h j)) n
  after_cong (delete k ∷ cs) f g h n = after_cong cs _ _ (λ j. ground (arith, h j)) n

  view-register :
      (k : String) (p : P) (h : Proxy P) (n : String)
      → view (register_history_provider k p h) n ≡ (if k =s= n then some p else view h n)
  unfolding register_history_provider
  view-register k p none n = lookup-insert n k p []
  view-register k p (some m) n = lookup-insert n k p m

  view-delete :
      (k : String) (h : Proxy P) (n : String)
      → view (delete_provider k h) n ≡ (if k =s= n then none else view h n)
  unfolding delete_provider
  view-delete k none n = ground (arith, lookup-nil {V = P} n)
  view-delete k (some m) n = lookup-erase n k m

  view-run_history :
      (cs : List (Change P)) (h : Proxy P) (n : String)
      → view (run_history cs h) n ≡ after cs (view h) n
  view-run_history [] h n = refl
  view-run_history (register k p ∷ cs) h n =
      view-run_history cs (register_history_provider k p h) n
      ∙ after_cong cs _ _ (view-register k p h) n
  view-run_history (delete k ∷ cs) h n =
      view-run_history cs (delete_provider k h) n ∙ after_cong cs _ _ (view-delete k h) n

  -- A map that is there stays, and both proxies change it in the same way.
  run_real_time-eq-history :
      (cs : List (Change P)) (m : Dict P) → run_real_time cs (some m) ≡ ok (run_history cs (some m))
  unfolding register_real_time_provider register_history_provider delete_provider
  run_real_time-eq-history [] m = refl
  run_real_time-eq-history (register k p ∷ cs) m = run_real_time-eq-history cs (insert k p m)
  run_real_time-eq-history (delete k ∷ cs) m = run_real_time-eq-history cs (erase k m)

module _ {P R : Type 0} (le : String → String → Bool) (sort : List String → List String)
    (texts : Texts) (ask : P → Outcome R) where
  query_loop-IsAnswer :
      IsSort le sort
      → (text : List String → String) (f : String → Option P) (h : Proxy P)
      → ((n : String) → view h n ≡ f n)
      → IsAnswer le ask f (query_loop ask text (get_sorted_providers sort h) [])
  unfolding get_sorted_providers
  query_loop-IsAnswer is text f h same =
      let m : Dict P = providers_of h in
      query_loop_lem le ask f m is.le_refl text (sort (names m)) [] (is.sort-IsSorted (names m))
        same
        (λ n c.
          let here = names-here m n (sym (is.contains-sort (names m) n) ∙ c) in
          (here.0, sym (same n) ∙ here.1))
        (λ j q e c.
          absurd (ground (arith, is.contains-sort (names m) j, contains-names m j q, same j, e, c)))

  -- However providers were registered and deleted before, a query of the history proxy, and of a
  -- real-time proxy that was made with a map, gives what the providers by name call for: the answer,
  -- or the panic, of a provider such that each one whose name does not come after it returned an
  -- error, and an error only if every provider returned one. `sort.Strings` keeps the names and puts
  -- them in an order that is reflexive.
  pub proxies_lem :
      IsSort le sort
      → (cs : List (Change P)) (h : Proxy P) (m : Dict P)
      → IsAnswer le ask (after cs (view h)) (query_time_series sort texts ask (run_history cs h))
        × ((r : Proxy P) × (run_real_time cs (some m) ≡ ok r)
            × IsAnswer le ask
                (after cs (view (some m)))
                (query_latest_time_series sort texts ask r))
  unfolding query_time_series query_latest_time_series
  proxies_lem is cs h m = (
    query_loop-IsAnswer is texts.history (after cs (view h)) (run_history cs h)
        (view-run_history cs h),
    (
      run_history cs (some m),
      run_real_time-eq-history cs m,
      query_loop-IsAnswer is texts.real_time (after cs (view (some m))) (run_history cs (some m))
          (view-run_history cs (some m)),
    ),
  )
