-- ===== src/Tests/DataSource.antt =====
-- The proxies over two sources, with an insertion sort by the rank of the known names.
use fadvisor.Prelude.{
  ℕ, ◌≡◌, refl, Bool, true, false, ◌||◌, Bool-cases, inl, inr, eq_iff, Option, none, some, List, [],
  ◌∷◌, String, arith, ◌=s=◌, if◌then◌else◌, leb, contains, subst,
}
use fadvisor.Prelude.Outcome.{Outcome, ok, err}
use fadvisor.DataSource.{Proxy, Texts, query_time_series, query_latest_time_series}
use fadvisor.DataSource.Laws.{
  IsSorted, IsSort, IsAnswer, Change, register, delete, run_history, run_real_time, after, view,
  proxies_lem,
}

abbrev rank : String → ℕ
rank name =
    if name =s= "metricserver"
    then 0
    else if name =s= "mock"
    then 1
    else if name =s= "prom"
    then 2
    else 3

abbrev by_rank : String → String → Bool
by_rank a b = leb (rank a) (rank b)

module _ (le : String → String → Bool) where
  insert_name : String → List String → List String
  insert_name n [] = n ∷ []
  insert_name n (x ∷ xs) = let rest = insert_name n xs in if le n x then n ∷ x ∷ xs else x ∷ rest

  sort_names : List String → List String
  sort_names [] = []
  sort_names (n ∷ ns) = insert_name n (sort_names ns)

  contains-insert_name :
      (n j : String) (xs : List String) → contains (insert_name n xs) j ≡ (n =s= j || contains xs j)
  unfolding insert_name
  contains-insert_name n j [] = refl
  contains-insert_name n j (x ∷ xs) = ground (arith, contains-insert_name n j xs)

  contains-sort_names : (ns : List String) (j : String) → contains (sort_names ns) j ≡ contains ns j
  unfolding sort_names
  contains-sort_names [] j = refl
  contains-sort_names (n ∷ ns) j =
      ground (arith, contains-insert_name n j (sort_names ns), contains-sort_names ns j)

  -- The order is total and transitive.
  module _ (total : (a b : String) → le a b ≡ false → le b a ≡ true)
      (trans : (a b c : String) → le a b ≡ true → le b c ≡ true → le a c ≡ true) where
    insert_name-IsSorted :
        (n : String) (xs : List String) → IsSorted le xs → IsSorted le (insert_name n xs)
    unfolding insert_name
    insert_name-IsSorted n [] h = (λ j c. absurd (ground (arith, c)), tt)
    insert_name-IsSorted n (x ∷ xs) h = elim (Bool-cases (le n x)) [
      | inl t ↦ rw (t) (
          (
            λ j c. elim (Bool-cases (x =s= j)) [
              | inl e ↦ subst (λ k. le n k ≡ true) ((eq_iff x j).0 e) t
              | inr e ↦ trans n x j t (h.0 j (ground (arith, c, e)))
            ],
            h,
          ))
      | inr t ↦ rw (t) (
          (
            λ j c. elim (Bool-cases (n =s= j)) [
              | inl e ↦ subst (λ k. le x k ≡ true) ((eq_iff n j).0 e) (total n x t)
              | inr e ↦ h.0 j (ground (arith, contains-insert_name n j xs, c, e))
            ],
            insert_name-IsSorted n xs h.1,
          ))
    ]

    sort_names-IsSorted : (ns : List String) → IsSorted le (sort_names ns)
    unfolding sort_names
    sort_names-IsSorted [] = tt
    sort_names-IsSorted (n ∷ ns) = insert_name-IsSorted n (sort_names ns) (sort_names-IsSorted ns)

sort_names-IsSort : IsSort by_rank (sort_names by_rank)
sort_names-IsSort = record {
  le_refl = λ n. ground arith;
  sort-IsSorted =
      sort_names-IsSorted by_rank (λ a b h. ground (arith, h)) (λ a b c h k. ground (arith, h, k));
  contains-sort = contains-sort_names by_rank;
}

abbrev texts : Texts
texts = record {
  real_time = λ errs. "no realtime data source";
  history = λ errs. "no history data source";
}

-- A source that is down, and one that answers with a number.
abbrev ask : Option ℕ → Outcome ℕ
ask none = err "connection refused"
ask (some n) = ok n

abbrev changes : List (Change (Option ℕ))
changes =
    register "prom" (some 7)
    ∷ register "mock" (some 1)
    ∷ register "metricserver" none
    ∷ delete "mock"
    ∷ []

proxies_example :
    IsAnswer by_rank ask
      (after changes (view none))
      (query_time_series (sort_names by_rank) texts ask (run_history changes none))
    × ((r : Proxy (Option ℕ)) × (run_real_time changes (some []) ≡ ok r)
        × IsAnswer by_rank ask
            (after changes (view (some [])))
            (query_latest_time_series (sort_names by_rank) texts ask r))
proxies_example =
    proxies_lem by_rank (sort_names by_rank) texts ask sort_names-IsSort changes none []
