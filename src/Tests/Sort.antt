-- ===== src/Tests/Sort.antt =====
-- An insertion sort stands for `SortSampleAsc`, and two windows are queried.
use fadvisor.Prelude.{
  ℕ, ◌*◌, ◌≤◌, ◌≡◌, refl, ◌||◌, some, ◌⊎◌, inr, List, [], ◌∷◌, map, arith, String, leb, ◌==◌,
  if◌then◌else◌,
}
use fadvisor.Prelude.Dict.{Dict}
use fadvisor.Prom.Series.{Sample, TimeSeries}
use fadvisor.Prom.Series.Laws.{AscendsFrom, IsSorted}
use fadvisor.Prom.Shards.{Range}
use fadvisor.Prom.Convert.{PromValue, matrix}
use fadvisor.Prom.Query.{ShardResult, shard_result, query_by_shards}
use fadvisor.Prom.Query.Laws.{present, IsSort, IsWhole, query_by_shards_lem}
use fadvisor.Tests.Prom.{labels_text, two_windows}

insert_sample : Sample ℕ → List (Sample ℕ) → List (Sample ℕ)
insert_sample s [] = s ∷ []
insert_sample s (x ∷ xs) =
    let rest = insert_sample s xs in if leb s.timestamp x.timestamp then s ∷ x ∷ xs else x ∷ rest

sort_samples : List (Sample ℕ) → List (Sample ℕ)
sort_samples [] = []
sort_samples (s ∷ ss) = insert_sample s (sort_samples ss)

insert_sample-AscendsFrom :
    (lo : ℕ) (s : Sample ℕ) (xs : List (Sample ℕ))
    → lo ≤ s.timestamp
    → AscendsFrom lo xs
    → AscendsFrom lo (insert_sample s xs)
unfolding insert_sample
insert_sample-AscendsFrom lo s [] p h = ground arith
insert_sample-AscendsFrom lo s (x ∷ xs) p h =
    ground (arith, insert_sample-AscendsFrom x.timestamp s xs)

present-insert_sample :
    (t : ℕ) (s : Sample ℕ) (xs : List (Sample ℕ))
    → present t (insert_sample s xs) ≡ (s.timestamp == t || present t xs)
unfolding insert_sample
present-insert_sample t s [] = ground arith
present-insert_sample t s (x ∷ xs) = ground (arith, present-insert_sample t s xs)

sort_samples-IsSorted : (ss : List (Sample ℕ)) → IsSorted (sort_samples ss)
unfolding sort_samples
sort_samples-IsSorted [] = tt
sort_samples-IsSorted (s ∷ ss) =
    insert_sample-AscendsFrom 0 s (sort_samples ss) (omega arith) (sort_samples-IsSorted ss)

present-sort_samples : (t : ℕ) (ss : List (Sample ℕ)) → present t (sort_samples ss) ≡ present t ss
unfolding sort_samples
present-sort_samples t [] = refl
present-sort_samples t (s ∷ ss) =
    ground (arith, present-insert_sample t s (sort_samples ss), present-sort_samples t ss)

sort_samples-IsSort : IsSort sort_samples
sort_samples-IsSort = record {
  sort-IsSorted = sort_samples-IsSorted;
  present-sort = present-sort_samples;
}

-- A service that answers with the two ends of a window.
abbrev ends : String → Range → String ⊎ PromValue ℕ
ends query w = inr (
    matrix (
      some (record {
        metric = ("job", query) ∷ [];
        values = (w.start * 1000, 1) ∷ (w.end * 1000, 2) ∷ [];
      })
      ∷ []))

abbrev join_texts : List String → String
join_texts [] = ""
join_texts (e ∷ es) = e

abbrev results : List (ShardResult ℕ)
results = map (shard_result sort_samples join_texts labels_text ends "up") two_windows

query_by_shards_example :
    (r : String ⊎ Dict (TimeSeries ℕ)) × (query_by_shards sort_samples join_texts labels_text ends
        (λ rs. rs)
        "up"
        two_windows
      ≡ some r)
    × IsWhole sort_samples sort_samples-IsSort join_texts labels_text ends results r
query_by_shards_example =
    query_by_shards_lem sort_samples sort_samples-IsSort join_texts labels_text ends (λ rs. rs) "up"
      two_windows
