-- ===== src/Comparator/Recommend/Laws.antt =====
-- What becomes of the containers of a pod in the recommendations.
use mathlib.Core.List.{append-nil, append_assoc}
use fadvisor.Prelude.{
  ◌≡◌, ◌≢◌, refl, sym, ap, ◌∙◌, inl, inr, true, false, Option, none, some, List, [], ◌∷◌, ◌++◌,
  String, ◌=s=◌, map, arith, eq_iff, All, All-map, All-zip, All-append, Option-cases,
}
use fadvisor.Prelude.Dict.{Dict, lookup}
use fadvisor.Prelude.Outcome.{Outcome, ok, err, panic, ◌>>=◌}
use fadvisor.Float.{Float}
use fadvisor.Prom.Series.{TimeSeries}
use fadvisor.Kube.{Quantity, Pod, Container}
use fadvisor.Comparator.{RawContainerTimeSeriesData}
use fadvisor.Comparator.Estimator.{
  StatsLibrary, Statistic, ConfigValue, estimation, merge_time_series_list,
}
use fadvisor.Comparator.Recommend.{
  RecommendedPods, set_resources, recommend_container, recommend_containers, recommend_pod,
  recommend_pods, on_error, container_round, container_rounds,
}

differ_comm : (s t : String) → (s =s= t) ≡ false → (t =s= s) ≡ false
differ_comm s t e = ground (arith, eq_iff s t, eq_iff t s)

module _ {Q : Type 0} where
  -- No container of the list has this name.
  abbrev pub IsFresh : String → List (Container Q) → Type 0
  IsFresh name = All (λ c. (name =s= c.name) ≡ false)

  -- The names of the containers differ.
  abbrev pub HaveOwnNames : List (Container Q) → Type 0
  HaveOwnNames [] = Unit
  HaveOwnNames (c ∷ cs) = IsFresh c.name cs × HaveOwnNames cs

  map-IsFresh :
      (f : Container Q → Container Q)
      → ((c : Container Q) → (f c).name ≡ c.name)
      → (name : String) (cs : List (Container Q)) → IsFresh name cs
      → IsFresh name (map f cs)
  map-IsFresh f same name [] h = tt
  map-IsFresh f same name (c ∷ cs) h =
      (ap (λ n. name =s= n) (same c) ∙ h.0, map-IsFresh f same name cs h.1)

  map-snoc :
      (f : Container Q → Container Q) (cs : List (Container Q)) (c : Container Q)
      (rest : List (Container Q))
      → map f (cs ++ (c ∷ [])) ++ rest ≡ map f cs ++ (f c ∷ rest)
  map-snoc f [] c rest = refl
  map-snoc f (d ∷ cs) c rest = ap (λ r. f d ∷ r) (map-snoc f cs c rest)

module _ {F : Type 0} where
  abbrev both : Outcome (Statistic F) → Outcome (Statistic F) → Option (Statistic F × Statistic F)
  both (ok cpu) (ok mem) = some (cpu, mem)
  both (ok cpu) (err e) = none
  both (ok cpu) panic = none
  both (err e) m = none
  both panic m = none

module _ {F Q : Type 0} ⦃fl : Float F⦄ ⦃qu : Quantity Q⦄ where
  recommend_containers-fresh :
      (cpu mem : Option F) (c : Container Q) (cs : List (Container Q))
      → IsFresh c.name cs
      → recommend_containers cpu mem c cs ≡ cs
  unfolding recommend_containers
  recommend_containers-fresh cpu mem c [] h = refl
  recommend_containers-fresh cpu mem c (d ∷ cs) h =
      rw (h.0, recommend_containers-fresh cpu mem c cs h.1)

  recommend_containers-append :
      (cpu mem : Option F) (c : Container Q) (done rest : List (Container Q))
      → IsFresh c.name done
      → IsFresh c.name rest
      → recommend_containers cpu mem c (done ++ (c ∷ rest))
        ≡ done ++ (recommend_container cpu mem c c ∷ rest)
  unfolding recommend_containers
  recommend_containers-append cpu mem c [] rest h g =
      rw (same_text c.name, recommend_containers-fresh cpu mem c rest g)
    where
      same_text : (t : String) → (t =s= t) ≡ true
      same_text t = ground (arith, eq_iff t t)
  recommend_containers-append cpu mem c (d ∷ done) rest h g =
      rw (h.0, recommend_containers-append cpu mem c done rest h.1 g)

  recommend_container-name :
      (cpu mem : Option F) (o c : Container Q) → (recommend_container cpu mem o c).name ≡ c.name
  unfolding recommend_container set_resources
  recommend_container-name (some x) (some y) o c = refl
  recommend_container-name (some x) none o c = refl
  recommend_container-name none y o c = refl

  abbrev update_with :
      (Statistic F → Option F) → Option (Statistic F × Statistic F) → Container Q → Container Q
  update_with sel none c = c
  update_with sel (some (cpu, mem)) c = recommend_container (sel cpu) (sel mem) c c

  update_with-name :
      (sel : Statistic F → Option F) (s : Option (Statistic F × Statistic F)) (c : Container Q)
      → (update_with sel s c).name ≡ c.name
  update_with-name sel none c = refl
  update_with-name sel (some (cpu, mem)) c = recommend_container-name (sel cpu) (sel mem) c c

  abbrev round_of :
      Option (Statistic F × Statistic F) → Container Q → RecommendedPods Q → RecommendedPods Q
  round_of none c pods = pods
  round_of (some (cpu, mem)) c pods = recommend_pods cpu mem c pods

  on_error-both :
      (cpu mem : Outcome (Statistic F)) (c : Container Q) (pods : RecommendedPods Q)
      → cpu ≢ panic
      → mem ≢ panic
      → on_error cpu (ok pods) (λ x. on_error mem (ok pods) (λ y. ok (recommend_pods x y c pods)))
        ≡ ok (round_of (both cpu mem) c pods)
  on_error-both (ok x) (ok y) c pods n k = refl
  on_error-both (ok x) (err e) c pods n k = refl
  on_error-both (ok x) panic c pods n k = absurd (k refl)
  on_error-both (err e) mem c pods n k = refl
  on_error-both panic mem c pods n k = absurd (n refl)

module _ {F Q : Type 0} ⦃fl : Float F⦄ ⦃qu : Quantity Q⦄ (stats : StatsLibrary F)
    (config : Dict (ConfigValue F)) (series : Dict (RawContainerTimeSeriesData F)) where
  -- The statistics of a container, where both can be estimated.
  abbrev pub stats_of : Container Q → Option (Statistic F × Statistic F)
  stats_of c = elim (lookup c.name series) [
    | none ↦ none
    | some raw ↦
        both (estimation stats (merge_time_series_list raw.cpu) config)
          (estimation stats (merge_time_series_list raw.mem) config)
  ]

  -- A container with the requests and limits of one of its statistics.
  abbrev pub updated : (Statistic F → Option F) → Container Q → Container Q
  updated sel c = update_with sel (stats_of c) c

  -- The containers of `done` with their statistics, those of `rest` as they are.
  abbrev between : Pod Q → List (Container Q) → List (Container Q) → RecommendedPods Q
  between pod done rest = record {
    recommended = record pod { containers = map (updated (λ s. s.recommended)) done ++ rest };
    percent = record pod { containers = map (updated (λ s. s.percentile)) done ++ rest };
    max = record pod { containers = map (updated (λ s. s.max)) done ++ rest };
    max_margin = record pod { containers = map (updated (λ s. s.max_recommended)) done ++ rest };
  }

  container_round-eq :
      ((ts : TimeSeries F) → estimation stats ts config ≢ panic)
      → (c : Container Q) (pods : RecommendedPods Q)
      → container_round stats config series c pods ≡ ok (round_of (stats_of c) c pods)
  unfolding container_round
  container_round-eq calm c pods = elim (Option-cases (lookup c.name series)) [
    | inl e ↦ ground (arith, e)
    | inr (raw, e) ↦ ground (
      arith,
      e,
      on_error-both (estimation stats (merge_time_series_list raw.cpu) config)
          (estimation stats (merge_time_series_list raw.mem) config) c pods
          (calm (merge_time_series_list raw.cpu)) (calm (merge_time_series_list raw.mem)),
    )
  ]

  -- What a round does to one of the copies.
  step :
      (sel : Statistic F → Option F) (c : Container Q) (done rest : List (Container Q))
      (s : Statistic F × Statistic F)
      → stats_of c ≡ some s
      → IsFresh c.name done
      → IsFresh c.name rest
      → recommend_containers (sel s.0) (sel s.1) c (map (updated sel) done ++ (c ∷ rest))
        ≡ map (updated sel) (done ++ (c ∷ [])) ++ rest
  step sel c done rest s e h g =
      recommend_containers-append (sel s.0) (sel s.1) c (map (updated sel) done) rest
        (map-IsFresh (updated sel) (λ d. update_with-name sel (stats_of d) d) c.name done h) g
      ∙ sym (
          map-snoc (updated sel) done c rest
          ∙ ap (λ o. map (updated sel) done ++ (update_with sel o c ∷ rest)) e)

  idle :
      (sel : Statistic F → Option F) (c : Container Q) (done rest : List (Container Q))
      → stats_of c ≡ none
      → map (updated sel) done ++ (c ∷ rest) ≡ map (updated sel) (done ++ (c ∷ [])) ++ rest
  idle sel c done rest e = sym (
      map-snoc (updated sel) done c rest
      ∙ ap (λ o. map (updated sel) done ++ (update_with sel o c ∷ rest)) e)

  round_of-between :
      (pod : Pod Q) (c : Container Q) (done rest : List (Container Q))
      → IsFresh c.name done
      → IsFresh c.name rest
      → round_of (stats_of c) c (between pod done (c ∷ rest)) ≡ between pod (done ++ (c ∷ [])) rest
  unfolding recommend_pods recommend_pod
  round_of-between pod c done rest h g = elim (Option-cases (stats_of c)) [
    | inl e ↦ ap (λ o. round_of o c (between pod done (c ∷ rest))) e ∙ (λ i. record {
      recommended = record pod { containers = idle (λ s. s.recommended) c done rest e i };
      percent = record pod { containers = idle (λ s. s.percentile) c done rest e i };
      max = record pod { containers = idle (λ s. s.max) c done rest e i };
      max_margin = record pod { containers = idle (λ s. s.max_recommended) c done rest e i };
    })
    | inr (s, e) ↦ ap (λ o. round_of o c (between pod done (c ∷ rest))) e ∙ (λ i. record {
      recommended = record pod { containers = step (λ s. s.recommended) c done rest s e h g i };
      percent = record pod { containers = step (λ s. s.percentile) c done rest s e h g i };
      max = record pod { containers = step (λ s. s.max) c done rest s e h g i };
      max_margin = record pod { containers = step (λ s. s.max_recommended) c done rest s e h g i };
    })
  ]

  container_rounds-between :
      ((ts : TimeSeries F) → estimation stats ts config ≢ panic)
      → (pod : Pod Q) (done rest : List (Container Q)) → All (λ c. IsFresh c.name done) rest
      → HaveOwnNames rest
      → container_rounds stats config series rest (between pod done rest)
        ≡ ok (between pod (done ++ rest) [])
  unfolding container_rounds
  container_rounds-between calm pod done [] h own =
      ap (λ d. ok (between pod d [])) (sym (append-nil done))
  container_rounds-between calm pod done (c ∷ rest) h own =
      let round =
        container_round-eq calm c (between pod done (c ∷ rest))
        ∙ ap ok (round_of-between pod c done rest h.0 own.0) in
      ap (λ m. m >>= λ pods. container_rounds stats config series rest pods) round
      ∙ container_rounds-between calm pod (done ++ (c ∷ [])) rest
          (All-map (λ d. IsFresh d.name done × ((c.name =s= d.name) ≡ false))
            (λ d. IsFresh d.name (done ++ (c ∷ [])))
            (λ d f.
              All-append (λ x. (d.name =s= x.name) ≡ false) done (c ∷ []) f.0
                (differ_comm c.name d.name f.1, tt))
            rest
            (All-zip (λ d. IsFresh d.name done) (λ d. (c.name =s= d.name) ≡ false) rest h.1 own.0))
          own.1
      ∙ ap (λ d. ok (between pod d [])) (append_assoc done (c ∷ []) rest)

  All-IsFresh : (cs : List (Container Q)) → All (λ c. IsFresh {Q = Q} c.name []) cs
  All-IsFresh [] = tt
  All-IsFresh (c ∷ cs) = (tt, All-IsFresh cs)

  -- If the containers of a pod have different names, then each of the four copies gets every
  -- container with its own statistics, ratios and limits, and leaves a container alone that has no
  -- cached series or whose statistics cannot be estimated. It rests on
  -- statistics that never panic.
  pub container_rounds_lem :
      ((ts : TimeSeries F) → estimation stats ts config ≢ panic)
      → (pod : Pod Q) → HaveOwnNames pod.containers
      → container_rounds stats config series pod.containers
          (record { recommended = pod; percent = pod; max = pod; max_margin = pod })
        ≡ ok (record {
          recommended = record pod {
            containers = map (updated (λ s. s.recommended)) pod.containers;
          };
          percent = record pod { containers = map (updated (λ s. s.percentile)) pod.containers };
          max = record pod { containers = map (updated (λ s. s.max)) pod.containers };
          max_margin = record pod {
            containers = map (updated (λ s. s.max_recommended)) pod.containers;
          };
        })
  container_rounds_lem calm pod own =
      container_rounds-between calm pod [] pod.containers (All-IsFresh pod.containers) own ∙ (λ i.
        ok (record {
          recommended = record pod {
            containers = append-nil (map (updated (λ s. s.recommended)) pod.containers) i;
          };
          percent = record pod {
            containers = append-nil (map (updated (λ s. s.percentile)) pod.containers) i;
          };
          max = record pod {
            containers = append-nil (map (updated (λ s. s.max)) pod.containers) i;
          };
          max_margin = record pod {
            containers = append-nil (map (updated (λ s. s.max_recommended)) pod.containers) i;
          };
        }))
