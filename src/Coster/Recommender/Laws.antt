-- ===== src/Coster/Recommender/Laws.antt =====
-- The recommender, and sums over its recommendations.
use fadvisor.Prelude.{
  ◌≡◌, ◌≢◌, refl, ap, ◌∙◌, Bool-cases, inl, inr, Option, none, some, List, [], ◌∷◌, ◌++◌, arith,
  String, ◌=s=◌, if◌then◌else◌,
}
use fadvisor.Prelude.Dict.{Dict}
use fadvisor.Prelude.Outcome.{Outcome, ok, err, panic, ◌>>=◌}
use fadvisor.Float.{Float}
use fadvisor.Cloud.{BaseInstancePrice, CloudPodSpec, Pricer, serverless_kind}
use fadvisor.Coster.{WorkloadRecommendedData, CosterContext, asked, price_of, hours}
use fadvisor.Coster.Sums.{sum_from, sum_from-append, listed_price, PodAnswers}
use fadvisor.Coster.Recommender.{
  RecommendedCost, RecTotals, cost_of, workload_costing, add_workload, add_optional, current_costs,
  current_kinds, rec_round, rec_costs, rec_kinds, with_platform, recommender_total_cost,
}

module _ {F : Type 0} ⦃fl : Float F⦄ where
  open fl use {mul, of_int}

  -- A price times the hours, and times the hours again; 0 times the hours without a price.
  abbrev pub charge_twice : F → List F → List F
  charge_twice h [] = mul (of_int 0) h ∷ []
  charge_twice h (p ∷ ps) = mul (mul p h) h ∷ []

module _ {F Q : Type 0} ⦃fl : Float F⦄ (pricer : Pricer F Q) (h : F) where
  open fl use {add, mul, of_int}

  abbrev pub bill : Option (CloudPodSpec Q) → List F
  bill none = []
  bill (some spec) = charge_twice h (listed_price (pricer.serverless_pod_price spec))

  abbrev pub bills :
      (WorkloadRecommendedData Q → Option (CloudPodSpec Q))
      → Dict (WorkloadRecommendedData Q)
      → List F
  bills choice [] = []
  bills choice ((nn, w) ∷ rest) = bill (choice w) ++ bills choice rest

  -- Those of all kinds but daemon sets.
  abbrev pub all_bills :
      (String → String)
      → (WorkloadRecommendedData Q → Option (CloudPodSpec Q))
      → Dict (Dict (WorkloadRecommendedData Q))
      → List F
  all_bills to_lower choice [] = []
  all_bills to_lower choice ((kind, recs) ∷ kinds) =
      let rest = all_bills to_lower choice kinds in
      if to_lower kind =s= "daemonset" then rest else bills choice recs ++ rest

  module _ (answers : PodAnswers pricer) where
    add_workload_lem :
        (spec : CloudPodSpec Q) (total : F)
        → add_workload pricer h total spec ≡ ok (sum_from total (bill (some spec)))
    unfolding add_workload workload_costing asked price_of cost_of
    add_workload_lem spec total = go (pricer.serverless_pod_price spec) (answers spec)
      where
        go :
            (c : Outcome BaseInstancePrice)
            → c ≢ panic
            → ((asked c >>= λ p. ok (cost_of h p)) >>= λ c. ok (add total (mul c h)))
              ≡ ok (sum_from total (charge_twice h (listed_price c)))
        go (ok c) calm = ground arith
        go (err e) calm = refl
        go panic calm = absurd (calm refl)

    add_optional_lem :
        (spec : Option (CloudPodSpec Q)) (total : F)
        → add_optional pricer h total spec ≡ ok (sum_from total (bill spec))
    unfolding add_optional
    add_optional_lem none total = refl
    add_optional_lem (some spec) total = add_workload_lem spec total

    current_costs-answers :
        (specs : Dict (CloudPodSpec Q)) (total : F)
        → (t : F) × (current_costs pricer h specs total ≡ ok t)
    unfolding current_costs
    current_costs-answers [] total = (total, refl)
    current_costs-answers ((nn, spec) ∷ specs) total =
        let (u, d) = current_costs-answers specs (sum_from total (bill (some spec))) in
        (u, ground (arith, add_workload_lem spec total, d))

    current_kinds-answers :
        (kinds : Dict (Dict (CloudPodSpec Q))) (total : F)
        → (t : F) × (current_kinds pricer h kinds total ≡ ok t)
    unfolding current_kinds
    current_kinds-answers [] total = (total, refl)
    current_kinds-answers ((kind, specs) ∷ kinds) total =
        let (t, e) = current_costs-answers specs total in
        let (u, d) = current_kinds-answers kinds t in (u, ground (arith, e, d))

    -- The four sums after some more bills of each.
    abbrev advance :
        ((WorkloadRecommendedData Q → Option (CloudPodSpec Q)) → List F) → RecTotals F → RecTotals F
    advance more t = record {
      recommended = sum_from t.recommended (more (λ w. some w.recommended_spec));
      max_recommended = sum_from t.max_recommended (more (λ w. w.max_recommended_spec));
      max_margin = sum_from t.max_margin (more (λ w. w.max_margin_recommended_spec));
      percent = sum_from t.percent (more (λ w. w.percent_recommended_spec));
    }

    advance-append :
        (xs ys : (WorkloadRecommendedData Q → Option (CloudPodSpec Q)) → List F) (t : RecTotals F)
        → advance ys (advance xs t) ≡ advance (λ choice. xs choice ++ ys choice) t
    advance-append xs ys t =
        rw
          (
            sum_from-append t.recommended (xs (λ w. some w.recommended_spec))
                (ys (λ w. some w.recommended_spec)),
            sum_from-append t.max_recommended (xs (λ w. w.max_recommended_spec))
                (ys (λ w. w.max_recommended_spec)),
            sum_from-append t.max_margin (xs (λ w. w.max_margin_recommended_spec))
                (ys (λ w. w.max_margin_recommended_spec)),
            sum_from-append t.percent (xs (λ w. w.percent_recommended_spec))
                (ys (λ w. w.percent_recommended_spec)),
          )
          refl

    rec_round_lem :
        (w : WorkloadRecommendedData Q) (t : RecTotals F)
        → rec_round pricer h w t ≡ ok (advance (λ choice. bill (choice w)) t)
    unfolding rec_round
    rec_round_lem w t =
        rw
          (
            add_workload_lem w.recommended_spec t.recommended,
            add_optional_lem w.max_recommended_spec t.max_recommended,
            add_optional_lem w.max_margin_recommended_spec t.max_margin,
            add_optional_lem w.percent_recommended_spec t.percent,
          )
          refl

    rec_costs_lem :
        (recs : Dict (WorkloadRecommendedData Q)) (t : RecTotals F)
        → rec_costs pricer h recs t ≡ ok (advance (λ choice. bills choice recs) t)
    unfolding rec_costs
    rec_costs_lem [] t = refl
    rec_costs_lem ((nn, w) ∷ rest) t =
        let once =
          λ (choice : WorkloadRecommendedData Q → Option (CloudPodSpec Q)). bill (choice w) in
        rw (rec_round_lem w t) (
          rec_costs_lem rest (advance once t)
          ∙ ap ok (advance-append once (λ choice. bills choice rest) t))

    rec_kinds_lem :
        (to_lower : String → String) (kinds : Dict (Dict (WorkloadRecommendedData Q)))
        (t : RecTotals F)
        → rec_kinds to_lower pricer h kinds t
          ≡ ok (advance (λ choice. all_bills to_lower choice kinds) t)
    unfolding rec_kinds
    rec_kinds_lem to_lower [] t = refl
    rec_kinds_lem to_lower ((kind, recs) ∷ kinds) t =
        elim (Bool-cases (to_lower kind =s= "daemonset")) [
          | inl daemon ↦ rw (daemon) (rec_kinds_lem to_lower kinds t)
          | inr other ↦
              let own = λ (choice : WorkloadRecommendedData Q → Option (CloudPodSpec Q)).
                bills choice recs in
              rw (other, rec_costs_lem recs t)
                (rec_kinds_lem to_lower kinds (advance own t)
                  ∙ ap ok (advance-append own (λ choice. all_bills to_lower choice kinds) t))
        ]

module _ {F Q : Type 0} ⦃fl : Float F⦄ where
  open fl use {add, mul, div, of_int}

  -- If the pricer always answers, the recommender returns four costs, from the recommended
  -- specifications, those of the percentile, of the maximum and of the maximum with a margin, in
  -- this order. The workloads' part of each is the sum over all recommendations but those of daemon
  -- sets, in the order of the maps: of the price times the hours of the time span, and times these
  -- hours once more; without a price, of 0 times the hours; without a specification, of nothing. The
  -- total adds the price of the serverless platform. The current specifications add nothing.
  pub recommender_total_cost_lem :
      (to_lower : String → String) (ctx : CosterContext F Q)
      → PodAnswers ctx.pricer
      → let h = div (of_int ctx.time_span_seconds) (of_int 3600) in
        let platform : F =
          (ctx.pricer.platform_price (record {
            nodes = none;
            cluster_level = none;
            platform = serverless_kind;
          })).total_price in
        let cost : (WorkloadRecommendedData Q → Option (CloudPodSpec Q)) → RecommendedCost F =
          λ choice.
            let workloads =
              sum_from (of_int 0) (all_bills ctx.pricer h to_lower choice ctx.workloads_rec_spec) in
            record {
              total_cost = add workloads platform;
              platform_cost = platform;
              workload_cost = workloads;
            } in
        recommender_total_cost to_lower ctx
        ≡ ok (record {
          rec_cost = cost (λ w. some w.recommended_spec);
          percent_cost = cost (λ w. w.percent_recommended_spec);
          max_rec_cost = cost (λ w. w.max_recommended_spec);
          max_margin_cost = cost (λ w. w.max_margin_recommended_spec);
        })
  unfolding recommender_total_cost hours with_platform
  recommender_total_cost_lem to_lower ctx answers =
      let h = div (of_int ctx.time_span_seconds) (of_int 3600) in
      let (u, made) = current_kinds-answers ctx.pricer h answers ctx.workloads_spec (of_int 0) in
      rw (made, rec_kinds_lem ctx.pricer h answers to_lower ctx.workloads_rec_spec _) refl
