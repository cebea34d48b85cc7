-- ===== src/Comparator/Fetch/Laws.antt =====
-- Which workloads get series, and what a missing checkpoint file comes to.
use fadvisor.Prelude.{
  ◌≡◌, ◌≢◌, ◌↔◌, inl, inr, refl, sym, ap, ◌∙◌, Bool, true, false, Option, none, some, List, String,
  ◌=s=◌, arith, if◌then◌else◌,
}
use fadvisor.Prelude.Outcome.{Outcome, ok, err, panic, ◌>>=◌, Outcome-cases}
use fadvisor.Float.{Float}
use fadvisor.Kube.Owner.{Object}
use fadvisor.Metric.{Selectors, Metric, WorkloadNamerInfo}
use fadvisor.Metric.Naming.{workload_metric_namer}
use fadvisor.Metric.Prometheus.{
  build_query, query_of_type, workload_query, workload_query_by_name, replicas_query,
}
use fadvisor.Comparator.Checkpoint.{ContainerCache, WorkloadCache}
use fadvisor.Comparator.Checkpoint.Load.{load_workload_lines}
use fadvisor.Comparator.Fetch.{Range, DataSource, fetch_workload, workload_ts_data_init, init}

panic_ne : {A : Type 0} {a : A} → panic ≢ ok a
panic_ne e = cc

err_ne : {A : Type 0} {a : A} {e : String} → err e ≢ ok a
err_ne e = cc

module _ {F : Type 0} ⦃fl : Float F⦄ where
  not_started :
      (containers : ContainerCache F) (stored : Outcome (List (List String)))
      (write : List (List String) → Option String) (fetched : Outcome (WorkloadCache F))
      (caches : ContainerCache F × WorkloadCache F) (e : String)
      → (stored >>= load_workload_lines {F = F}) ≡ err e
      → init true (ok (containers, none)) (workload_ts_data_init false stored write fetched)
        ≢ ok caches
  unfolding init workload_ts_data_init
  not_started containers stored write (ok w) caches e o = rw (workload_ts_data_init, o) (λ h. cc)
  not_started containers stored write (err f) caches e o = rw (workload_ts_data_init, o) (λ h. cc)
  not_started containers stored write panic caches e o = rw (workload_ts_data_init, o) (λ h. cc)

  -- When the series of workloads are wanted and their checkpoints are switched off, and the series of
  -- the containers are there: `Init` goes on exactly if the checkpoint file of the workloads can be
  -- loaded. Where it cannot, the process ends whatever the data source answers, since
  -- `WorkloadTsDataInit` returns the error of the file beside the series that it fetched.
  pub init_lem :
      (containers : ContainerCache F) (stored : Outcome (List (List String)))
      (write : List (List String) → Option String) (fetched : Outcome (WorkloadCache F))
      → ((caches : ContainerCache F × WorkloadCache F) × (init true
              (ok (containers, none))
              (workload_ts_data_init false stored write fetched)
            ≡ ok caches))
        ↔ ((loaded : WorkloadCache F) × ((stored >>= load_workload_lines {F = F}) ≡ ok loaded))
  unfolding init workload_ts_data_init
  init_lem containers stored write fetched =
      elim (Outcome-cases (stored >>= load_workload_lines {F = F})) [
        | inl p ↦
            rw (workload_ts_data_init, p)
              ((λ s. absurd (panic_ne s.1)), (λ s. absurd (panic_ne s.1)))
        | inr (inl (loaded, o)) ↦
            ((λ s. (loaded, o)), (λ s. ((containers, loaded), ground (arith, o))))
        | inr (inr (e, o)) ↦ (
          (λ s. absurd (not_started containers stored write fetched s.0 e o s.1)),
          (λ s. absurd (err_ne (sym o ∙ s.1))),
        )
      ]

-- The four kinds whose replicas can be queried.
abbrev pub is_countable : String → Bool
is_countable kind =
    if kind =s= "deployment"
    then true
    else if kind =s= "statefulset"
    then true
    else if kind =s= "statefulsetplus"
    then true
    else kind =s= "daemonset"

first_fails :
    {A B : Type 0} (m : Outcome A) (f : A → Outcome B)
    → m ≢ panic
    → ((a : A) → (e : String) × (f a ≡ err e))
    → (e : String) × ((m >>= f) ≡ err e)
first_fails (ok a) f n h = h a
first_fails (err e) f n h = (e, refl)
first_fails panic f n h = absurd (n refl)

module _ {S F : Type 0} (lib : Selectors S) (source : DataSource S F) (clusterid : String) where
  -- A source that asks Prometheus fails where no query can be built.
  abbrev pub AsksPrometheus : Bool → Type 0
  AsksPrometheus federated =
      (m : Metric S) (range : Range) (e : String)
      → build_query lib federated m ≡ err e
      → (f : String) × (source.query_time_series m range ≡ err f)

  abbrev pub NeverPanics : Type 0
  NeverPanics = (m : Metric S) (range : Range) → source.query_time_series m range ≢ panic

  uncountable :
      (federated : Bool) (w : WorkloadNamerInfo S)
      → is_countable (lib.to_lower w.kind) ≡ false
      → replicas_query lib federated w ≡ err "metric type do not support workload kind"
  unfolding replicas_query
  uncountable federated w h = ground (arith, h)

  abbrev or_no_info :
      (WorkloadNamerInfo S → Outcome String) → Option (WorkloadNamerInfo S) → Outcome String
  or_no_info f none = err "metric type, but no WorkloadNamerInfo provided"
  or_no_info f (some w) = f w

  replicas_query-eq_err :
      (federated : Bool) (target : Object)
      → lib.to_lower "replicas" ≡ "replicas"
      → is_countable (lib.to_lower target.kind) ≡ false
      → (e : String) × (build_query lib federated
            (workload_metric_namer lib clusterid target "replicas" (some lib.everything))
          ≡ err e)
  unfolding build_query query_of_type workload_query workload_query_by_name workload_metric_namer
  replicas_query-eq_err federated target l h =
      let m = workload_metric_namer lib clusterid target "replicas" (some lib.everything) in
      (
        "metric type do not support workload kind",
        ap (λ n. or_no_info (λ w. workload_query_by_name lib federated n w) m.workload) l
            ∙ uncountable federated _ h,
      )

  -- A workload whose kind is none of the four that can be counted gets no time series at all, not
  -- even of its usage: the query for its replicas cannot be built, so its round ends with an error
  -- whatever the source answers. The source asks Prometheus and never panics.
  pub fetch_workload_uncountable :
      (federated : Bool) (target : Object) (range : Range)
      → AsksPrometheus federated
      → NeverPanics
      → lib.to_lower "replicas" ≡ "replicas"
      → is_countable (lib.to_lower target.kind) ≡ false
      → (e : String) × (fetch_workload lib source clusterid range target ≡ err e)
  unfolding fetch_workload
  fetch_workload_uncountable federated target range asks calm l h =
      let (e, no_query) = replicas_query-eq_err federated target l h in
      let (f, fails) = asks _ range e no_query in
      first_fails (source.query_time_series _ range) _ (calm _ range) (λ cpu.
        first_fails (source.query_time_series _ range) _ (calm _ range) (λ mem.
          first_fails (source.query_time_series _ range) _ (calm _ range) (λ cpu_req.
            first_fails (source.query_time_series _ range) _ (calm _ range) (λ cpu_lim.
              first_fails (source.query_time_series _ range) _ (calm _ range) (λ mem_req.
                first_fails (source.query_time_series _ range) _ (calm _ range)
                  (λ mem_lim. (f, rw fails refl)))))))
