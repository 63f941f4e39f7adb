-- ===== src/Metrics/Scraper/Latency.antt =====
-- Panics, and the order of the instances, in the queries of pkg/metrics/scraper.go.
use mathlib.Core.List.Perm
use mathlib.Core.List.{foldr, mem-cons, not-mem-nil}
use mathlib.Core.Logic.Or
use ottoscalr.Prelude.{
  ℕ, ◌<◌, pos, String, List, [], ◌∷◌, ◌≡◌, ◌≢◌, refl, sym, ap, ◌∙◌, arith, Perm, Mem, if◌then◌else◌,
  subst,
}
use ottoscalr.Result.{Result, ok, err, panic, Err, ◌>>=◌}
use ottoscalr.Float.{Float64, DataPoint}
use ottoscalr.Metrics.Series.{interpolate_missing_data_points}
use ottoscalr.Metrics.Queries.{
  Labels, prometheus_queries, render_cpu_utilization, render_pod_ready_latency, render_named,
}
use ottoscalr.Metrics.Scraper.{
  fetch, interpolate_or_fail, PrometheusInstance, PrometheusScraper, InstantValue, vector,
  other_value, later_latency, greatest_latency, query_latency, get_pod_ready_latency_by_workload,
  get_acl_by_workload, get_average_cpu_utilization_by_workload, failed, known_latency, acl_of, Time,
  ranged, deployment_labels,
}
use ottoscalr.Metrics.Scraper.Fetching.{MaximumLaws, SortsStably, fetch-greatest}

module _ {F : Type 0} (fl : Float64 F) (laws : MaximumLaws fl) where
  -- The latency behind an answer.
  abbrev join : Result (InstantValue F) → F → F
  join (ok (vector [])) l = l
  join (ok (vector (v ∷ []))) l = fl.maximum l v
  join (ok (vector (v ∷ w ∷ more))) l = l
  join (ok other_value) l = l
  join (err e) l = l
  join panic l = l

  maximum_swap : (l v w : F) → fl.maximum (fl.maximum l w) v ≡ fl.maximum (fl.maximum l v) w
  maximum_swap l v w =
      laws.maximum_assoc l w v
      ∙ ap (fl.maximum l) (laws.maximum_comm w v)
      ∙ sym (laws.maximum_assoc l v w)

  join_comm : (a b : Result (InstantValue F)) (l : F) → join a (join b l) ≡ join b (join a l)
  join_comm (ok (vector (v ∷ []))) (ok (vector (w ∷ []))) l = maximum_swap l v w
  join_comm a b l = refl

  module _ (sort : List (DataPoint F) → List (DataPoint F)) (range : Labels → Labels)
      (error_text : Err → String) (ps : PrometheusScraper F) (query : String) where
    later_latency-join :
        (l : F) (r : Result (InstantValue F))
        → r ≢ panic
        → later_latency fl sort range error_text ps l r ≡ ok (join r l)
    unfolding later_latency
    later_latency-join l (ok (vector [])) h = refl
    later_latency-join l (ok (vector (v ∷ []))) h = refl
    later_latency-join l (ok (vector (v ∷ w ∷ more))) h = refl
    later_latency-join l (ok other_value) h = refl
    later_latency-join l (err e) h = refl
    later_latency-join l panic h = absurd (h refl)

    abbrev joined : F → List (PrometheusInstance F) → F
    joined l api = foldr (λ pi k. join (pi.query query) k) l api

    joined-join :
        (r : Result (InstantValue F)) (l : F) (api : List (PrometheusInstance F))
        → joined (join r l) api ≡ join r (joined l api)
    joined-join r l [] = refl
    joined-join r l (pi ∷ rest) =
        ap (join (pi.query query)) (joined-join r l rest)
        ∙ join_comm (pi.query query) r (joined l rest)

    greatest_latency-joined :
        (l : F) (api : List (PrometheusInstance F))
        → ((pi : PrometheusInstance F) → Mem pi api → pi.query query ≢ panic)
        → greatest_latency fl sort range error_text ps l query api ≡ ok (joined l api)
    unfolding greatest_latency
    greatest_latency-joined l [] h = refl
    greatest_latency-joined l (pi ∷ rest) h =
        rw (later_latency-join l (pi.query query) (h pi (mem-cons.1 (Or.inl refl)))) (
          greatest_latency-joined (join (pi.query query) l) rest
            (λ i m. h i (mem-cons.1 (Or.inr m)))
          ∙ ap ok (joined-join (pi.query query) l rest))

    joined-perm :
        (l : F) (api others : List (PrometheusInstance F))
        → Perm api others
        → joined l api ≡ joined l others
    joined-perm l api others p =
        Perm.foldr-eq laws.float_set (λ pi k. join (pi.query query) k)
          (λ a b k. join_comm (a.query query) (b.query query) k) p l

    -- What becomes of the greatest latency.
    abbrev ended : F → Result F
    ended l =
        if fl.equal l (fl.of_int (pos 0))
        then err
            (failed "unable to getPodReadyLatency metrics from any of the prometheus instances")
        else ok l

    query_latency-joined :
        (pi : PrometheusInstance F) (rest : List (PrometheusInstance F))
        → ((i : PrometheusInstance F) → Mem i (pi ∷ rest) → i.query query ≢ panic)
        → query_latency fl sort range error_text ps (pi ∷ rest) query
          ≡ ended (joined (fl.of_int (pos 0)) (pi ∷ rest))
    unfolding query_latency known_latency
    query_latency-joined pi rest h =
        rw (greatest_latency-joined (fl.of_int (pos 0)) (pi ∷ rest) h) refl

  module _ (sort : List (DataPoint F) → List (DataPoint F)) (range : Labels → Labels)
      (error_text : Err → String) where
    query_latency-perm :
        (ps qs : PrometheusScraper F) (query : String) (api others : List (PrometheusInstance F))
        → Perm api others
        → ((pi : PrometheusInstance F) → Mem pi api → pi.query query ≢ panic)
        → query_latency fl sort range error_text ps api query
          ≡ query_latency fl sort range error_text qs others query
    unfolding query_latency
    query_latency-perm ps qs query [] [] p h = refl
    query_latency-perm ps qs query [] (i ∷ is) p h =
        absurd (not-mem-nil ((Perm.mem_iff p).1 (mem-cons.1 (Or.inl refl))))
    query_latency-perm ps qs query (i ∷ is) [] p h =
        absurd (not-mem-nil ((Perm.mem_iff p).0 (mem-cons.1 (Or.inl refl))))
    query_latency-perm ps qs query (i ∷ is) (j ∷ js) p h =
        query_latency-joined sort range error_text ps query i is h
        ∙ ap (ended sort range error_text ps query)
            (joined-perm sort range error_text ps query (fl.of_int (pos 0)) (i ∷ is) (j ∷ js) p)
        ∙ sym (
            query_latency-joined sort range error_text qs query j js
              (λ k m. h k ((Perm.mem_iff p).1 m)))

    latency_behind :
        (ps : PrometheusScraper F) (others : List (PrometheusInstance F)) (r : Result String)
        → Perm ps.api others
        → ((query : String) (pi : PrometheusInstance F) → Mem pi ps.api → pi.query query ≢ panic)
        → (r >>= query_latency fl sort range error_text ps ps.api)
          ≡ (r >>= query_latency fl sort range error_text (record ps { api = others }) others)
    latency_behind ps others (ok query) p h =
        query_latency-perm ps (record ps { api = others }) query ps.api others p (h query)
    latency_behind ps others (err e) p h = refl
    latency_behind ps others panic p h = refl

    acl_of-any_api :
        (ps : PrometheusScraper F) (others : List (PrometheusInstance F)) (r : Result F)
        → acl_of fl sort range error_text ps r
          ≡ acl_of fl sort range error_text (record ps { api = others }) r
    unfolding acl_of
    acl_of-any_api ps others (ok l) = refl
    acl_of-any_api ps others (err e) = refl
    acl_of-any_api ps others panic = refl

    -- Where no instant query panics, the upscale time of a workload, or the error, is the same for
    -- every order in which the instances are listed.
    pub get_acl_by_workload_any_order :
        (ps : PrometheusScraper F) (others : List (PrometheusInstance F))
        (namespace workload : String)
        → Perm ps.api others
        → ((query : String) (pi : PrometheusInstance F) → Mem pi ps.api → pi.query query ≢ panic)
        → get_acl_by_workload fl sort range error_text ps namespace workload
          ≡ get_acl_by_workload fl sort range error_text
              (record ps { api = others })
              namespace
              workload
    unfolding get_acl_by_workload get_pod_ready_latency_by_workload
    get_acl_by_workload_any_order ps others namespace workload p h =
        ap (acl_of fl sort range error_text ps) (
          latency_behind ps others
            (render_pod_ready_latency range ps.queries (deployment_labels namespace workload)) p h)
        ∙ acl_of-any_api ps others (
            get_pod_ready_latency_by_workload fl sort range error_text (record ps { api = others })
              namespace workload)

    interpolate_or_fail-ne-panic :
        (ps : PrometheusScraper F) (step : ℕ) (total : List (DataPoint F))
        → 0 < step
        → interpolate_or_fail fl sort range error_text ps step total ≢ panic
    unfolding interpolate_or_fail interpolate_missing_data_points
    interpolate_or_fail-ne-panic ps step [] h = λ e. cc
    interpolate_or_fail-ne-panic ps step (p ∷ []) h = λ e. cc
    interpolate_or_fail-ne-panic ps step (p ∷ q ∷ rest) h = ground arith

    module _ (sorts : SortsStably sort) (ps : PrometheusScraper F) (start end : Time)
        (step : ℕ) where
      behind_fetch :
          (arrive : List (PrometheusInstance F) → List (PrometheusInstance F))
          (api : List (PrometheusInstance F)) (query : String)
          → Perm (arrive api) api
          → 0 < step
          → ((i : PrometheusInstance F)
              → Mem i api
              → ranged fl sort range error_text ps query start end step i ≢ panic)
          → (fetch fl sort range error_text ps arrive api query start end step
              >>= interpolate_or_fail fl sort range error_text ps step)
            ≢ panic
      unfolding fetch
      behind_fetch arrive [] query p positive h = λ e. cc
      behind_fetch arrive (pi ∷ rest) query p positive h =
          let (out, made, asc, found) =
            fetch-greatest fl sort sorts range error_text ps laws query start end step arrive pi
              rest 1 p h (omega arith) in
          rw made (interpolate_or_fail-ne-panic ps step out positive)

      behind_render :
          (arrive : List (PrometheusInstance F) → List (PrometheusInstance F)) (r : Result String)
          → Perm (arrive ps.api) ps.api
          → 0 < step
          → ((query : String) (i : PrometheusInstance F)
              → Mem i ps.api
              → ranged fl sort range error_text ps query start end step i ≢ panic)
          → r ≢ panic
          → (r >>= λ query.
              fetch fl sort range error_text ps arrive ps.api query start end step
              >>= interpolate_or_fail fl sort range error_text ps step)
            ≢ panic
      behind_render arrive (ok query) p positive h n =
          behind_fetch arrive ps.api query p positive (h query)
      behind_render arrive (err e) p positive h n = λ k. cc
      behind_render arrive panic p positive h n = λ k. n refl

      rendered : (m : Labels) → render_cpu_utilization range prometheus_queries m ≢ panic
      unfolding render_cpu_utilization prometheus_queries render_named
      rendered m = λ k. cc

      -- For the queries of `NewPrometheusCompositeQueries` and a step above zero, where no range
      -- query panics, the CPU utilization is answered with data points or an error, and the
      -- function does not panic.
      pub get_average-ne-panic :
          (arrive : List (PrometheusInstance F) → List (PrometheusInstance F))
          (namespace workload : String)
          → ps.queries ≡ prometheus_queries
          → Perm (arrive ps.api) ps.api
          → 0 < step
          → ((query : String) (i : PrometheusInstance F)
              → Mem i ps.api
              → ranged fl sort range error_text ps query start end step i ≢ panic)
          → get_average_cpu_utilization_by_workload fl sort range error_text ps arrive namespace
              workload start end step
            ≢ panic
      unfolding get_average_cpu_utilization_by_workload
      get_average-ne-panic arrive namespace workload e p positive h =
          behind_render arrive
            (render_cpu_utilization range ps.queries (deployment_labels namespace workload)) p
            positive h
            (subst
              (λ qs. render_cpu_utilization range qs (deployment_labels namespace workload) ≢ panic)
              (sym e) (rendered (deployment_labels namespace workload)))
