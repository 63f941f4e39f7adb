-- ===== src/Metrics/Scraper.antt =====
-- The queries of the Prometheus instances, pkg/metrics/scraper.go: the CPU utilization of a workload,
-- its breaches and its pod ready latency, with the time that an upscale takes. The goroutines of a
-- query send one result each; `arrive` gives the instances in the order of their results.
pub mod Fetching
pub mod Latency
use ottoscalr.Prelude.{
  ℕ, ℤ, pos, ◌*ℤ◌, wrap, String, Bool, ◌==◌, List, [], ◌∷◌, if◌then◌else◌, ◌<>◌,
}
use ottoscalr.Result.{Result, ok, err, panic, Err, failed, ◌>>=◌}
use ottoscalr.Api.{Time}
use ottoscalr.Float.{Float64, DataPoint}
use ottoscalr.Metrics.Series.{aggregate_metrics, interpolate_missing_data_points}
use ottoscalr.Metrics.Ranges.{QueryRange, SampleStream, Matrix, query_range_by_interval}
use ottoscalr.Metrics.Queries.{
  CompositeQuery, Labels, render_cpu_utilization, render_cpu_utilization_breach,
  render_pod_ready_latency,
}

-- `model.Value` of an instant query: a vector, given by the values of its samples, or another type.
pub data InstantValue (F : Type 0) : Type 0 where
  vector : List F → InstantValue F
  other_value : InstantValue F

-- A Prometheus instance: the answers of its API, and the order in which those to the parts of a
-- range query arrive.
pub record PrometheusInstance (F : Type 0) : Type 0 where
  pub address : String
  pub query_range : String → QueryRange → Result (Matrix F)
  pub arrive_ranges : List QueryRange → List QueryRange
  pub query : String → Result (InstantValue F)

pub record PrometheusScraper (F : Type 0) : Type 0 where
  pub api : List (PrometheusInstance F)  -- nil when it is empty
  pub split_interval : ℕ
  pub metric_ingestion_time : F
  pub metric_probe_time : F
  pub queries : CompositeQuery

-- The samples whose timestamp is not the zero time.
unfoldable pub points_of : {F : Type 0} → List (Time × F) → List (DataPoint F)
points_of [] = []
points_of ((t, v) ∷ rest) =
    let points = points_of rest in
    if t == 0 then points else record { timestamp = t; value = v } ∷ points

abbrev pub no_api : Err
no_api = failed "no apiurl for executing prometheus query"

abbrev pub deployment_labels : (namespace workload : String) → Labels
deployment_labels namespace workload =
    ("namespace", namespace) ∷ ("workload", workload) ∷ ("workload_type", "deployment") ∷ []

abbrev pub breach_labels : (namespace workload_type workload : String) → Labels
breach_labels namespace workload_type workload =
    ("namespace", namespace)
    ∷ ("workload", workload)
    ∷ ("workload_type", "deployment")
    ∷ ("owner_kind", workload_type)
    ∷ ("owner_name", workload)
    ∷ ("scaletargetref_kind", workload_type)
    ∷ ("scaletargetref_name", workload)
    ∷ []

module _ {F : Type 0} (fl : Float64 F) (sort_slice_stable : List (DataPoint F) → List (DataPoint F))
    (range : Labels → Labels) (error_text : Err → String) (ps : PrometheusScraper F) where
  -- What a goroutine sends; nil is the empty list. The value is always a matrix here.
  unfoldable pub received : Result (Matrix F) → Result (List (DataPoint F))
  unfolding points_of
  received (ok []) = ok []
  received (ok (series ∷ [])) = ok (sort_slice_stable (points_of series.values))
  received (ok (series ∷ other ∷ more)) = ok []
  received (err e) = ok []
  received panic = panic

  abbrev pub ranged : String → Time → Time → ℕ → PrometheusInstance F → Result (Matrix F)
  ranged query start end step pi =
      query_range_by_interval (pi.query_range query) pi.arrive_ranges ps.split_interval step start
        end

  unfoldable pub receive_each :
      List (PrometheusInstance F) → String → Time → Time → ℕ → List (Result (List (DataPoint F)))
  unfolding received
  receive_each [] query start end step = []
  receive_each (pi ∷ rest) query start end step =
      received (ranged query start end step pi) ∷ receive_each rest query start end step

  -- The loop over the channel.
  unfoldable pub aggregate_each :
      List (DataPoint F) → List (Result (List (DataPoint F))) → Result (List (DataPoint F))
  aggregate_each total [] = ok total
  aggregate_each total (r ∷ rest) =
      r >>= λ points. aggregate_each (aggregate_metrics fl total points) rest

  -- The part of the two range queries that they share.
  unfoldable pub fetch :
      (List (PrometheusInstance F) → List (PrometheusInstance F))
      → List (PrometheusInstance F)
      → String
      → Time
      → Time
      → ℕ
      → Result (List (DataPoint F))
  unfolding receive_each aggregate_each
  fetch arrive [] query start end step = err no_api
  fetch arrive (pi ∷ rest) query start end step =
      aggregate_each [] (receive_each (arrive (pi ∷ rest)) query start end step)

  unfoldable pub interpolate_or_fail : ℕ → List (DataPoint F) → Result (List (DataPoint F))
  interpolate_or_fail step [] =
      err
        (failed "unable to getCPUUtlizationDataPoints metrics from any of the prometheus instances")
  interpolate_or_fail step (p ∷ rest) = interpolate_missing_data_points fl (p ∷ rest) step

  unfoldable pub get_average_cpu_utilization_by_workload :
      (List (PrometheusInstance F) → List (PrometheusInstance F))
      → (namespace workload : String) → Time
      → Time
      → ℕ
      → Result (List (DataPoint F))
  unfolding fetch interpolate_or_fail
  get_average_cpu_utilization_by_workload arrive namespace workload start end step = do
    query ← render_cpu_utilization range ps.queries (deployment_labels namespace workload)
    total ← fetch arrive ps.api query start end step
    interpolate_or_fail step total

  -- The first text is the threshold as `%.2f` prints it. No data points are no breach.
  unfoldable pub get_cpu_utilization_breach_data_points :
      (List (PrometheusInstance F) → List (PrometheusInstance F))
      → (red_line namespace workload_type workload : String) → Time
      → Time
      → ℕ
      → Result (List (DataPoint F))
  unfolding fetch
  get_cpu_utilization_breach_data_points arrive red_line namespace workload_type workload start end
        step =
      do
        query ←
            render_cpu_utilization_breach range ps.queries red_line
              (breach_labels namespace workload_type workload)
        fetch arrive ps.api query start end step

  -- A round of the loop over the instances; an error or an unexpected value is passed over.
  unfoldable pub later_latency : F → Result (InstantValue F) → Result F
  later_latency latency (ok (vector [])) = ok latency
  later_latency latency (ok (vector (v ∷ []))) = ok (fl.maximum latency v)
  later_latency latency (ok (vector (v ∷ w ∷ more))) = ok latency
  later_latency latency (ok other_value) = ok latency
  later_latency latency (err e) = ok latency
  later_latency latency panic = panic

  unfoldable pub greatest_latency : F → String → List (PrometheusInstance F) → Result F
  unfolding later_latency
  greatest_latency latency query [] = ok latency
  greatest_latency latency query (pi ∷ rest) =
      later_latency latency (pi.query query) >>= λ next. greatest_latency next query rest

  abbrev zero_latency : F
  zero_latency = fl.of_int (pos 0)

  known_latency : F → Result F
  known_latency latency =
      if fl.equal latency zero_latency
      then err (failed "unable to getPodReadyLatency metrics from any of the prometheus instances")
      else ok latency

  unfoldable pub query_latency : List (PrometheusInstance F) → String → Result F
  unfolding greatest_latency known_latency
  query_latency [] query = err no_api
  query_latency (pi ∷ rest) query =
      greatest_latency zero_latency query (pi ∷ rest) >>= known_latency

  unfoldable pub get_pod_ready_latency_by_workload : (namespace workload : String) → Result F
  unfolding query_latency
  get_pod_ready_latency_by_workload namespace workload = do
    query ← render_pod_ready_latency range ps.queries (deployment_labels namespace workload)
    query_latency ps.api query

  -- Nanoseconds, in a `time.Duration`.
  acl_of : Result F → Result ℤ
  acl_of (ok latency) = ok (
      wrap 64 (
        fl.to_int (fl.add (fl.add ps.metric_ingestion_time ps.metric_probe_time) latency)
        *ℤ pos 1000000000))
  acl_of (err e) = err (failed ("error getting pod bootstrap time: " <> error_text e))
  acl_of panic = panic

  unfoldable pub get_acl_by_workload : (namespace workload : String) → Result ℤ
  unfolding acl_of get_pod_ready_latency_by_workload
  get_acl_by_workload namespace workload =
      acl_of (get_pod_ready_latency_by_workload namespace workload)
