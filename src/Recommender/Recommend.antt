-- ===== src/Recommender/Recommend.antt =====
-- `Recommend`, `getMaxPods` and `isMetricsAboveThreshold` of pkg/reco/reco.go. The scraper, the
-- transformers, the registered clients and the autoscaler client are the fields of `Sources`: each
-- holds the answer that the call returns.
pub mod Sound
use ottoscalr.Result.{
  Result, ok, err, panic, Err, not_found, failed, ◌>>=◌, >>=-eq-ok, Result-cases, is_not_found,
  unable_to_recommend,
}
use ottoscalr.Prelude.{
  ℕ, zero, suc, ◌+◌, ◌-◌, ◌*◌, ◌/◌, ◌%◌, ◌^◌, ◌≤◌, ◌<◌, ℤ, pos, negsuc, ◌≤ℤ◌, ◌<ℤ◌, ◌==ℤ◌, leb_ℤ,
  ltb_ℤ, ltb, leb, ◌==◌, String, str_eq, eq_iff, Bool, true, false, not, ◌&&◌, ◌||◌, Option, none,
  some, List, [], ◌∷◌, ◌++◌, if◌then◌else◌, ◌≡◌, ◌≢◌, ◌↔◌, ◌⊎◌, refl, sym, ap, ◌∙◌, subst, inl, inr,
  arith, Bool-cases, Option-cases, All, length, Mem, Perm, quotient,
}
use ottoscalr.Api.{HpaConfiguration}
use ottoscalr.Float.{Float64, DataPoint}
use ottoscalr.Recommender.Simulation.{Settings}
use ottoscalr.Recommender.Optimum.{find_optimal_hpa_configurations}

-- `registry.ObjectClient`, as far as the recommender asks it about one workload.
pub record ObjectClient (F : Type 0) : Type 0 where
  pub max_replica_from_annotation : Result ℤ
  pub replica_count : Result ℤ
  pub container_resource_limits : Result F

pub record Sources (F : Type 0) : Type 0 where
  pub average_cpu_utilization : Result (List (DataPoint F))
  pub object_client : Result (ObjectClient F)  -- GetObjectClient of the registry
  pub autoscaler_max_replicas : Result (List ℤ)  -- GetMaxReplicaCount of each object of GetList
  pub transformers : List (List (DataPoint F) → Result (List (DataPoint F)))
  pub acl : Result ℕ

pub record Config (F : Type 0) : Type 0 where
  pub red_line_util : F
  pub metric_window_seconds : ℤ
  pub metric_step_seconds : ℤ
  pub min_target : ℤ
  pub max_target : ℤ
  pub metrics_percentage_threshold : ℤ

-- The first autoscaler's maximum, unless there is none or it is 0.
unfoldable pub first_max_or : List ℤ → Result ℤ → Result ℤ
first_max_or [] otherwise = otherwise
first_max_or (m ∷ _) otherwise = if m ==ℤ pos 0 then otherwise else ok m

-- An error of `GetList` that is not a not-found error ends the search; a not-found list is empty.
unfoldable pub listed_max_or : Result (List ℤ) → Result ℤ → Result ℤ
unfolding first_max_or
listed_max_or (ok l) otherwise = first_max_or l otherwise
listed_max_or (err e) otherwise =
    if is_not_found e then otherwise else err (failed "unable to fetch autoscaler objects")
listed_max_or panic otherwise = panic

unfoldable pub annotated_or : Result ℤ → Result ℤ → Result ℤ
annotated_or (ok m) otherwise = ok m
annotated_or (err e) otherwise = otherwise
annotated_or panic otherwise = panic

unfoldable pub supported {ℓ} : {A : Type ℓ} → Result A → Result A
supported (ok a) = ok a
supported (err e) = err (failed "unsupported objectKind")
supported panic = panic

module _ {F : Type 0} (fl : Float64 F) (cfg : Config F) (src : Sources F) where
  unfoldable pub get_max_pods : Result ℤ
  unfolding supported annotated_or listed_max_or
  get_max_pods = do
    client ← supported src.object_client
    annotated_or client.max_replica_from_annotation
        (listed_max_or src.autoscaler_max_replicas client.replica_count)

  unfoldable pub get_container_cpu_limits_sum : Result F
  unfolding supported
  get_container_cpu_limits_sum = do
    client ← supported src.object_client
    client.container_resource_limits

  -- `int(c.metricWindow.Seconds()) / int(c.metricStep.Seconds())`: a division by zero panics.
  unfoldable pub is_metrics_above_threshold : List (DataPoint F) → Result Bool
  is_metrics_above_threshold data_points =
      let total = quotient cfg.metric_window_seconds cfg.metric_step_seconds in
      let fetched =
        fl.mul (fl.div (fl.of_int (pos (length data_points))) (fl.of_int total))
          (fl.of_int (pos 100)) in
      if cfg.metric_step_seconds ==ℤ pos 0
      then panic
      else ok (not (ltb_ℤ (fl.to_int fetched) cfg.metrics_percentage_threshold))

  unfoldable pub transform_all :
      List (List (DataPoint F) → Result (List (DataPoint F)))
      → List (DataPoint F)
      → Result (List (DataPoint F))
  transform_all [] data_points = ok data_points
  transform_all (t ∷ rest) data_points = t data_points >>= transform_all rest

  -- Minimum and maximum at the workload's maximum, with the least target.
  unfoldable pub no_op_configuration : ℤ → HpaConfiguration
  no_op_configuration max_pods = record {
    min = max_pods;
    max = max_pods;
    target_metric_value = cfg.min_target;
  }

  found_or_no_op : ℤ → Result (ℤ × ℤ × ℤ) → Result HpaConfiguration
  found_or_no_op max_pods (ok (target, min, max)) =
      ok (record { min = min; max = max; target_metric_value = target })
  found_or_no_op max_pods (err unable_to_recommend) = ok (no_op_configuration max_pods)
  found_or_no_op max_pods (err e) = err e
  found_or_no_op max_pods panic = panic

  -- The part of `Recommend` behind the test of the number of data points.
  unfoldable pub recommend_from : ℤ → List (DataPoint F) → Result HpaConfiguration
  unfolding found_or_no_op
  recommend_from max_pods data_points = do
    cleaned ← transform_all src.transformers data_points
    acl ← src.acl
    per_pod ← get_container_cpu_limits_sum
    found_or_no_op max_pods (
        find_optimal_hpa_configurations fl
          (record {
            red_line_util = cfg.red_line_util;
            acl = acl;
            per_pod_resources = per_pod;
            max_replicas = max_pods;
          })
          cleaned cfg.min_target cfg.max_target)

  unfoldable pub recommend : Result HpaConfiguration
  recommend = do
    data_points ← src.average_cpu_utilization
    max_pods ← get_max_pods
    enough ← is_metrics_above_threshold data_points
    if enough then recommend_from max_pods data_points else ok (no_op_configuration max_pods)
