-- ===== src/Examples/Recommending.antt =====
-- The recommender and the metrics on short series, with numbers of three decimals.
use ottoscalr.Prelude.{
  ℕ, ℤ, pos, ◌+ℤ◌, ◌-ℤ◌, div_trunc, List, [], ◌∷◌, ◌≡◌, ◌⊎◌, refl, arith, Mem, quotient,
}
use ottoscalr.Result.{ok, err, not_found}
use ottoscalr.Float.{DataPoint}
use ottoscalr.Recommender.Simulation.{
  Settings, simulate_hpa, simulate_all, simulate_rest, simulate_point, consume_timers,
  raised_target, has_no_breach_occurred,
}
use ottoscalr.Recommender.Optimum.{
  Probe, rounds, midpoint, moved, start_probe, probe_step, probe_loop, keep_best, calculate_savings,
  replicas_loop, find_optimal_hpa_configurations,
}
use ottoscalr.Recommender.Optimum.Probing.{Boundary, probe_loop-Boundary}
use ottoscalr.Recommender.Optimum.Unbeaten.{Unbeaten}
use ottoscalr.Recommender.Recommend.{
  ObjectClient, Sources, Config, get_max_pods, get_container_cpu_limits_sum,
  is_metrics_above_threshold, transform_all, recommend_from, recommend,
}
use ottoscalr.Recommender.Recommend.Sound.{FoundSafe, recommend-FoundSafe}
use ottoscalr.Metrics.Series.{interpolate_missing_data_points}
use ottoscalr.Metrics.Series.Filling.{Dense, interpolate-Dense}
use ottoscalr.Metrics.Ranges.{split_ranges}
use ottoscalr.Metrics.Ranges.Cover.{Covers, split_ranges-Covers}
use ottoscalr.Examples.{fixed_point, data_points, configuration}

abbrev settings : Settings ℕ
settings = record { red_line_util = 1000; acl = 60; per_pod_resources = 1000; max_replicas = pos 5 }

-- The simulation with the target 80 and the minimum 3.
abbrev simulated : List (DataPoint ℕ)
simulated = record { timestamp = 60; value = 3000 } ∷ record { timestamp = 120; value = 3000 } ∷ []

abbrev probe : Probe ℕ
probe = record { low = pos 81; high = pos 80; points = simulated; calculated_min = pos 3 }

probe_loop-Boundary_example :
    Boundary fixed_point settings data_points (pos 3) (pos 50) (pos 80) probe
unfolding find_optimal_hpa_configurations replicas_loop keep_best calculate_savings probe_loop
    probe_step start_probe moved midpoint rounds simulate_hpa simulate_all simulate_rest
    simulate_point consume_timers raised_target has_no_breach_occurred ◌+ℤ◌ ◌-ℤ◌ div_trunc
probe_loop-Boundary_example =
    probe_loop-Boundary fixed_point settings data_points (pos 3) (pos 50) (pos 80) probe
      (omega arith) refl

abbrev config : Config ℕ
config = record {
  red_line_util = 1000;
  metric_window_seconds = pos 120;
  metric_step_seconds = pos 60;
  min_target = pos 50;
  max_target = pos 80;
  metrics_percentage_threshold = pos 50;
}

abbrev object_client : ObjectClient ℕ
object_client = record {
  max_replica_from_annotation = err not_found;
  replica_count = ok (pos 5);
  container_resource_limits = ok 1000;
}

abbrev sources : Sources ℕ
sources = record {
  average_cpu_utilization = ok data_points;
  object_client = ok object_client;
  autoscaler_max_replicas = ok [];
  transformers = [];
  acl = ok 60;
}

recommend-FoundSafe_example :
    (max_pods : ℤ) × (get_max_pods fixed_point config sources ≡ ok max_pods)
    × (pos 5 ≡ max_pods)
    × ((((configuration 3 5 80).min ≡ max_pods)
          × ((configuration 3 5 80).target_metric_value ≡ config.min_target))
        ⊎ FoundSafe fixed_point config sources max_pods (configuration 3 5 80))
unfolding find_optimal_hpa_configurations replicas_loop keep_best calculate_savings probe_loop
    probe_step start_probe moved midpoint rounds simulate_hpa simulate_all simulate_rest
    simulate_point consume_timers raised_target has_no_breach_occurred ◌+ℤ◌ ◌-ℤ◌ div_trunc recommend
    recommend_from get_max_pods get_container_cpu_limits_sum is_metrics_above_threshold
    transform_all quotient
recommend-FoundSafe_example =
    recommend-FoundSafe fixed_point config sources (configuration 3 5 80) (omega arith)
      (omega arith) refl

-- A series with a gap of three intervals of 30.
abbrev sparse : List (DataPoint ℕ)
sparse = record { timestamp = 150; value = 5000 } ∷ []

abbrev first_point : DataPoint ℕ
first_point = record { timestamp = 60; value = 2000 }

interpolate-Dense_example :
    (filled : List (DataPoint ℕ)) × (interpolate_missing_data_points fixed_point
        (first_point ∷ sparse)
        30
      ≡ ok (first_point ∷ filled))
    × Dense 30 60 filled
    × ((p : DataPoint ℕ) → Mem p sparse → Mem p filled)
interpolate-Dense_example =
    interpolate-Dense fixed_point first_point sparse 30 (omega arith) ((omega arith, tt), (tt, tt))

split_ranges-Covers_example : Covers 40 5 100 190 (split_ranges 90 40 5 100 190)
split_ranges-Covers_example = split_ranges-Covers 40 5 100 190 (omega arith) (omega arith)
