-- ===== src/Recommender/Recommend/Sound.antt =====
-- What `Recommend` of pkg/reco/reco.go returns.
use ottoscalr.Result.{Result, ok, err, panic, >>=-eq-ok, unable_to_recommend}
use ottoscalr.Prelude.{
  ℕ, ℤ, pos, ◌≤ℤ◌, Bool, true, false, List, if◌then◌else◌, ◌≡◌, ◌⊎◌, sym, ap, subst, inl, inr, ◌+ℤ◌,
}
use ottoscalr.Api.{HpaConfiguration}
use ottoscalr.Float.{Float64, DataPoint}
use ottoscalr.Recommender.Simulation.{Settings}
use ottoscalr.Recommender.Optimum.{find_optimal_hpa_configurations}
use ottoscalr.Recommender.Optimum.Probing.{Tested}
use ottoscalr.Recommender.Optimum.Chosen.{find_optimal-ChosenBy}
use ottoscalr.Recommender.Recommend.{
  Sources, Config, get_max_pods, get_container_cpu_limits_sum, is_metrics_above_threshold,
  transform_all, no_op_configuration, found_or_no_op, recommend_from, recommend,
}

module _ {F : Type 0} (fl : Float64 F) (cfg : Config F) (src : Sources F) where
  abbrev settings : ℤ → ℕ → F → Settings F
  settings max_pods acl per_pod = record {
    red_line_util = cfg.red_line_util;
    acl = acl;
    per_pod_resources = per_pod;
    max_replicas = max_pods;
  }

  -- A configuration that the search over the cleaned data found safe, with the lag and the size of
  -- a pod that the sources answer.
  pub record FoundSafe (max_pods : ℤ) (h : HpaConfiguration) : Type 0 where
    pub fetched : List (DataPoint F)
    pub data_points : List (DataPoint F)
    pub acl : ℕ
    pub per_pod : F
    pub scraped : src.average_cpu_utilization ≡ ok fetched
    pub cleaned : transform_all fl cfg src src.transformers fetched ≡ ok data_points
    pub lag : src.acl ≡ ok acl
    pub limits : get_container_cpu_limits_sum fl cfg src ≡ ok per_pod
    pub at_least_one : pos 1 ≤ℤ h.min
    pub at_most_max : h.min ≤ℤ max_pods
    pub from : cfg.min_target ≤ℤ h.target_metric_value
    pub upto : h.target_metric_value ≤ℤ cfg.max_target
    pub safe :
        Tested fl (settings max_pods acl per_pod) data_points h.min h.target_metric_value true

  found_or_no_op-cases :
      (max_pods : ℤ) (r : Result (ℤ × ℤ × ℤ)) (h : HpaConfiguration)
      → found_or_no_op fl cfg src max_pods r ≡ ok h
      → (h ≡ no_op_configuration fl cfg src max_pods)
        ⊎ (r ≡ ok (h.target_metric_value, h.min, h.max))
  unfolding found_or_no_op
  found_or_no_op-cases max_pods (ok (t, m, mx)) h e = inr (cc e)
  found_or_no_op-cases max_pods (err unable_to_recommend) h e = inl (cc e)
  found_or_no_op-cases max_pods (err x) h e = absurd (cc)
  found_or_no_op-cases max_pods panic h e = absurd (cc)

  recommend_from-cases :
      (max_pods : ℤ) (fetched : List (DataPoint F)) (h : HpaConfiguration)
      → pos 1 ≤ℤ cfg.min_target
      → cfg.min_target ≤ℤ cfg.max_target +ℤ pos 1
      → src.average_cpu_utilization ≡ ok fetched
      → recommend_from fl cfg src max_pods fetched ≡ ok h
      → (h ≡ no_op_configuration fl cfg src max_pods) ⊎ ((h.max ≡ max_pods) × FoundSafe max_pods h)
  unfolding recommend_from
  recommend_from-cases max_pods fetched h positive le scraped e =
      let (dps, e1, k1) = >>=-eq-ok (transform_all fl cfg src src.transformers fetched) _ e in
      let (acl, e2, k2) = >>=-eq-ok src.acl _ k1 in
      let (per_pod, e3, k3) = >>=-eq-ok (get_container_cpu_limits_sum fl cfg src) _ k2 in
      let set = settings max_pods acl per_pod in
      elim (found_or_no_op-cases max_pods
        (find_optimal_hpa_configurations fl set dps cfg.min_target cfg.max_target) h k3) [
          | inl no_op ↦ inl no_op
          | inr found ↦
              let (best, _, c, et, em, ex, below) =
                find_optimal-ChosenBy fl set dps cfg.min_target cfg.max_target h.target_metric_value
                  h.min h.max positive le found in
              inr (
                ex,
                record {
                  fetched = fetched;
                  data_points = dps;
                  acl = acl;
                  per_pod = per_pod;
                  scraped = scraped;
                  cleaned = e1;
                  lag = e2;
                  limits = e3;
                  at_least_one = rw em c.at_least_one;
                  at_most_max = below;
                  from = rw et c.from;
                  upto = rw et c.upto;
                  safe =
                      subst (λ m. Tested fl set dps m h.target_metric_value true) (sym em)
                        (subst (λ t. Tested fl set dps best.optimal_min t true) (sym et) c.safe);
                },
              )
        ]

  -- For positive targets every recommendation has the workload's maximum. Either its minimum is that
  -- maximum and its target the least one, or its minimum is between 1 and the maximum, its target is
  -- in the range, and the simulation with them on the cleaned data, with the lag that the scraper and
  -- the pod size that the workload's client answer, has no breach.
  pub recommend-FoundSafe :
      (h : HpaConfiguration)
      → pos 1 ≤ℤ cfg.min_target
      → cfg.min_target ≤ℤ cfg.max_target +ℤ pos 1
      → recommend fl cfg src ≡ ok h
      → (max_pods : ℤ) × (get_max_pods fl cfg src ≡ ok max_pods)
        × (h.max ≡ max_pods)
        × (((h.min ≡ max_pods) × (h.target_metric_value ≡ cfg.min_target)) ⊎ FoundSafe max_pods h)
  unfolding recommend no_op_configuration
  recommend-FoundSafe h positive le e =
      let (fetched, e1, k1) = >>=-eq-ok src.average_cpu_utilization _ e in
      let (max_pods, e2, k2) = >>=-eq-ok (get_max_pods fl cfg src) _ k1 in
      let (enough, e3, k3) = >>=-eq-ok (is_metrics_above_threshold fl cfg src fetched) _ k2 in
      elim (decided max_pods fetched enough k3) [
        | inl no_op ↦ (max_pods, e2, ap (λ c. c.max) no_op, inl (as_no_op max_pods no_op))
        | inr from ↦ elim (recommend_from-cases max_pods fetched h positive le e1 from) [
          | inl no_op ↦ (max_pods, e2, ap (λ c. c.max) no_op, inl (as_no_op max_pods no_op))
          | inr (mx, f) ↦ (max_pods, e2, mx, inr f)
        ]
      ]
    where
      as_no_op :
          (max_pods : ℤ)
          → h ≡ no_op_configuration fl cfg src max_pods
          → (h.min ≡ max_pods) × (h.target_metric_value ≡ cfg.min_target)
      as_no_op max_pods e = (ap (λ c. c.min) e, ap (λ c. c.target_metric_value) e)

      decided :
          (max_pods : ℤ) (fetched : List (DataPoint F)) (enough : Bool)
          → (if enough
              then recommend_from fl cfg src max_pods fetched
              else ok (no_op_configuration fl cfg src max_pods))
            ≡ ok h
          → (h ≡ no_op_configuration fl cfg src max_pods)
            ⊎ (recommend_from fl cfg src max_pods fetched ≡ ok h)
      decided max_pods fetched true k = inr k
      decided max_pods fetched false k = inl (cc k)
