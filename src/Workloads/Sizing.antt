-- ===== src/Workloads/Sizing.antt =====
-- What the recommender reads of a workload through the clients of pkg/registry.
use ottoscalr.Prelude.{
  ℕ, ◌+◌, ◌<◌, ◌^◌, ℤ, pos, wrap, ◌+ℤ◌, String, Option, none, some, List, [], ◌∷◌, ◌≡◌, arith, ap,
  ◌∙◌, wrap64_small,
}
use ottoscalr.Result.{Result, ok, err, panic, failed, ◌>>=◌}
use ottoscalr.Float.{Float64}
use ottoscalr.Enforcer.{annotation}
use ottoscalr.Recommender.Recommend.{
  Sources, get_max_pods, get_container_cpu_limits_sum, Config, annotated_or, supported,
  listed_max_or,
}
use ottoscalr.Workloads.{WorkloadObject, Pod, Container, Services, limits_sum}
use ottoscalr.Workloads.Deployment

-- The limits that are set, in thousandths of a core.
abbrev pub total_of : List (Option ℕ) → ℕ
total_of [] = 0
total_of (none ∷ rest) = total_of rest
total_of (some n ∷ rest) = n + total_of rest

abbrev pub containers_of : List (Option ℕ) → List Container
containers_of [] = []
containers_of (none ∷ rest) = record { cpu_milli_limit = none } ∷ containers_of rest
containers_of (some n ∷ rest) = record { cpu_milli_limit = some (pos n) } ∷ containers_of rest

sum_pos : (a b : ℕ) → pos a +ℤ pos b ≡ pos (a + b)
unfolding ◌+ℤ◌
sum_pos a b = ground arith

wrap_sum : (a b : ℕ) → a + b < 2 ^ 63 → wrap 64 (pos a +ℤ pos b) ≡ pos (a + b)
wrap_sum a b h = ap (wrap 64) (sum_pos a b) ∙ wrap64_small (a + b) h

limits_sum-total_of :
    (a : ℕ) (l : List (Option ℕ))
    → a + total_of l < 2 ^ 63
    → limits_sum (pos a) (containers_of l) ≡ pos (a + total_of l)
unfolding limits_sum
limits_sum-total_of a [] h = ap pos (omega arith)
limits_sum-total_of a (none ∷ rest) h = limits_sum-total_of a rest h
limits_sum-total_of a (some n ∷ rest) h =
    ap (λ s. limits_sum s (containers_of rest)) (wrap_sum a n (omega arith))
    ∙ limits_sum-total_of (a + n) rest (omega arith)
    ∙ ap pos (omega arith)

module _ {F : Type 0} (fl : Float64 F) (cfg : Config F) (src : Sources F) (services : Services)
    (namespace name : String) (w : WorkloadObject) where
  -- The replica count of the workload.
  abbrev pub running : Result ℤ
  running = elim w.replicas [ none ↦ err (failed "replica count not present") | some n ↦ ok n ]

  -- The number in the annotation, if there is one, and else the replica count.
  abbrev pub annotated_else_running : Option String → Result ℤ
  annotated_else_running none = running
  annotated_else_running (some text) = elim (services.atoi text) [
    | ok n ↦ ok n
    | err e ↦ running
    | panic ↦ panic
  ]

  by_annotation :
      (text : Option String)
      → annotated_or
          (Deployment.max_of_annotation fl services text)
          (Deployment.counted fl services w.replicas)
        ≡ annotated_else_running text
  unfolding annotated_or Deployment.max_of_annotation Deployment.counted
  by_annotation none = ground arith
  by_annotation (some text) = ground arith

  -- For a deployment that has no autoscaler, the recommender's maximum is the number in the
  -- annotation ottoscalr.io/max-pods, where it is set and is a number, and else the replica count
  -- of the deployment, or an error if that is not set.
  pub get_max_pods-annotated_else_running :
      services.get "Deployment" namespace name ≡ ok w
      → src.object_client ≡ ok (Deployment.object_client fl services namespace name)
      → src.autoscaler_max_replicas ≡ ok []
      → get_max_pods fl cfg src
        ≡ annotated_else_running (annotation w.annotations "ottoscalr.io/max-pods")
  unfolding get_max_pods Deployment.get_max_replica_from_annotation Deployment.get_replica_count
  get_max_pods-annotated_else_running found client alone =
      ap
        (λ c. supported c >>= λ k.
          annotated_or k.max_replica_from_annotation
            (listed_max_or src.autoscaler_max_replicas k.replica_count))
        client
      ∙ ap
          (λ l.
            annotated_or (Deployment.get_max_replica_from_annotation fl services namespace name)
              (listed_max_or l (Deployment.get_replica_count fl services namespace name)))
          alone
      ∙ ap
          (λ r.
            annotated_or
              (r >>= λ object.
                Deployment.max_of_annotation fl services
                  (annotation object.annotations "ottoscalr.io/max-pods"))
              (r >>= λ object. Deployment.counted fl services object.replicas))
          found
      ∙ by_annotation (annotation w.annotations "ottoscalr.io/max-pods")

  -- For a deployment whose first pod has limits that sum up to less than 2 ^ 63, the recommender's
  -- CPU limit is the sum of those that are set, divided by 1000; the other pods do not count.
  pub get_container_cpu_limits_sum-total_of :
      (labels : List (String × String)) (limits : List (Option ℕ)) (pod : Pod) (more : List Pod)
      → services.get "Deployment" namespace name ≡ ok w
      → src.object_client ≡ ok (Deployment.object_client fl services namespace name)
      → w.template_labels ≡ some labels
      → services.list_pods namespace labels ≡ ok (pod ∷ more)
      → pod.containers ≡ containers_of limits
      → total_of limits < 2 ^ 63
      → get_container_cpu_limits_sum fl cfg src
        ≡ ok (fl.div (fl.of_int (pos (total_of limits))) (fl.of_int (pos 1000)))
  unfolding get_container_cpu_limits_sum Deployment.get_container_resource_limits
  get_container_cpu_limits_sum-total_of labels limits pod more found client labelled pods contains
        h =
      ap (λ c. supported c >>= λ k. k.container_resource_limits) client
      ∙ ap
          (λ r. r >>= λ object.
            Deployment.limits_of_labels fl services namespace object.template_labels)
          found
      ∙ ap (Deployment.limits_of_labels fl services namespace) labelled
      ∙ ap (λ r. r >>= Deployment.limits_of_pods fl services) pods
      ∙ ap (λ cs. ok (fl.div (fl.of_int (limits_sum (pos 0) cs)) (fl.of_int (pos 1000)))) contains
      ∙ ap (λ n. ok (fl.div (fl.of_int n) (fl.of_int (pos 1000))))
          (limits_sum-total_of 0 limits (omega arith) ∙ ap pos (omega arith))
