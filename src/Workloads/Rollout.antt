-- ===== src/Workloads/Rollout.antt =====
-- pkg/registry/rollout_client.go.
use ottoscalr.Prelude.{ℤ, pos, String, Option, none, some, List, [], ◌∷◌, if◌then◌else◌, ◌<>◌}
use ottoscalr.Result.{Result, ok, err, panic, failed, is_not_found, ◌>>=◌}
use ottoscalr.Float.{Float64}
use ottoscalr.Enforcer.{annotation}
use ottoscalr.Recommender.Recommend.{ObjectClient}
use ottoscalr.Workloads.{WorkloadObject, Pod, Services, limits_sum}

abbrev pub kind : String
kind = "Rollout"

module _ {F : Type 0} (fl : Float64 F) (services : Services) where
  unfoldable pub get_object : (namespace name : String) → Result WorkloadObject
  get_object namespace name = services.get kind namespace name

  unfoldable pub converted : Result ℤ → Result ℤ
  converted (ok max_pods) = ok max_pods
  converted (err e) =
      err (failed ("unable to convert maxPods from string to int: " <> services.error_text e))
  converted panic = panic

  unfoldable pub max_of_annotation : Option String → Result ℤ
  unfolding converted
  max_of_annotation none = err (failed "annotation not present")
  max_of_annotation (some max_pods) = converted (services.atoi max_pods)

  unfoldable pub get_max_replica_from_annotation : (namespace name : String) → Result ℤ
  unfolding max_of_annotation
  get_max_replica_from_annotation namespace name = do
    object ← services.get kind namespace name
    max_of_annotation (annotation object.annotations "ottoscalr.io/max-pods")

  -- The limits of the first pod, in cores.
  unfoldable pub limits_of_pods : List Pod → Result F
  limits_of_pods [] = err (failed "no pod found for the workload")
  limits_of_pods (pod ∷ more) =
      ok (fl.div (fl.of_int (limits_sum (pos 0) pod.containers)) (fl.of_int (pos 1000)))

  unfoldable pub limits_of_labels : String → Option (List (String × String)) → Result F
  unfolding limits_of_pods
  limits_of_labels namespace none = err (failed "no labels present on the workload to fetch pod")
  limits_of_labels namespace (some labels) = do
    pods ← services.list_pods namespace labels
    limits_of_pods pods

  unfoldable pub get_container_resource_limits : (namespace name : String) → Result F
  unfolding limits_of_labels
  get_container_resource_limits namespace name = do
    object ← services.get kind namespace name
    limits_of_labels namespace object.template_labels

  unfoldable pub counted : Option ℤ → Result ℤ
  counted none = err (failed "replica count not present")
  counted (some replicas) = ok replicas

  unfoldable pub get_replica_count : (namespace name : String) → Result ℤ
  unfolding counted
  get_replica_count namespace name = do
    object ← services.get kind namespace name
    counted object.replicas

  unfoldable pub scale : (namespace name : String) → ℤ → Result {0} Unit
  scale namespace name replicas = elim (services.update_scale kind namespace name replicas) [
    | ok u ↦ ok tt
    | err e ↦ if is_not_found e then ok tt else err e
    | panic ↦ panic
  ]

  -- The client as the recommender asks it about one workload.
  abbrev pub object_client : (namespace name : String) → ObjectClient F
  object_client namespace name = record {
    max_replica_from_annotation = get_max_replica_from_annotation namespace name;
    replica_count = get_replica_count namespace name;
    container_resource_limits = get_container_resource_limits namespace name;
  }
