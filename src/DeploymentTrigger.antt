-- ===== src/DeploymentTrigger.antt =====
-- The deployment trigger, pkg/controller/deployment_trigger_controller.go: `Reconcile`,
-- `requeuePolicyRecommendation` and the predicate of its watches. The delay that `Reconcile` returns
-- beside an error is left out: it has no effect there.
pub mod Requeueing
use ottoscalr.Prelude.{
  ℕ, String, str_eq, Bool, true, false, not, Option, none, some, List, [], ◌∷◌, if◌then◌else◌,
}
use ottoscalr.Result.{Result, ok, err, panic, is_not_found}
use ottoscalr.Api.{Time, PolicyRecommendation}
use ottoscalr.Calls.{Run, give, perform}
use ottoscalr.Enforcer.{Workload, annotation}
use ottoscalr.Trigger.Handler.{queued}

-- The update of a recommendation, with its field owner.
pub data Call : Type 0 where
  update : String → PolicyRecommendation → Call

pub record Cluster : Type 0 where
  pub kinds : List String  -- of the registered clients
  pub get_object : (kind namespace name : String) → Result Workload
  pub get_policy_recommendation : (namespace name : String) → Result PolicyRecommendation
  pub answer : List Call → Call → Result {0} Unit
  pub now : Time

abbrev pub deployment_trigger_name : String
deployment_trigger_name = "DeploymentTriggerController"

module _ (cluster : Cluster) where
  unfoldable pub requeue_found : Result PolicyRecommendation → Run Call Unit
  requeue_found (ok policyreco) =
      perform cluster.answer (update deployment_trigger_name (queued cluster.now policyreco))
  requeue_found (err e) = give (if is_not_found e then ok tt else err e)
  requeue_found panic = give panic

  unfoldable pub requeue_policy_recommendation : Workload → Run Call Unit
  unfolding requeue_found
  requeue_policy_recommendation object =
      requeue_found (cluster.get_policy_recommendation object.namespace object.name)

  -- A round of the loop over the clients, and the rounds that are left.
  unfoldable pub handle_object : Result Workload → Run Call Unit → Run Call Unit
  unfolding requeue_policy_recommendation
  handle_object (ok object) rest = requeue_policy_recommendation object
  handle_object (err e) rest = if is_not_found e then rest else give (err e)
  handle_object panic rest = give panic

  unfoldable pub try_clients : List String → (namespace name : String) → Run Call Unit
  unfolding handle_object
  try_clients [] namespace name = give (ok tt)
  try_clients (kind ∷ rest) namespace name =
      handle_object (cluster.get_object kind namespace name) (try_clients rest namespace name)

  unfoldable pub reconcile : (namespace name : String) → Run Call Unit
  unfolding try_clients
  reconcile namespace name = try_clients cluster.kinds namespace name

-- A missing annotation reads as the empty text.
abbrev pub max_pods : Workload → String
max_pods w = elim (annotation w.annotations "ottoscalr.io/max-pods") [ none ↦ "" | some v ↦ v ]

-- `UpdateFunc` of `annotationUpdatePredicate`, on the old and the new object.
unfoldable pub is_annotation_updated : Workload → Workload → Bool
is_annotation_updated old new = not (str_eq (max_pods new) (max_pods old))
