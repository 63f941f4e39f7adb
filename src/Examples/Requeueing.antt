-- ===== src/Examples/Requeueing.antt =====
-- The deployment trigger on a workload that the second of its clients knows.
use ottoscalr.Prelude.{String, str_eq, true, [], ◌∷◌, ◌≡◌, refl, if◌then◌else◌, ◌⊎◌}
use ottoscalr.Result.{Result, ok, err, not_found}
use ottoscalr.Reconciler.{is_queued_by_update}
use ottoscalr.Enforcer.{Workload}
use ottoscalr.DeploymentTrigger
use ottoscalr.DeploymentTrigger.Requeueing.{requeued, Stale, reconcile-requeues}
use ottoscalr.Examples.{recommendation, workload}

abbrev object_of : String → Result Workload
object_of kind = if str_eq kind "Deployment" then ok workload else err not_found

abbrev cluster : DeploymentTrigger.Cluster
cluster = record {
  kinds = "Rollout" ∷ "Deployment" ∷ [];
  get_object = λ kind namespace name. object_of kind;
  get_policy_recommendation = λ namespace name. ok recommendation;
  answer = λ calls c. ok tt;
  now = 40;
}

reconcile-requeues_example :
    (DeploymentTrigger.reconcile cluster "shop" "checkout" [] ≡ (
      ok tt,
      DeploymentTrigger.update "DeploymentTriggerController"
            (requeued cluster "shop" "checkout" recommendation)
          ∷ [],
    ))
    × ((is_queued_by_update recommendation (requeued cluster "shop" "checkout" recommendation)
          ≡ ok true)
        ⊎ Stale cluster "shop" "checkout" recommendation)
reconcile-requeues_example =
    reconcile-requeues cluster "shop" "checkout" ("Rollout" ∷ []) [] "Deployment" workload
      recommendation refl ((not_found, refl, refl), tt) refl refl (λ c. refl)
