-- ===== src/Examples/Registering.antt =====
-- The registrar on a workload that the second of its clients knows.
use ottoscalr.Prelude.{◌+◌, String, str_eq, true, [], ◌∷◌, ◌≡◌, refl, All, if◌then◌else◌}
use ottoscalr.Result.{Result, ok, err, not_found}
use ottoscalr.Api.{PolicyRecommendation}
use ottoscalr.Conditions.{is_initialized, StatusPatch}
use ottoscalr.Reconciler.{is_queued_at_creation}
use ottoscalr.Store.{get_safest_policy}
use ottoscalr.Store.Sorting.{insertion_sort, insertion_sort-Sorts}
use ottoscalr.Trigger.Manager.{new_manager}
use ottoscalr.Enforcer.{Workload}
use ottoscalr.Registrar
use ottoscalr.Registrar.Creating.{Justified, reconcile-Justified}
use ottoscalr.Registrar.Registering.{Monitored, reconcile-registers, reconcile-Monitored}
use ottoscalr.Examples.{client, safe_policy, workload}

abbrev object_of : String → Result Workload
object_of kind = if str_eq kind "Deployment" then ok workload else err not_found

abbrev cluster : Registrar.Cluster
cluster = record {
  kinds = "Rollout" ∷ "Deployment" ∷ [];
  get_object = λ kind namespace name. object_of kind;
  get_policy_recommendation = λ namespace name. err not_found;
  set_controller_reference = λ w r. ok tt;
  answer = λ calls c. ok tt;
  now = λ k. 70 + k;
}

reconcile-Justified_example :
    All
      (Justified insertion_sort client cluster "shop" "checkout")
      (Registrar.reconcile insertion_sort client cluster "shop" "checkout" []).1
reconcile-Justified_example =
    reconcile-Justified insertion_sort client cluster insertion_sort-Sorts "shop" "checkout"

abbrev created : PolicyRecommendation
created = Registrar.new_policy_recommendation workload safe_policy 70

reconcile-registers_example :
    let patch : StatusPatch = Registrar.initialized insertion_sort client cluster created in
    (Registrar.reconcile insertion_sort client cluster "shop" "checkout" [] ≡ (
      ok tt,
      Registrar.register_monitor "Deployment" "shop" "checkout"
          ∷ Registrar.patch_status "PolicyRecommendationRegistrar" patch
          ∷ Registrar.create workload created
          ∷ Registrar.set_gauge "shop" "checkout" "Deployment" "checkout"
          ∷ Registrar.delete_gauge "shop" "checkout"
          ∷ [],
    ))
    × (is_queued_at_creation created ≡ ok true)
    × (is_initialized patch.conditions ≡ true)
unfolding get_safest_policy insertion_sort
reconcile-registers_example =
    reconcile-registers insertion_sort client cluster "shop" "checkout" ("Rollout" ∷ []) []
      "Deployment" workload not_found safe_policy refl ((not_found, refl, refl), tt) refl refl refl
      refl (λ r. refl) (λ made c. refl)

reconcile-Monitored_example :
    Monitored "shop" "checkout"
      (Registrar.reconcile insertion_sort client cluster "shop" "checkout" [])
      []
      new_manager
reconcile-Monitored_example =
    reconcile-Monitored insertion_sort client cluster "shop" "checkout" ("Rollout" ∷ []) []
      "Deployment" workload new_manager refl ((not_found, refl, refl), tt) refl
