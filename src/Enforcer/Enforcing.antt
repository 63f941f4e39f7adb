-- ===== src/Enforcer/Enforcing.antt =====
-- `Reconcile` of pkg/controller/hpaenforcement_controller.go enforces what it should.
use ottoscalr.Prelude.{false, List, [], ◌∷◌, ◌≡◌, refl, ◌<>◌, String, ap, ◌∙◌}
use ottoscalr.Result.{ok}
use ottoscalr.Api.{Time, PolicyRecommendation, condition_true, ConditionStatus}
use ottoscalr.Conditions.{create_policy_patch}
use ottoscalr.Enforcer.{
  Settings, Cluster, Workload, Call, patch_status, get_object_client, report, create_or_update,
  enforce_unless_exists, enforce, handle, reconcile,
}
use ottoscalr.Enforcer.Safe.{Ready, Enforceable, enforced}

module _ {S : Type 0} (settings : Settings) (cluster : Cluster S) where
  report-made :
      (now : Time) (policyreco : PolicyRecommendation) (status : ConditionStatus)
      (reason message : String) (calls : List (Call S))
      → ((made : List (Call S)) (c : Call S) → cluster.answer made c ≡ ok tt)
      → report settings cluster now policyreco status reason message calls ≡ (
        ok tt,
        patch_status (create_policy_patch now policyreco [] "HPAEnforced" status reason message)
            ∷ calls,
      )
  unfolding report create_policy_patch
  report-made now policyreco status reason message calls works =
      rw
        (works calls (
          patch_status (create_policy_patch now policyreco [] "HPAEnforced" status reason message)))
        refl

  -- Where the recommendation is initialized and generated, no other owner has an autoscaler, the
  -- configuration and the workload allow the enforcement, it is no dry run, the kind is registered
  -- and the writes succeed, a run succeeds with exactly two writes: the autoscaler with the
  -- configuration of the recommendation, and then the condition that it is enforced.
  pub reconcile-enforces :
      (now : Time) (policyreco : PolicyRecommendation) (workload : Workload)
      → Ready settings cluster policyreco workload
      → Enforceable settings cluster policyreco workload
      → settings.is_dry_run ≡ false
      → get_object_client settings.kinds policyreco.spec.workload_kind
        ≡ ok policyreco.spec.workload_kind
      → ((made : List (Call S)) (c : Call S) → cluster.answer made c ≡ ok tt)
      → reconcile settings cluster now [] ≡ (
        ok tt,
        patch_status (
              create_policy_patch now policyreco [] "HPAEnforced" condition_true
                (settings.autoscaler_name <> "IsCreated")
                (settings.autoscaler_name <> " has been created."))
            ∷ enforced settings cluster policyreco workload
            ∷ [],
      )
  unfolding reconcile handle enforce enforce_unless_exists create_or_update
  reconcile-enforces now policyreco workload ready enforceable live known works =
      ap (λ r. handle settings cluster now r []) ready.fetched
      ∙ rw
          (
            ready.initialized,
            ready.generated,
            known,
            ready.found,
            ready.alone,
            enforceable.0,
            enforceable.1,
            live,
            works [] (enforced settings cluster policyreco workload),
          )
          (report-made now policyreco condition_true (settings.autoscaler_name <> "IsCreated")
            (settings.autoscaler_name <> " has been created.") _ works)
