-- ===== src/Examples/Controlling.antt =====
-- The controllers and the trigger on one recommendation.
use ottoscalr.Prelude.{
  ℤ, pos, true, false, Option, none, some, List, [], ◌∷◌, ◌≡◌, refl, arith, All, ◌+◌, ◌≤◌,
}
use ottoscalr.Result.{Result, ok, err, failed}
use ottoscalr.Api.{Time, HpaConfiguration, condition_true}
use ottoscalr.Conditions.{create_policy_patch, is_initialized, is_reco_generated, is_true}
use ottoscalr.Enforcer
use ottoscalr.Enforcer.Safe.{Guarded, Ready, Enforceable, enforced, reconcile-Guarded}
use ottoscalr.Enforcer.Deleting.{delete_controller_managed_autoscaler-rescales}
use ottoscalr.Enforcer.Enforcing.{reconcile-enforces}
use ottoscalr.Reconciler
use ottoscalr.Reconciler.Spec.{Recorded, reconcile-Recorded}
use ottoscalr.Reconciler.Outcome.{outcome}
use ottoscalr.Reconciler.Recording.{reconcile-records}
use ottoscalr.Workflow.{RecoPolicy, policy_from_cr}
use ottoscalr.Examples.{workload, recommendation, configuration, middle_policy}

abbrev enforcer : Enforcer.Settings
enforcer = record {
  kinds = "Rollout" ∷ "Deployment" ∷ [];
  is_dry_run = false;
  excluded_namespaces = none;
  included_namespaces = none;
  whitelist_mode = true;
  min_required_replicas = pos 3;
  autoscaler_name = "ScaledObject";
}

abbrev managed_or_none : Enforcer.Selector → List ℤ
managed_or_none Enforcer.created_by_controller = pos 12 ∷ []
managed_or_none Enforcer.not_created_by_controller = []

-- Autoscalers are their maxima here; the controller has made one, with the maximum 12.
abbrev cluster : Enforcer.Cluster ℤ
cluster = record {
  get_policy_recommendation = ok recommendation;
  get_object = λ kind namespace name. ok workload;
  get_list = λ selector namespace name. ok (managed_or_none selector);
  get_max_replica_count = λ o. o;
  answer = λ calls c. ok tt;
}

reconcile-Guarded_example :
    All (Guarded enforcer cluster) (Enforcer.reconcile enforcer cluster 100 []).1
reconcile-Guarded_example = reconcile-Guarded enforcer cluster 100

ready : Ready enforcer cluster recommendation workload
unfolding is_initialized is_reco_generated is_true Enforcer.listed
ready = record { fetched = refl; initialized = refl; generated = refl; found = refl; alone = refl }

enforceable : Enforceable enforcer cluster recommendation workload
unfolding Enforcer.is_invalid_config Enforcer.is_enforcement_enabled Enforcer.parse_bool
enforceable = (refl, refl)

reconcile-enforces_example : Enforcer.reconcile enforcer cluster 100 [] ≡ (
  ok tt,
  Enforcer.patch_status (
        create_policy_patch 100 recommendation [] "HPAEnforced" condition_true
          "ScaledObjectIsCreated" "ScaledObject has been created.")
      ∷ enforced enforcer cluster recommendation workload
      ∷ [],
)
unfolding Enforcer.get_object_client
reconcile-enforces_example =
    reconcile-enforces enforcer cluster 100 recommendation workload ready enforceable refl refl
      (λ made c. refl)

delete_controller_managed_autoscaler-rescales_example :
    Enforcer.delete_controller_managed_autoscaler enforcer cluster workload [] ≡ (
      ok tt,
      Enforcer.scale "Deployment" "shop" "checkout" (pos 12)
          ∷ Enforcer.delete_autoscaler (pos 12)
          ∷ [],
    )
unfolding Enforcer.get_object_client Enforcer.listed
delete_controller_managed_autoscaler-rescales_example =
    delete_controller_managed_autoscaler-rescales enforcer cluster workload (pos 12 ∷ []) []
      (λ made o. refl) refl refl

-- The recommendation controller, with a workflow that answers and one that fails.
abbrev answering :
    Result (Option HpaConfiguration × Option HpaConfiguration × Option RecoPolicy)
    → Reconciler.Cluster
answering r = record {
  get_policy_recommendation = ok recommendation;
  execute = λ wm. r;
  error_text = λ e. "error";
  answer = λ calls c. ok tt;
  now = λ k. 30 + k;
}

abbrev answered : Option HpaConfiguration × Option HpaConfiguration × Option RecoPolicy
answered = (
  some (configuration 6 20 60),
  some (configuration 5 20 60),
  some (policy_from_cr middle_policy),
)

abbrev successful : Reconciler.Cluster
successful = answering (ok answered)

reconcile-Recorded_example : All (Recorded successful) (Reconciler.reconcile successful []).1
reconcile-Recorded_example = reconcile-Recorded successful

reconcile-records_example :
    Reconciler.reconcile successful [] ≡ outcome successful recommendation (ok answered)
reconcile-records_example =
    reconcile-records successful (λ made c. refl) recommendation (ok answered) refl refl

abbrev failing : Reconciler.Cluster
failing = answering (err (failed "no metrics"))

abbrev patch : Reconciler.SpecPatch
patch =
    Reconciler.spec_patch successful recommendation (configuration 6 20 60) (configuration 5 20 60)
      none 30

queued_at-le : (t : Time) → recommendation.spec.queued_for_execution_at ≡ some t → t ≤ 30
queued_at-le t e = ground arith

abbrev filtered : Enforcer.Settings
filtered = record enforcer { included_namespaces = some ("shop" ∷ "bank" ∷ []) }
