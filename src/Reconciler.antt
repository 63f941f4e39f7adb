-- ===== src/Reconciler.antt =====
-- The recommendation controller, pkg/controller/policyrecommendation_controller.go: `Reconcile`
-- with its helpers. The k-th call of `time.Now` in a run gives `now k`.
pub mod Outcome
pub mod Recording
pub mod Spec
pub mod Queueing
use ottoscalr.Prelude.{
  ℕ, String, str_eq, Bool, true, false, not, Option, none, some, List, [], ◌∷◌, if◌then◌else◌, ltb,
  ◌&&◌, ◌==◌,
}
use ottoscalr.Result.{Result, ok, err, panic, Err, is_not_found, ◌>>=◌ as ◌>>=ᴿ◌}
use ottoscalr.Api.{
  Time, HpaConfiguration, deep_equals, Condition, ConditionStatus, condition_true, condition_false,
  PolicyRecommendation,
}
use ottoscalr.Calls.{Run, give, resume, ◌>>=◌, perform, unless_failed}
use ottoscalr.Conditions.{StatusPatch, create_policy_patch, is_true}
use ottoscalr.Workflow.{WorkloadMeta, RecoPolicy}

-- The fields that the patch of a recommendation sets.
pub record SpecPatch : Type 0 where
  pub name : String
  pub namespace : String
  pub queued_for_execution : Bool
  pub target_hpa_configuration : HpaConfiguration
  pub policy : String
  pub current_hpa_configuration : HpaConfiguration
  pub transitioned_at : Time
  pub generated_at : Time

-- The writes of one run; the first field of a status patch is its field owner. The last two are the
-- observations of the histogram `targetRecoSLI`.
pub data Call : Type 0 where
  patch_status : String → StatusPatch → Call
  patch_spec : SpecPatch → Call
  observe_target_reached : Time → Call
  forget_target : Call

pub record Cluster : Type 0 where
  pub get_policy_recommendation : Result PolicyRecommendation
  -- `Execute` of the interface `RecommendationWorkflow`.
  pub execute :
      WorkloadMeta → Result (Option HpaConfiguration × Option HpaConfiguration × Option RecoPolicy)
  pub error_text : Err → String
  pub answer : List Call → Call → Result {0} Unit
  pub now : ℕ → Time

-- The dereference of a pointer.
abbrev pub dereference : {A : Type 0} → Option A → Result A
dereference none = panic
dereference (some a) = ok a

-- The first argument is the configuration to be applied, and the second the recommendation.
unfoldable pub retrieve_transition_time :
    Option HpaConfiguration → Option PolicyRecommendation → Time → Result Time
retrieve_transition_time none (some policyreco) generated_at =
    dereference policyreco.spec.transitioned_at
retrieve_transition_time none none generated_at = ok generated_at
retrieve_transition_time (some config) none generated_at = ok generated_at
retrieve_transition_time (some config) (some policyreco) generated_at =
    if not (deep_equals config policyreco.spec.current_hpa_configuration)
    then ok generated_at
    else dereference policyreco.spec.transitioned_at

-- The status of the first condition of the type, read as a truth value.
unfoldable pub fetch_target_achieved : List Condition → Bool
unfolding is_true
fetch_target_achieved [] = false
fetch_target_achieved (c ∷ rest) =
    if str_eq c.type "TargetRecoAchieved" then is_true c.status else fetch_target_achieved rest

unfoldable pub fetch_initialized_time : Time → List Condition → Time
fetch_initialized_time now [] = now
fetch_initialized_time now (c ∷ rest) =
    if str_eq c.type "Initialized" then c.last_transition_time else fetch_initialized_time now rest

abbrev pub policy_name : Option RecoPolicy → PolicyRecommendation → String
policy_name none policyreco = policyreco.spec.policy
policy_name (some p) policyreco = p.name

-- The field owners of the controller's patches.
abbrev pub workflow_owner : String
workflow_owner = "RecoWorkflowController"

abbrev pub status_owner : String
status_owner = "RecoQueuedStatusManager"

module _ (cluster : Cluster) where
  -- A condition set on top of the conditions that the run has set before.
  abbrev pub with_condition :
      ℕ
      → PolicyRecommendation
      → List Condition
      → String
      → ConditionStatus
      → String
      → String
      → StatusPatch
  with_condition k policyreco conditions cond_type status reason message =
      create_policy_patch (cluster.now k) policyreco conditions cond_type status reason message

  abbrev pub in_progress : PolicyRecommendation → StatusPatch
  in_progress policyreco =
      with_condition 1 policyreco [] "RecoTaskProgress" condition_true "RecoTaskInProgress"
        "Recommendation Workflow execution is in progress"

  abbrev pub errored : PolicyRecommendation → String → StatusPatch
  errored policyreco message =
      with_condition 2 policyreco (in_progress policyreco).conditions "RecoTaskProgress"
        condition_false "RecoTaskErrored" message

  -- The branches that end the run behind a failed or an empty recommendation; a result holds the
  -- seconds after which the request is queued again.
  unfoldable pub fail_with : PolicyRecommendation → String → Result (Option ℕ) → Run Call (Option ℕ)
  unfolding create_policy_patch
  fail_with policyreco message result =
      unless_failed none
        (perform cluster.answer (patch_status workflow_owner (errored policyreco message)))
        (give result)

  abbrev pub spec_patch :
      PolicyRecommendation
      → HpaConfiguration
      → HpaConfiguration
      → Option RecoPolicy
      → Time
      → SpecPatch
  spec_patch policyreco applied target p transitioned_at = record {
    name = policyreco.name;
    namespace = policyreco.namespace;
    queued_for_execution = false;
    target_hpa_configuration = target;
    policy = policy_name p policyreco;
    current_hpa_configuration = applied;
    transitioned_at = transitioned_at;
    generated_at = cluster.now 0;
  }

  -- The observation of the histogram, which cannot fail.
  abbrev pub observe : Call → Run Call Unit
  observe c = perform (λ calls d. ok tt) c

  abbrev pub target_condition :
      PolicyRecommendation → HpaConfiguration → HpaConfiguration → StatusPatch
  target_condition policyreco applied target =
      if deep_equals target applied
      then with_condition 3 policyreco (in_progress policyreco).conditions "TargetRecoAchieved"
          condition_true "PolicyRecommendationAtTargetReco"
          "Target Recommendation has been achieved"
      else with_condition 3 policyreco (in_progress policyreco).conditions "TargetRecoAchieved"
          condition_false "PolicyRecommendationNotAtTargetReco"
          "Target Recommendation has not been achieved yet"

  abbrev pub generated : PolicyRecommendation → HpaConfiguration → HpaConfiguration → StatusPatch
  generated policyreco applied target =
      with_condition 4 policyreco (target_condition policyreco applied target).conditions
        "RecoTaskProgress" condition_false "RecoTaskRecommendationGenerated"
        "HPA Recommendation is generated"

  abbrev pub execution_done :
      PolicyRecommendation → HpaConfiguration → HpaConfiguration → StatusPatch
  execution_done policyreco applied target =
      with_condition 5 policyreco (generated policyreco applied target).conditions "RecoTaskQueued"
        condition_false "RecoTaskExecutionDone"
        "The Recommendation Workflow execution has been completed"

  -- The histogram's update, by whether the target is reached, and was reached before.
  unfoldable pub observe_target :
      PolicyRecommendation → HpaConfiguration → HpaConfiguration → Run Call Unit
  unfolding fetch_target_achieved fetch_initialized_time deep_equals
  observe_target policyreco applied target =
      if deep_equals target applied
      then (if fetch_target_achieved policyreco.conditions
          then give (ok tt)
          else observe (
              observe_target_reached
                (fetch_initialized_time (cluster.now 2) policyreco.conditions)))
      else observe forget_target

  -- `Reconcile` behind a recommendation.
  unfoldable pub record_recommendation :
      PolicyRecommendation
      → HpaConfiguration
      → HpaConfiguration
      → Option RecoPolicy
      → Run Call (Option ℕ)
  unfolding retrieve_transition_time observe_target create_policy_patch deep_equals
  record_recommendation policyreco applied target p =
      give (retrieve_transition_time (some applied) (some policyreco) (cluster.now 0))
      >>= λ transitioned_at.
          unless_failed none
            (perform cluster.answer
              (patch_spec (spec_patch policyreco applied target p transitioned_at)))
            (observe_target policyreco applied target >>= λ _.
              unless_failed none
                (perform cluster.answer
                  (patch_status workflow_owner (generated policyreco applied target)))
                (unless_failed none
                  (perform cluster.answer
                    (patch_status status_owner (execution_done policyreco applied target)))
                  (give (ok none))))

  -- `Reconcile` behind the workflow's answer.
  unfoldable pub conclude :
      PolicyRecommendation
      → Result (Option HpaConfiguration × Option HpaConfiguration × Option RecoPolicy)
      → Run Call (Option ℕ)
  unfolding fail_with record_recommendation
  conclude policyreco (err e) = fail_with policyreco (cluster.error_text e) (err e)
  conclude policyreco panic = give panic
  conclude policyreco (ok (applied, none, p)) =
      fail_with policyreco
        "Empty recommendation config could be due to lack of utilization data points or non availability of pod ready time"
        (ok (some 5))
  conclude policyreco (ok (none, some target, p)) =
      fail_with policyreco "HPA config to be applied is empty" (ok (some 5))
  conclude policyreco (ok (some applied, some target, p)) =
      record_recommendation policyreco applied target p

  abbrev pub workload_meta : PolicyRecommendation → WorkloadMeta
  workload_meta policyreco = record {
    kind = policyreco.spec.workload_kind;
    name = policyreco.spec.workload_name;
    namespace = policyreco.namespace;
  }

  -- `Reconcile` behind the first read.
  unfoldable pub handle : Result PolicyRecommendation → Run Call (Option ℕ)
  unfolding conclude create_policy_patch
  handle (ok policyreco) =
      unless_failed none
        (perform cluster.answer (patch_status workflow_owner (in_progress policyreco)))
        (conclude policyreco (cluster.execute (workload_meta policyreco)))
  handle (err e) = give (if is_not_found e then ok none else err e)
  handle panic = give panic

  unfoldable pub reconcile : Run Call (Option ℕ)
  unfolding handle
  reconcile = handle cluster.get_policy_recommendation

-- `metav1.Time.Before`, on pointers.
abbrev pub before : Option Time → Option Time → Bool
before none u = false
before (some t) none = false
before (some t) (some u) = ltb t u

-- `CreateFunc` of `queuedTaskPredicate`.
unfoldable pub is_queued_at_creation : PolicyRecommendation → Result Bool
is_queued_at_creation object = dereference object.spec.queued_for_execution

-- The second case of `UpdateFunc`: queued still, at a later time, or queued after the generation.
later_or_ungenerated : PolicyRecommendation → PolicyRecommendation → Bool → Time → Result Bool
later_or_ungenerated old new queued queued_at =
    if queued && before old.spec.queued_for_execution_at (some queued_at)
    then ok true
    else dereference new.spec.generated_at >>=ᴿ λ generated_at. ok (ltb generated_at queued_at)

-- `UpdateFunc` of `queuedTaskPredicate` behind the test of `IsZero`.
update_at : PolicyRecommendation → PolicyRecommendation → Time → Result Bool
unfolding later_or_ungenerated
update_at old new queued_at = dereference old.spec.queued_for_execution >>=ᴿ λ was_queued.
    dereference new.spec.queued_for_execution >>=ᴿ λ queued.
    if not was_queued && queued then ok true else later_or_ungenerated old new queued queued_at

-- `UpdateFunc` of `queuedTaskPredicate`.
unfoldable pub is_queued_by_update : PolicyRecommendation → PolicyRecommendation → Result Bool
unfolding update_at
is_queued_by_update old new = elim new.spec.queued_for_execution_at [
  | none ↦ ok false
  | some queued_at ↦ if queued_at == 0 then ok false else update_at old new queued_at
]
