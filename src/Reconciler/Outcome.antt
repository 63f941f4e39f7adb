-- ===== src/Reconciler/Outcome.antt =====
-- The writes that a run of `Reconcile` of pkg/controller/policyrecommendation_controller.go is to
-- make, described from the answers alone.
use ottoscalr.Prelude.{
  ℕ, String, false, Option, none, some, List, [], ◌∷◌, ◌++◌, if◌then◌else◌, str_eq, Bool, true,
}
use ottoscalr.Result.{Result, ok, err, panic}
use ottoscalr.Api.{
  Time, Condition, ConditionStatus, condition_true, condition_false, condition_unknown,
  HpaConfiguration, deep_equals, PolicyRecommendation,
}
use ottoscalr.Workflow.{RecoPolicy}
use ottoscalr.Reconciler.{
  Cluster, Call, patch_status, patch_spec, observe_target_reached, forget_target,
}

-- The first condition of the type.
abbrev pub first_of : String → List Condition → Option Condition
first_of type [] = none
first_of type (c ∷ rest) = if str_eq c.type type then some c else first_of type rest

abbrev pub is_achieved : Option Condition → Bool
is_achieved none = false
is_achieved (some c) = elim c.status [
  | condition_true ↦ true
  | condition_false ↦ false
  | condition_unknown ↦ false
]

abbrev pub patch_of : String → PolicyRecommendation → List Condition → Call
patch_of owner policyreco conditions =
    patch_status owner
      (record { name = policyreco.name; namespace = policyreco.namespace; conditions = conditions })

abbrev pub Answer : Type 0
Answer = Result (Option HpaConfiguration × Option HpaConfiguration × Option RecoPolicy)

module _ (cluster : Cluster) where
  abbrev pub time_of : Option Condition → Time
  time_of none = cluster.now 2
  time_of (some c) = c.last_transition_time

  -- The histogram's writes of a run: the time since the initialization where the target is reached
  -- and was not before, and nothing where it was before.
  abbrev pub observed : PolicyRecommendation → HpaConfiguration → HpaConfiguration → List Call
  observed policyreco applied target =
      if deep_equals target applied
      then (if is_achieved (first_of "TargetRecoAchieved" policyreco.conditions)
          then []
          else observe_target_reached (time_of (first_of "Initialized" policyreco.conditions)) ∷ [])
      else forget_target ∷ []

  -- A condition of the run, at the k-th reading of its clock.
  abbrev pub condition_at : ℕ → String → ConditionStatus → (reason message : String) → Condition
  condition_at k type status reason message = record {
    type = type;
    status = status;
    observed_generation = 0;
    last_transition_time = cluster.now k;
    reason = reason;
    message = message;
  }

  abbrev pub started : PolicyRecommendation → Call
  started policyreco = patch_of "RecoWorkflowController" policyreco (
      condition_at 1 "RecoTaskProgress" condition_true "RecoTaskInProgress"
        "Recommendation Workflow execution is in progress"
      ∷ [])

  abbrev pub broken : PolicyRecommendation → String → Call
  broken policyreco message =
      patch_of "RecoWorkflowController" policyreco
        (condition_at 2 "RecoTaskProgress" condition_false "RecoTaskErrored" message ∷ [])

  -- Whether the applied configuration is the target, and that the recommendation is generated.
  abbrev pub concluded : HpaConfiguration → HpaConfiguration → List Condition
  concluded applied target =
      (if deep_equals target applied
        then condition_at 3 "TargetRecoAchieved" condition_true "PolicyRecommendationAtTargetReco"
            "Target Recommendation has been achieved"
        else condition_at 3 "TargetRecoAchieved" condition_false
            "PolicyRecommendationNotAtTargetReco" "Target Recommendation has not been achieved yet")
      ∷ condition_at 4 "RecoTaskProgress" condition_false "RecoTaskRecommendationGenerated"
          "HPA Recommendation is generated"
      ∷ []

  abbrev pub unqueued : Condition
  unqueued =
      condition_at 5 "RecoTaskQueued" condition_false "RecoTaskExecutionDone"
        "The Recommendation Workflow execution has been completed"

  -- The time of the last change of the applied configuration, if there is one.
  abbrev pub moved_at : PolicyRecommendation → HpaConfiguration → Option Time
  moved_at policyreco applied =
      if deep_equals applied policyreco.spec.current_hpa_configuration
      then policyreco.spec.transitioned_at
      else some (cluster.now 0)

  abbrev pub recorded :
      PolicyRecommendation → (applied target : HpaConfiguration) → Option RecoPolicy → Time → Call
  recorded policyreco applied target p t = patch_spec (record {
    name = policyreco.name;
    namespace = policyreco.namespace;
    queued_for_execution = false;
    target_hpa_configuration = target;
    policy = elim p [ none ↦ policyreco.spec.policy | some chosen ↦ chosen.name ];
    current_hpa_configuration = applied;
    transitioned_at = t;
    generated_at = cluster.now 0;
  })

  -- The five kinds of writes of a run that records, the last one first.
  abbrev pub writes :
      PolicyRecommendation
      → (applied target : HpaConfiguration) → (done concluding patch : Call)
      → Result (Option ℕ) × List Call
  writes policyreco applied target done concluding patch = (
    ok none,
    done ∷ concluding ∷ observed policyreco applied target ++ patch ∷ started policyreco ∷ [],
  )

  -- A run that records, where the time of transition is known; without one it panics.
  abbrev pub transitioned :
      PolicyRecommendation
      → (applied target : HpaConfiguration) → Option RecoPolicy
      → Option Time
      → Result (Option ℕ) × List Call
  transitioned policyreco applied target p none = (panic, started policyreco ∷ [])
  transitioned policyreco applied target p (some t) =
      writes policyreco applied target
        (patch_of "RecoQueuedStatusManager" policyreco (concluded applied target ++ unqueued ∷ []))
        (patch_of "RecoWorkflowController" policyreco (concluded applied target))
        (recorded policyreco applied target p t)

  -- The result of a run whose writes succeed, and these writes, the last one first.
  abbrev pub outcome : PolicyRecommendation → Answer → Result (Option ℕ) × List Call
  outcome policyreco (err e) =
      (err e, broken policyreco (cluster.error_text e) ∷ started policyreco ∷ [])
  outcome policyreco panic = (panic, started policyreco ∷ [])
  outcome policyreco (ok (applied, none, p)) = (
    ok (some 5),
    broken policyreco
          "Empty recommendation config could be due to lack of utilization data points or non availability of pod ready time"
        ∷ started policyreco
        ∷ [],
  )
  outcome policyreco (ok (none, some target, p)) =
      (ok (some 5), broken policyreco "HPA config to be applied is empty" ∷ started policyreco ∷ [])
  outcome policyreco (ok (some applied, some target, p)) =
      transitioned policyreco applied target p (moved_at policyreco applied)
