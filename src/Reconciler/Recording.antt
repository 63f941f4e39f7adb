-- ===== src/Reconciler/Recording.antt =====
-- The whole run of `Reconcile` of pkg/controller/policyrecommendation_controller.go, where its
-- writes succeed.
use ottoscalr.Prelude.{
  sym, Option-cases, false, Option, none, some, List, [], ◌∷◌, ◌++◌, ◌≡◌, refl, ap, ◌∙◌, Bool-cases,
  inl, inr, str_eq, true,
}
use ottoscalr.Result.{ok, err, panic}
use ottoscalr.Conditions.{
  create_policy_patch, set_conditions, other_conditions, new_policy_recommendation_condition,
  is_true,
}
use ottoscalr.Api.{
  Time, Condition, ConditionStatus, condition_true, condition_false, condition_unknown,
  HpaConfiguration, deep_equals, PolicyRecommendation,
}
use ottoscalr.Workflow.{RecoPolicy}
use ottoscalr.Reconciler.{
  Cluster, Call, patch_status, patch_spec, retrieve_transition_time, fetch_target_achieved,
  fetch_initialized_time, spec_patch, generated, execution_done, workflow_owner, status_owner,
  fail_with, observe_target, record_recommendation, conclude, handle, reconcile,
}
use ottoscalr.Reconciler.Outcome.{
  first_of, is_achieved, patch_of, Answer, time_of, observed, started, concluded, unqueued,
  moved_at, recorded, writes, transitioned, outcome,
}

module _ (cluster : Cluster) where
  fetch_target_achieved_lem :
      (l : List Condition) → fetch_target_achieved l ≡ is_achieved (first_of "TargetRecoAchieved" l)
  unfolding fetch_target_achieved is_true
  fetch_target_achieved_lem [] = refl
  fetch_target_achieved_lem (c ∷ rest) = elim (Bool-cases (str_eq c.type "TargetRecoAchieved")) [
    | inl e ↦ rw e (status_lem c.status)
    | inr e ↦ rw e (fetch_target_achieved_lem rest)
  ]
    where
      status_lem :
          (status : ConditionStatus)
          → is_true status ≡ elim status [
            | condition_true ↦ true
            | condition_false ↦ false
            | condition_unknown ↦ false
          ]
      status_lem condition_true = refl
      status_lem condition_false = refl
      status_lem condition_unknown = refl

  fetch_initialized_time_lem :
      (l : List Condition)
      → fetch_initialized_time (cluster.now 2) l ≡ time_of cluster (first_of "Initialized" l)
  unfolding fetch_initialized_time
  fetch_initialized_time_lem [] = refl
  fetch_initialized_time_lem (c ∷ rest) = elim (Bool-cases (str_eq c.type "Initialized")) [
    | inl e ↦ rw e refl
    | inr e ↦ rw e (fetch_initialized_time_lem rest)
  ]

  observe_target-observed :
      (policyreco : PolicyRecommendation) (applied target : HpaConfiguration) (calls : List Call)
      → observe_target cluster policyreco applied target calls
        ≡ (ok tt, observed cluster policyreco applied target ++ calls)
  unfolding observe_target
  observe_target-observed policyreco applied target calls =
      let was = fetch_target_achieved_lem policyreco.conditions in
      let since = fetch_initialized_time_lem policyreco.conditions in
      elim (Bool-cases (deep_equals target applied)) [
        | inl e ↦ elim (Bool-cases (fetch_target_achieved policyreco.conditions)) [
          | inl a ↦ rw (e, a, sym was ∙ a) refl
          | inr a ↦ rw (e, a, sym was ∙ a, since) refl
        ]
        | inr e ↦ rw e refl
      ]

  generated-concluded :
      (policyreco : PolicyRecommendation) (applied target : HpaConfiguration)
      → patch_status workflow_owner (generated cluster policyreco applied target)
        ≡ patch_of "RecoWorkflowController" policyreco (concluded cluster applied target)
  unfolding create_policy_patch set_conditions other_conditions new_policy_recommendation_condition
  generated-concluded policyreco applied target = elim (Bool-cases (deep_equals target applied)) [
    | inl e ↦ rw e refl
    | inr e ↦ rw e refl
  ]

  execution_done-unqueued :
      (policyreco : PolicyRecommendation) (applied target : HpaConfiguration)
      → patch_status status_owner (execution_done cluster policyreco applied target)
        ≡ patch_of "RecoQueuedStatusManager" policyreco
            (concluded cluster applied target ++ unqueued cluster ∷ [])
  unfolding create_policy_patch set_conditions other_conditions new_policy_recommendation_condition
  execution_done-unqueued policyreco applied target =
      elim (Bool-cases (deep_equals target applied)) [ inl e ↦ rw e refl | inr e ↦ rw e refl ]

  spec_patch-recorded :
      (policyreco : PolicyRecommendation) (applied target : HpaConfiguration)
      (p : Option RecoPolicy) (t : Time)
      → patch_spec (spec_patch cluster policyreco applied target p t)
        ≡ recorded cluster policyreco applied target p t
  spec_patch-recorded policyreco applied target none t = refl
  spec_patch-recorded policyreco applied target (some chosen) t = refl

  module _ (works : (made : List Call) (c : Call) → cluster.answer made c ≡ ok tt)
      (policyreco : PolicyRecommendation) where
    module _ (applied target : HpaConfiguration) (p : Option RecoPolicy) where
      record_recommendation-ok :
          (t : Time)
          → retrieve_transition_time (some applied) (some policyreco) (cluster.now 0) ≡ ok t
          → record_recommendation cluster policyreco applied target p
              (started cluster policyreco ∷ [])
            ≡ transitioned cluster policyreco applied target p (some t)
      unfolding record_recommendation
      record_recommendation-ok t e =
          let made = patch_spec (spec_patch cluster policyreco applied target p t) in
          let concluding =
            patch_status workflow_owner (generated cluster policyreco applied target) in
          let explicit =
            patch_of "RecoWorkflowController" policyreco (concluded cluster applied target) in
          let unqueueing =
            patch_of "RecoQueuedStatusManager" policyreco
              (concluded cluster applied target ++ unqueued cluster ∷ []) in
          rw (e, works, observe_target-observed policyreco applied target, works, works)
            (ap (λ c. writes cluster policyreco applied target c concluding made)
                (execution_done-unqueued policyreco applied target)
              ∙ ap (λ c. writes cluster policyreco applied target unqueueing c made)
                  (generated-concluded policyreco applied target)
              ∙ ap (writes cluster policyreco applied target unqueueing explicit)
                  (spec_patch-recorded policyreco applied target p t))

      record_recommendation-panic :
          retrieve_transition_time (some applied) (some policyreco) (cluster.now 0) ≡ panic
          → record_recommendation cluster policyreco applied target p
              (started cluster policyreco ∷ [])
            ≡ (panic, started cluster policyreco ∷ [])
      unfolding record_recommendation
      record_recommendation-panic e = rw e refl

      record_recommendation-outcome :
          record_recommendation cluster policyreco applied target p
            (started cluster policyreco ∷ [])
          ≡ outcome cluster policyreco (ok (some applied, some target, p))
      unfolding retrieve_transition_time
      record_recommendation-outcome =
          let goes : (o : Option Time) → moved_at cluster policyreco applied ≡ o → _ ≡ _ =
            λ o m. ap (transitioned cluster policyreco applied target p) (sym m) in
          elim (Bool-cases (deep_equals applied policyreco.spec.current_hpa_configuration)) [
            | inl same ↦ elim (Option-cases policyreco.spec.transitioned_at) [
              | inr (t, at) ↦
                  record_recommendation-ok t (rw (same, at) refl)
                  ∙ goes (some t) (rw (same, at) refl)
              | inl none_yet ↦
                  record_recommendation-panic (rw (same, none_yet) refl)
                  ∙ goes none (rw (same, none_yet) refl)
            ]
            | inr changed ↦
                record_recommendation-ok (cluster.now 0) (rw changed refl)
                ∙ goes (some (cluster.now 0)) (rw changed refl)
          ]

    conclude-outcome :
        (x : Answer)
        → conclude cluster policyreco x (started cluster policyreco ∷ [])
          ≡ outcome cluster policyreco x
    unfolding conclude fail_with create_policy_patch set_conditions other_conditions
        new_policy_recommendation_condition
    conclude-outcome (err e) = rw (works, fail_with) refl
    conclude-outcome panic = refl
    conclude-outcome (ok (applied, none, p)) = rw (works, fail_with) refl
    conclude-outcome (ok (none, some target, p)) = rw (works, fail_with) refl
    conclude-outcome (ok (some applied, some target, p)) =
        record_recommendation-outcome applied target p

    -- Where the recommendation is read and the writes all succeed, the result of a run and its
    -- writes, in their order and with all their fields, are these for each answer of the workflow.
    -- First comes the condition that the task is in progress. Where the workflow fails or misses a
    -- configuration, the only other write says that the task has errored, with the error's text or
    -- the reason, and the result is the error, or a new request after 5 seconds. Where it answers
    -- both, the run patches the spec, observes the target, writes whether the applied configuration
    -- is the target and that the task is over, and last that the recommendation is not queued any
    -- more. It panics behind the first write where the workflow panics, or where the applied
    -- configuration has not changed and no time of transition is known.
    pub reconcile-records :
        (x : Answer)
        → cluster.get_policy_recommendation ≡ ok policyreco
        → cluster.execute (record {
          kind = policyreco.spec.workload_kind;
          name = policyreco.spec.workload_name;
          namespace = policyreco.namespace;
        })
          ≡ x
        → reconcile cluster [] ≡ outcome cluster policyreco x
    unfolding reconcile handle create_policy_patch set_conditions other_conditions
        new_policy_recommendation_condition
    reconcile-records x e answers =
        ap (λ r. handle cluster r []) e ∙ rw (works, answers) (conclude-outcome x)
