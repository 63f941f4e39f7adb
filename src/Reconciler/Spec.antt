-- ===== src/Reconciler/Spec.antt =====
-- Every patch of the recommendation's spec by `Reconcile` of
-- pkg/controller/policyrecommendation_controller.go records what the workflow answered.
use ottoscalr.Prelude.{ℕ, true, false, Option, none, some, [], ◌≡◌, refl, arith, All, String}
use ottoscalr.Result.{Result, ok, err, panic}
use ottoscalr.Api.{HpaConfiguration, deep_equals, PolicyRecommendation}
use ottoscalr.Workflow.{RecoPolicy}
use ottoscalr.Calls.{
  give, perform, Keeps, Keeps-give, Keeps-read, Keeps-perform, Keeps->>=, Keeps-unless_failed,
  Keeps-if,
}
use ottoscalr.Reconciler.{
  Cluster, Call, patch_status, patch_spec, observe_target_reached, forget_target,
  retrieve_transition_time, fetch_target_achieved, policy_name, spec_patch, workload_meta, errored,
  in_progress, generated, execution_done, workflow_owner, status_owner, fail_with, observe_target,
  record_recommendation, conclude, handle, reconcile, dereference,
}

dereference-ok : {A : Type 0} (m : Option A) (a : A) → dereference m ≡ ok a → m ≡ some a
dereference-ok none a e = absurd (cc)
dereference-ok (some b) a e = cc

module _ (cluster : Cluster) where
  -- What a patch of the spec holds: the target and the applied configuration that the workflow
  -- answered, and the time of transition.
  abbrev pub Recorded : Call → Type 0
  Recorded (patch_spec s) =
      (policyreco : PolicyRecommendation) × (p : Option RecoPolicy)
      × (cluster.get_policy_recommendation ≡ ok policyreco)
      × (cluster.execute (workload_meta cluster policyreco)
          ≡ ok (some s.current_hpa_configuration, some s.target_hpa_configuration, p))
      × (s.name ≡ policyreco.name)
      × (s.namespace ≡ policyreco.namespace)
      × (s.queued_for_execution ≡ false)
      × (s.generated_at ≡ cluster.now 0)
      × (s.policy ≡ policy_name p policyreco)
      × (deep_equals s.current_hpa_configuration policyreco.spec.current_hpa_configuration ≡ false
          → s.transitioned_at ≡ cluster.now 0)
      × (deep_equals s.current_hpa_configuration policyreco.spec.current_hpa_configuration ≡ true
          → policyreco.spec.transitioned_at ≡ some s.transitioned_at)
  Recorded (patch_status owner s) = Unit
  Recorded (observe_target_reached t) = Unit
  Recorded forget_target = Unit

  transition_moved :
      (applied : HpaConfiguration) (policyreco : PolicyRecommendation) (t : _)
      → retrieve_transition_time (some applied) (some policyreco) (cluster.now 0) ≡ ok t
      → deep_equals applied policyreco.spec.current_hpa_configuration ≡ false
      → t ≡ cluster.now 0
  unfolding retrieve_transition_time
  transition_moved applied policyreco t e d = ground arith

  transition_kept :
      (applied : HpaConfiguration) (policyreco : PolicyRecommendation) (t : _)
      → retrieve_transition_time (some applied) (some policyreco) (cluster.now 0) ≡ ok t
      → deep_equals applied policyreco.spec.current_hpa_configuration ≡ true
      → policyreco.spec.transitioned_at ≡ some t
  unfolding retrieve_transition_time
  transition_kept applied policyreco t e d =
      dereference-ok policyreco.spec.transitioned_at t (ground arith)

  observe_target-Recorded :
      (policyreco : PolicyRecommendation) (applied target : HpaConfiguration)
      → Keeps Recorded (observe_target cluster policyreco applied target)
  unfolding observe_target
  observe_target-Recorded policyreco applied target =
      Keeps-if Recorded (deep_equals target applied) _ _
        (λ _.
          Keeps-if Recorded (fetch_target_achieved policyreco.conditions) (give (ok tt)) _
            (λ _. Keeps-give Recorded (ok tt)) (λ _ calls made. (tt, made)))
        (λ _ calls made. (tt, made))

  record_recommendation-Recorded :
      (policyreco : PolicyRecommendation) (applied target : HpaConfiguration)
      (p : Option RecoPolicy)
      → cluster.get_policy_recommendation ≡ ok policyreco
      → cluster.execute (workload_meta cluster policyreco) ≡ ok (some applied, some target, p)
      → Keeps Recorded (record_recommendation cluster policyreco applied target p)
  unfolding record_recommendation
  record_recommendation-Recorded policyreco applied target p e x =
      Keeps-read Recorded
        (retrieve_transition_time (some applied) (some policyreco) (cluster.now 0)) _
        (λ t transition.
          Keeps-unless_failed Recorded none
            (perform cluster.answer (patch_spec (spec_patch cluster policyreco applied target p t)))
            _
            (Keeps-perform Recorded cluster.answer
              (patch_spec (spec_patch cluster policyreco applied target p t))
              (
                policyreco,
                p,
                e,
                x,
                refl,
                refl,
                refl,
                refl,
                refl,
                transition_moved applied policyreco t transition,
                transition_kept applied policyreco t transition,
              ))
            (Keeps->>= Recorded (observe_target cluster policyreco applied target) _
              (observe_target-Recorded policyreco applied target)
              (λ _.
                Keeps-unless_failed Recorded none
                  (perform cluster.answer
                    (patch_status workflow_owner (generated cluster policyreco applied target)))
                  _ (λ calls made. (tt, made))
                  (Keeps-unless_failed Recorded none
                    (perform cluster.answer (
                      patch_status status_owner (execution_done cluster policyreco applied target)))
                    (give (ok none)) (λ calls made. (tt, made)) (λ calls made. made)))))

  fail_with-Recorded :
      (policyreco : PolicyRecommendation) (message : String) (result : Result (Option ℕ))
      → Keeps Recorded (fail_with cluster policyreco message result)
  unfolding fail_with
  fail_with-Recorded policyreco message result =
      Keeps-unless_failed Recorded none
        (perform cluster.answer (patch_status workflow_owner (errored cluster policyreco message)))
        (give result) (λ calls made. (tt, made)) (λ calls made. made)

  conclude-Recorded :
      (policyreco : PolicyRecommendation) (r : _)
      → cluster.get_policy_recommendation ≡ ok policyreco
      → cluster.execute (workload_meta cluster policyreco) ≡ r
      → Keeps Recorded (conclude cluster policyreco r)
  unfolding conclude
  conclude-Recorded policyreco (err x) e h = fail_with-Recorded policyreco _ _
  conclude-Recorded policyreco panic e h = λ calls made. made
  conclude-Recorded policyreco (ok (applied, none, p)) e h = fail_with-Recorded policyreco _ _
  conclude-Recorded policyreco (ok (none, some target, p)) e h = fail_with-Recorded policyreco _ _
  conclude-Recorded policyreco (ok (some applied, some target, p)) e h =
      record_recommendation-Recorded policyreco applied target p e h

  handle-Recorded :
      (r : Result PolicyRecommendation)
      → cluster.get_policy_recommendation ≡ r
      → Keeps Recorded (handle cluster r)
  unfolding handle
  handle-Recorded (ok policyreco) e =
      Keeps-unless_failed Recorded none
        (perform cluster.answer (patch_status workflow_owner (in_progress cluster policyreco))) _
        (λ calls made. (tt, made))
        (conclude-Recorded policyreco (cluster.execute (workload_meta cluster policyreco)) e refl)
  handle-Recorded (err x) e = λ calls made. made
  handle-Recorded panic e = λ calls made. made

  -- Every patch of a spec that a run makes is for the recommendation that it fetched, and records
  -- the two configurations that the workflow answered, with the policy that it answered or, where
  -- it answered none, the recommendation's own. It takes the recommendation out of the queue. The
  -- time of transition is the start of the run where the applied configuration changes, and stays
  -- what it was where it does not.
  pub reconcile-Recorded : All Recorded (reconcile cluster []).1
  unfolding reconcile
  reconcile-Recorded = handle-Recorded cluster.get_policy_recommendation refl [] tt
