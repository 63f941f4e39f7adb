-- ===== src/DeploymentTrigger/Requeueing.antt =====
-- The deployment trigger together with the predicate of the recommendation controller.
use ottoscalr.Prelude.{
  Bool, ltb, ◌≤◌, Option, none, inl, inr, Bool-cases, arith, ◌<◌, String, true, false, some, List,
  [], ◌∷◌, ◌++◌, ◌≡◌, refl, ap, ◌∙◌, All, ◌⊎◌,
}
use ottoscalr.Result.{ok, err, Err, is_not_found}
use ottoscalr.Api.{PolicyRecommendation, Time}
use ottoscalr.Enforcer.{Workload}
use ottoscalr.Reconciler.{is_queued_by_update}
use ottoscalr.Trigger.Handler.{queued}
use ottoscalr.Trigger.Handler.Queued.{queued-is_queued}
use ottoscalr.DeploymentTrigger.{
  Call, update, Cluster, deployment_trigger_name, requeue_found, requeue_policy_recommendation,
  handle_object, try_clients, reconcile,
}

module _ (cluster : Cluster) (namespace name : String) where
  abbrev pub Unknown : String → Type 0
  Unknown kind =
      (e : Err) × (cluster.get_object kind namespace name ≡ err e) × (is_not_found e ≡ true)

  try_clients-found :
      (before after : List String) (kind : String) (w : Workload) (calls : List Call)
      → All Unknown before
      → cluster.get_object kind namespace name ≡ ok w
      → try_clients cluster (before ++ kind ∷ after) namespace name calls
        ≡ requeue_policy_recommendation cluster w calls
  unfolding try_clients handle_object
  try_clients-found [] after kind w calls unknown found = rw (found, handle_object) refl
  try_clients-found (k ∷ before) after kind w calls ((e, absent, n), unknown) found =
      rw (absent, handle_object, n) (try_clients-found before after kind w calls unknown found)

  -- The recommendation with its two queue fields set.
  abbrev pub requeued : PolicyRecommendation → PolicyRecommendation
  requeued r = record {
    name = r.name;
    namespace = r.namespace;
    spec = record {
      workload_kind = r.spec.workload_kind;
      workload_name = r.spec.workload_name;
      target_hpa_configuration = r.spec.target_hpa_configuration;
      current_hpa_configuration = r.spec.current_hpa_configuration;
      policy = r.spec.policy;
      generated_at = r.spec.generated_at;
      transitioned_at = r.spec.transitioned_at;
      queued_for_execution = some true;
      queued_for_execution_at = some cluster.now;
    };
    conditions = r.conditions;
  }

  -- The clock stands at the zero time, the recommendation has no queue flag, or it is queued already
  -- without a time or at a time that is not before this one.
  abbrev pub Stale : PolicyRecommendation → Type 0
  Stale r =
      (cluster.now ≡ 0)
      ⊎ ((r.spec.queued_for_execution ≡ none)
          ⊎ ((r.spec.queued_for_execution ≡ some true)
              × ((r.spec.queued_for_execution_at ≡ none)
                  ⊎ ((t : Time) × (r.spec.queued_for_execution_at ≡ some t) × (cluster.now ≤ t)))))

  flagged :
      (r : PolicyRecommendation) (flag : Option Bool) (at : Option Time)
      → r.spec.queued_for_execution ≡ flag
      → r.spec.queued_for_execution_at ≡ at
      → 0 < cluster.now
      → (is_queued_by_update r (requeued r) ≡ ok true) ⊎ Stale r
  flagged r none at e q positive = inr (inr (inl e))
  flagged r (some false) at e q positive =
      inl (queued-is_queued r false cluster.now positive e (inl refl))
  flagged r (some true) none e q positive = inr (inr (inr (e, inl q)))
  flagged r (some true) (some t) e q positive = elim (Bool-cases (ltb t cluster.now)) [
    | inl lt ↦ inl (queued-is_queued r true cluster.now positive e (inr (t, q, ground arith)))
    | inr ge ↦ inr (inr (inr (e, inr (t, q, ground arith))))
  ]

  -- Where a client has the workload and those before it answer not found, its recommendation exists
  -- and the update succeeds, a run ends without an error, and its only write is the recommendation
  -- with the queue flag set and the present as the time of queueing. The recommendation controller
  -- takes the update up, unless the present is the zero time, or the recommendation had no queue
  -- flag, or it was queued already without a time or at a time not before the present.
  pub reconcile-requeues :
      (before after : List String) (kind : String) (w : Workload) (r : PolicyRecommendation)
      → cluster.kinds ≡ before ++ kind ∷ after
      → All Unknown before
      → cluster.get_object kind namespace name ≡ ok w
      → cluster.get_policy_recommendation w.namespace w.name ≡ ok r
      → ((c : Call) → cluster.answer [] c ≡ ok tt)
      → (reconcile cluster namespace name []
          ≡ (ok tt, update "DeploymentTriggerController" (requeued r) ∷ []))
        × ((is_queued_by_update r (requeued r) ≡ ok true) ⊎ Stale r)
  unfolding reconcile requeue_policy_recommendation requeue_found
  reconcile-requeues before after kind w r kinds unknown found got works = (
    ap (λ l. try_clients cluster l namespace name []) kinds
        ∙ try_clients-found before after kind w [] unknown found
        ∙ ap (λ q. requeue_found cluster q []) got
        ∙ ap (λ a. (a, update deployment_trigger_name (queued cluster.now r) ∷ []))
            (works (update deployment_trigger_name (queued cluster.now r))),
    elim (Bool-cases (ltb 0 cluster.now)) [
      | inl positive ↦
          flagged r r.spec.queued_for_execution r.spec.queued_for_execution_at refl refl
            (ground arith)
      | inr zero_time ↦ inr (inl (ground arith))
    ],
  )
