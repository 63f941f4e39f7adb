-- ===== src/Reconciler/Queueing.antt =====
-- Which updates of a recommendation queue it for `Reconcile`: `queuedTaskPredicate` of
-- pkg/controller/policyrecommendation_controller.go.
use ottoscalr.Prelude.{Bool, true, false, Option, none, some, ◌≡◌, ◌<◌, ◌≤◌, ◌⊎◌, ◌↔◌, refl, arith}
use ottoscalr.Result.{ok}
use ottoscalr.Api.{Time, PolicyRecommendation}
use ottoscalr.Reconciler.{SpecPatch, is_queued_by_update}

-- The recommendation behind a patch of its spec.
abbrev pub patched : PolicyRecommendation → SpecPatch → PolicyRecommendation
patched policyreco s = record policyreco {
  spec = record policyreco.spec {
    target_hpa_configuration = s.target_hpa_configuration;
    current_hpa_configuration = s.current_hpa_configuration;
    policy = s.policy;
    generated_at = some s.generated_at;
    transitioned_at = some s.transitioned_at;
    queued_for_execution = some s.queued_for_execution;
  };
}

-- When an update queues a recommendation whose fields are set: it was not queued and is now, or is
-- queued at a later time than before, or was queued after its last generation.
pub is_queued_by_update_iff :
    (old new : PolicyRecommendation) (was is_now : Bool)
    (queued_before queued_at generated_at : Time)
    → old.spec.queued_for_execution ≡ some was
    → new.spec.queued_for_execution ≡ some is_now
    → old.spec.queued_for_execution_at ≡ some queued_before
    → new.spec.queued_for_execution_at ≡ some queued_at
    → new.spec.generated_at ≡ some generated_at
    → 0 < queued_at
    → (is_queued_by_update old new ≡ ok true)
      ↔ ((is_now ≡ true) × ((was ≡ false) ⊎ (queued_before < queued_at)))
        ⊎ (generated_at < queued_at)
unfolding is_queued_by_update
is_queued_by_update_iff old new was is_now queued_before queued_at generated_at e1 e2 e3 e4 e5 h =
    ground arith

-- The patch that a run makes of a recommendation that it takes out of the queue does not queue it
-- again, when the recommendation was queued no later than the run started.
pub patch-ne-queued :
    (policyreco : PolicyRecommendation) (s : SpecPatch) (was : Bool)
    → policyreco.spec.queued_for_execution ≡ some was
    → s.queued_for_execution ≡ false
    → ((t : Time) → policyreco.spec.queued_for_execution_at ≡ some t → t ≤ s.generated_at)
    → is_queued_by_update policyreco (patched policyreco s) ≡ ok false
unfolding is_queued_by_update
patch-ne-queued policyreco s was e q h = go policyreco.spec.queued_for_execution_at refl
  where
    go :
        (m : Option Time)
        → policyreco.spec.queued_for_execution_at ≡ m
        → is_queued_by_update policyreco (patched policyreco s) ≡ ok false
    go none n = ground arith
    go (some t) n = ground (arith, h t n)
