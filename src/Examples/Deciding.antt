-- ===== src/Examples/Deciding.antt =====
-- The recommendation workflow with two iterators.
use mathlib.Core.List.{mem-cons, Permᴰ}
use mathlib.Core.Logic.Or
use ottoscalr.Prelude.{
  ℤ, pos, ◌≤ℤ◌, ◌≢◌, ◌≡◌, ◌⊎◌, ◌↔◌, String, none, some, List, [], ◌∷◌, refl, arith, Mem, ap, wrap,
  ◌-ℤ◌, div_trunc, ◌*ℤ◌,
}
use ottoscalr.Result.{Result, ok, panic}
use ottoscalr.Api.{Policy}
use ottoscalr.Store.Sorting.{IsSorted}
use ottoscalr.Workflow.{
  WorkloadMeta, RecoPolicy, Workflow, Iterator, policy_from_cr, run_iterators, pick_safest_policy,
  iterators_of, find_closest_safe_policy, last_candidate, should_apply_reco,
  is_target_recommendation_achieved, transform_target_reco_config, create_reco_config_from_policy,
  generate_next_reco_config, execute,
}
use ottoscalr.Workflow.Picking.{proposals, run_iterators-least, run_iterators_any_order, risk_of}
use ottoscalr.Workflow.Applying.{execute-le_proposals, execute-safer}
use ottoscalr.Workflow.Replicas.{transform_target_reco_config-bounds}
use ottoscalr.Examples.{
  safe_policy, middle_policy, risky_policy, configuration, recommendation, workload_meta,
}

abbrev by_risk : List Policy
by_risk = safe_policy ∷ middle_policy ∷ risky_policy ∷ []

abbrev propose : Policy → Iterator
propose p wm = ok (some (policy_from_cr p))

abbrev iterators : List (String × Iterator)
iterators = ("default", propose risky_policy) ∷ ("breach", propose middle_policy) ∷ []

abbrev swapped_iterators : List (String × Iterator)
swapped_iterators = ("breach", propose middle_policy) ∷ ("default", propose risky_policy) ∷ []

abbrev workflow : Workflow
workflow = record {
  recommender = some (λ wm. ok (some (configuration 2 20 60)));
  policy_iterators = some iterators;
  sorted_policies = some (ok by_risk);
  get_reco = some (λ wm. ok recommendation);
  min_required_replicas = pos 3;
}

abbrev exact_ceil : ℤ → ℤ
exact_ceil i = i

run_iterators-least_example :
    ((some (policy_from_cr middle_policy) ≡ none) ↔ (proposals iterators workload_meta ≡ []))
    × ((p : RecoPolicy)
        → some (policy_from_cr middle_policy) ≡ some p
        → Mem p (proposals iterators workload_meta)
          × ((q : RecoPolicy)
              → Mem q (proposals iterators workload_meta)
              → p.risk_index ≤ℤ q.risk_index))
unfolding run_iterators pick_safest_policy
run_iterators-least_example =
    run_iterators-least iterators workload_meta (some (policy_from_cr middle_policy)) refl

run_iterators_any_order_example :
    risk_of (some (policy_from_cr middle_policy)) ≡ risk_of (some (policy_from_cr middle_policy))
unfolding run_iterators pick_safest_policy
run_iterators_any_order_example =
    run_iterators_any_order iterators swapped_iterators workload_meta
      (some (policy_from_cr middle_policy)) (some (policy_from_cr middle_policy))
      (Permᴰ.swap refl refl) refl refl

by_risk-IsSorted : IsSorted by_risk
by_risk-IsSorted = ((omega arith, (omega arith, tt)), ((omega arith, tt), (tt, tt)))

execute-le_proposals_example : middle_policy.risk_index ≤ℤ risky_policy.risk_index
unfolding execute iterators_of run_iterators pick_safest_policy find_closest_safe_policy
    last_candidate should_apply_reco is_target_recommendation_achieved transform_target_reco_config
    create_reco_config_from_policy generate_next_reco_config proposals
execute-le_proposals_example =
    execute-le_proposals exact_ceil workflow workload_meta (policy_from_cr middle_policy)
      (policy_from_cr risky_policy) refl (mem-cons.1 (Or.inl refl))

execute-safer_example :
    (middle_policy.risk_index ≤ℤ middle_policy.risk_index)
    × (Mem (policy_from_cr middle_policy) (proposals iterators workload_meta)
        ⊎ ((policy_from_cr middle_policy ≡ policy_from_cr middle_policy)
            × (some (configuration 3 20 50) ≡ some (configuration 3 20 60))))
unfolding execute iterators_of run_iterators pick_safest_policy find_closest_safe_policy
    last_candidate should_apply_reco is_target_recommendation_achieved transform_target_reco_config
    create_reco_config_from_policy generate_next_reco_config proposals wrap ◌-ℤ◌ div_trunc ◌*ℤ◌
execute-safer_example =
    execute-safer exact_ceil workflow workload_meta (policy_from_cr middle_policy)
      (policy_from_cr middle_policy) (policy_from_cr risky_policy) refl (mem-cons.1 (Or.inl refl))
      refl

transform_target_reco_config-bounds_example :
    (pos 20 ≡ pos 20)
    × (pos 60 ≡ pos 60)
    × (pos 2 ≤ℤ pos 3)
    × (pos 2 ≤ℤ pos 20 → pos 3 ≤ℤ pos 20)
    × (pos 3 ≤ℤ pos 20 → pos 3 ≤ℤ pos 3)
unfolding transform_target_reco_config
transform_target_reco_config-bounds_example =
    transform_target_reco_config-bounds (configuration 2 20 60) (configuration 3 20 60) (pos 3) refl

result-ne-panic : {A : Type 0} (r s : Result A) (a : A) → r ≡ ok a → some r ≡ some s → s ≢ panic
result-ne-panic r s a e f h = cc (e, f, h)

call-ne-panic :
    {A : Type 0} (f g : WorkloadMeta → Result A) (a : A)
    → f workload_meta ≡ ok a
    → some f ≡ some g
    → g workload_meta ≢ panic
call-ne-panic f g a e k h =
    let same : f ≡ g = cc k in cc (e, h, ap (λ (x : WorkloadMeta → Result _). x workload_meta) same)
