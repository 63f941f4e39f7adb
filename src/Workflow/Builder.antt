-- ===== src/Workflow/Builder.antt =====
-- The builder of pkg/reco/workflow.go, and its use by `NewPolicyRecommendationReconciler` of
-- pkg/controller/policyrecommendation_controller.go. A builder is a workflow whose fields may be
-- missing; the logger, which no result depends on, is left out.
use ottoscalr.Prelude.{
  ℤ, pos, ◌==ℤ◌, String, Bool, true, false, ◌&&◌, ◌||◌, Option, none, some, List, [], ◌∷◌, str_eq,
  if◌then◌else◌,
}
use ottoscalr.Result.{Result, ok, err, failed}
use ottoscalr.Api.{Policy, PolicyRecommendation}
use ottoscalr.Workflow.{WorkloadMeta, Iterator, Recommender, Workflow}

unfoldable pub new_builder : Workflow
new_builder = record {
  recommender = none;
  policy_iterators = none;
  sorted_policies = none;
  get_reco = none;
  min_required_replicas = pos 0;
}

unfoldable pub lookup_iterator : String → List (String × Iterator) → Option Iterator
lookup_iterator name [] = none
lookup_iterator name ((n, pi) ∷ rest) = if str_eq n name then some pi else lookup_iterator name rest

abbrev pub has : Option Iterator → Bool
has none = false
has (some _) = true

with_recommender : Option Recommender → Workflow → Workflow
with_recommender r b = elim b.recommender [ none ↦ record b { recommender = r } | some _ ↦ b ]

-- A name that is there already keeps its iterator.
add_iterator : String → Iterator → Option (List (String × Iterator)) → List (String × Iterator)
add_iterator name p none = (name, p) ∷ []
add_iterator name p (some m) = if has (lookup_iterator name m) then m else (name, p) ∷ m

unfoldable pub with_policy_iterator : String → Iterator → Workflow → Workflow
unfolding add_iterator
with_policy_iterator name p b = record b {
  policy_iterators = some (add_iterator name p b.policy_iterators);
}

with_min_required_replicas : ℤ → Workflow → Workflow
with_min_required_replicas n b = record b { min_required_replicas = n }

with_policy_store : Option (Result (List Policy)) → Workflow → Workflow
with_policy_store store b = record b { sorted_policies = store }

with_k8s_client : Option (WorkloadMeta → Result PolicyRecommendation) → Workflow → Workflow
with_k8s_client client b = record b { get_reco = client }

abbrev is_nil {ℓ} : {A : Type ℓ} → Option A → Bool
is_nil none = true
is_nil (some _) = false

unfoldable pub build : Workflow → Result Workflow
build b =
    if is_nil b.recommender && is_nil b.policy_iterators
    then err (failed "both recommender and policy iterators can't be nil")
    else if is_nil b.sorted_policies || is_nil b.get_reco
    then err (failed "policy store or k8sClient can't be nil")
    else ok (record b {
      min_required_replicas =
          if b.min_required_replicas ==ℤ pos 0 then pos 3 else b.min_required_replicas;
    })

unfoldable pub with_policy_iterators : List (String × Iterator) → Workflow → Workflow
with_policy_iterators [] b = b
with_policy_iterators ((name, p) ∷ rest) b =
    with_policy_iterators rest (with_policy_iterator name p b)

-- The workflow that the reconciler of policy recommendations runs.
unfoldable pub reconciler_workflow :
    Option (WorkloadMeta → Result PolicyRecommendation)
    → ℤ
    → Option Recommender
    → Option (Result (List Policy))
    → List (String × Iterator)
    → Result Workflow
unfolding with_recommender with_min_required_replicas with_policy_store with_k8s_client new_builder
reconciler_workflow client min_required recommender store its = build (
    with_policy_iterators its (
      with_k8s_client client (
        with_policy_store store
          (with_min_required_replicas min_required (with_recommender recommender new_builder)))))
