-- ===== src/Workflow/Building.antt =====
-- What the builder of pkg/reco/workflow.go guarantees of the workflow that it builds.
use ottoscalr.Result.{Result, ok, err, panic, ◌>>=◌, Result-cases}
use ottoscalr.Prelude.{
  String, Option, none, some, str_eq, eq_iff, if◌then◌else◌, ◌≡◌, arith, ℤ, List, ◌≢◌, All,
  Option-cases, pos, inl, inr, [], ◌∷◌, refl, ap, ◌∙◌,
}
use ottoscalr.Workflow.{
  Iterator, Workflow, iterators_of, run_iterators, Result, execute, WorkloadMeta, ok,
  PolicyRecommendation, RecoPolicy, panic, Policy, Recommender, ◌>>=◌, find_closest_safe_policy,
  should_apply_reco, generate_next_reco_config, execute_with, err, HpaConfiguration,
  pick_safest_policy,
}
use ottoscalr.Workflow.Builder.{
  lookup_iterator, with_policy_iterator, with_policy_iterators, reconciler_workflow, build,
  new_builder,
}

abbrev or_else : Option Iterator → Option Iterator → Option Iterator
or_else none y = y
or_else (some x) y = some x

lookup-with_policy_iterator :
    (n name : String) (p : Iterator) (b : Workflow)
    → lookup_iterator n (iterators_of (with_policy_iterator name p b).policy_iterators)
      ≡ or_else
          (lookup_iterator n (iterators_of b.policy_iterators))
          (if str_eq name n then some p else none)
unfolding with_policy_iterator lookup_iterator iterators_of
lookup-with_policy_iterator n name p b = ground (arith, eq_iff name n)

lookup-with_policy_iterators :
    (n : String) (its : List (String × Iterator)) (b : Workflow)
    → lookup_iterator n (iterators_of (with_policy_iterators its b).policy_iterators)
      ≡ or_else (lookup_iterator n (iterators_of b.policy_iterators)) (lookup_iterator n its)
unfolding with_policy_iterators lookup_iterator
lookup-with_policy_iterators n [] b = ground arith
lookup-with_policy_iterators n ((name, p) ∷ rest) b = ground (
  arith,
  lookup-with_policy_iterators n rest (with_policy_iterator name p b),
  lookup-with_policy_iterator n name p b,
)

build-fields :
    (b w : Workflow)
    → build b ≡ ok w
    → (w.policy_iterators ≡ b.policy_iterators) × (w.min_required_replicas ≢ pos 0)
unfolding build
build-fields b w h = ground arith

-- A built reconciler workflow has, under each name, the first iterator registered under that name,
-- and its required replicas are those configured, or 3 where that is 0.
pub reconciler_workflow-lookup :
    (client : Option (WorkloadMeta → Result PolicyRecommendation)) (required : ℤ)
    (recommender : Option Recommender) (store : Option (Result (List Policy)))
    (its : List (String × Iterator)) (w : Workflow) (n : String)
    → reconciler_workflow client required recommender store its ≡ ok w
    → (lookup_iterator n (iterators_of w.policy_iterators) ≡ lookup_iterator n its)
      × (w.min_required_replicas ≢ pos 0)
unfolding reconciler_workflow new_builder lookup_iterator iterators_of
reconciler_workflow-lookup client required recommender store its w n h =
    let (same, required) = build-fields _ w h in
    (
      ap (λ m. lookup_iterator n (iterators_of m)) same ∙ lookup-with_policy_iterators n its _,
      required,
    )

run_iterators-ne-panic :
    (its : List (String × Iterator)) (wm : WorkloadMeta) (next : Option RecoPolicy)
    → All (λ it. it.1 wm ≢ panic) its
    → run_iterators its wm next ≢ panic
unfolding run_iterators
run_iterators-ne-panic [] wm next a h = cc
run_iterators-ne-panic ((name, pi) ∷ rest) wm next a h = elim (Result-cases (pi wm)) [
  | inl (none, e) ↦ run_iterators-ne-panic rest wm next a.1 (rw e at h)
  | inl (some p, e) ↦
      run_iterators-ne-panic rest wm (pick_safest_policy next (some p)) a.1 (rw e at h)
  | inr (inl (x, e)) ↦ cc (rw e at h)
  | inr (inr e) ↦ a.0 e
]

bind-ne-panic {ℓ κ} :
    {A : Type ℓ} {B : Type κ} (m : Result A) (f : A → Result B)
    → m ≢ panic
    → ((a : A) → f a ≢ panic)
    → (m >>= f) ≢ panic
bind-ne-panic (ok a) f hm hf = hf a
bind-ne-panic (err e) f hm hf = λ h. cc
bind-ne-panic panic f hm hf = λ h. hm refl

module _ (ceil_float : ℤ → ℤ) (w : Workflow) (wm : WorkloadMeta) (store : Result (List Policy))
    (get : WorkloadMeta → Result PolicyRecommendation) (s : w.sorted_policies ≡ some store)
    (store_runs : store ≢ panic) (g : w.get_reco ≡ some get) (get_runs : get wm ≢ panic) where
  find_closest-ne-panic : (c : HpaConfiguration) → find_closest_safe_policy w c ≢ panic
  unfolding find_closest_safe_policy
  find_closest-ne-panic c h = ground (arith, store_runs)

  should_apply-ne-panic :
      (c : Option HpaConfiguration) (p : Option RecoPolicy) → should_apply_reco w c p wm ≢ panic
  unfolding should_apply_reco
  should_apply-ne-panic none p h = cc
  should_apply-ne-panic (some c) none h = ground (arith, find_closest-ne-panic c)
  should_apply-ne-panic (some c) (some p) h = ground (arith, find_closest-ne-panic c, get_runs)

  generate_next-ne-panic :
      (c : Option HpaConfiguration) (p : Option RecoPolicy)
      → generate_next_reco_config ceil_float w c p wm ≢ panic
  unfolding generate_next_reco_config
  generate_next-ne-panic c p =
      bind-ne-panic (should_apply_reco w c p wm) _ (should_apply-ne-panic c p) (λ d h. cc)

  execute_with-ne-panic :
      (r : Recommender)
      → r wm ≢ panic
      → All (λ it. it.1 wm ≢ panic) (iterators_of w.policy_iterators)
      → execute_with ceil_float r w wm ≢ panic
  unfolding execute_with
  execute_with-ne-panic r rp ip = bind-ne-panic (r wm) _ rp λ c.
      bind-ne-panic (run_iterators (iterators_of w.policy_iterators) wm none) _
        (run_iterators-ne-panic (iterators_of w.policy_iterators) wm none ip)
        λ next.
          bind-ne-panic (generate_next_reco_config ceil_float w _ next wm) _
            (generate_next-ne-panic _ next) (λ d h. cc)

build-has_clients :
    (b w : Workflow)
    → build b ≡ ok w
    → ((store : Result (List Policy)) × (w.sorted_policies ≡ some store))
      × ((get : WorkloadMeta → Result PolicyRecommendation) × (w.get_reco ≡ some get))
unfolding build
build-has_clients b w h = elim (Option-cases b.sorted_policies) [
  | inl n ↦ absurd (ground arith)
  | inr (store, e) ↦ elim (Option-cases b.get_reco) [
    | inl n ↦ absurd (ground arith)
    | inr (get, e') ↦ ((store, ground arith), (get, ground arith))
  ]
]

-- No nil store or client is reached by a run of a built workflow: when its recommender, iterators,
-- store and client do not panic, the run does not either.
pub execute-ne-panic :
    (ceil_float : ℤ → ℤ) (b w : Workflow) (wm : WorkloadMeta)
    → build b ≡ ok w
    → ((store : Result (List Policy)) → w.sorted_policies ≡ some store → store ≢ panic)
    → ((get : WorkloadMeta → Result PolicyRecommendation) → w.get_reco ≡ some get → get wm ≢ panic)
    → ((r : Recommender) → w.recommender ≡ some r → r wm ≢ panic)
    → All (λ it. it.1 wm ≢ panic) (iterators_of w.policy_iterators)
    → execute ceil_float w wm ≢ panic
unfolding execute
execute-ne-panic ceil_float b w wm built sp gp rp ip =
    let ((store, s), (get, g)) = build-has_clients b w built in
    elim (Option-cases w.recommender) [
      | inl n ↦ λ h. absurd (ground arith)
      | inr (r, e) ↦ λ h.
          execute_with-ne-panic ceil_float w wm store get s (sp store s) g (gp get g) r (rp r e) ip
            (ground arith)
    ]
