-- ===== src/Workflow.antt =====
-- pkg/reco/workflow.go: the recommendation workflow. The recommender, the policy iterators, the
-- policy store and the API server are fields of the workflow; a nil interface or map is `none`. The
-- map of iterators is a list in the order in which `range` visits it. `ceil_float i` stands for
-- `int(math.Ceil(float64(i)))`.
pub mod Picking
pub mod Applying
pub mod Replicas
pub mod Builder
pub mod Building
use ottoscalr.Prelude.{
  ℕ, ℤ, pos, ◌-ℤ◌, ◌*ℤ◌, div_trunc, wrap, leb_ℤ, ltb_ℤ, ◌==ℤ◌, String, Bool, true, false, ◌&&◌,
  ◌||◌, Option, none, some, List, [], ◌∷◌, str_eq, if◌then◌else◌,
}
use ottoscalr.Result.{Result, ok, err, panic, failed, ◌>>=◌}
use ottoscalr.Api.{
  Policy, HpaConfiguration, PolicyRecommendation, Condition, ConditionStatus, condition_true,
}

pub record WorkloadMeta : Type 0 where
  pub kind : String
  pub name : String
  pub namespace : String

-- `reco.Policy`.
pub record RecoPolicy : Type 0 where
  pub name : String
  pub risk_index : ℤ
  pub min_replica_percentage_cut : ℤ
  pub target_utilization : ℤ

-- `PolicyFromCR` of policyiterators.go, at a policy that is not nil.
abbrev pub policy_from_cr : Policy → RecoPolicy
policy_from_cr p = record {
  name = p.name;
  risk_index = p.risk_index;
  min_replica_percentage_cut = p.min_replica_percentage_cut;
  target_utilization = p.target_utilization;
}

abbrev pub Iterator : Type 0
Iterator = WorkloadMeta → Result (Option RecoPolicy)

abbrev pub Recommender : Type 0
Recommender = WorkloadMeta → Result (Option HpaConfiguration)

pub record Workflow : Type 0 where
  pub recommender : Option Recommender
  pub policy_iterators : Option (List (String × Iterator))
  pub sorted_policies : Option (Result (List Policy))  -- GetSortedPolicies of the policy store
  pub get_reco : Option (WorkloadMeta → Result PolicyRecommendation)  -- Get of the API client
  pub min_required_replicas : ℤ

unfoldable pub pick_safest_policy : Option RecoPolicy → Option RecoPolicy → Option RecoPolicy
pick_safest_policy none p2 = p2
pick_safest_policy (some p1) none = some p1
pick_safest_policy (some p1) (some p2) =
    if leb_ℤ p1.risk_index p2.risk_index then some p1 else some p2

unfoldable pub transform_target_reco_config : Option HpaConfiguration → ℤ → Option HpaConfiguration
transform_target_reco_config none min_required = none
transform_target_reco_config (some c) min_required = some (record {
  min = if leb_ℤ min_required c.max && ltb_ℤ c.min min_required then min_required else c.min;
  max = c.max;
  target_metric_value = c.target_metric_value;
})

-- The body of the loop over the map: an error ends it, a nil policy is skipped.
unfoldable pub run_iterators :
    List (String × Iterator) → WorkloadMeta → Option RecoPolicy → Result (Option RecoPolicy)
unfolding pick_safest_policy
run_iterators [] wm next = ok next
run_iterators ((name, pi) ∷ rest) wm next = elim (pi wm) [
  | ok none ↦ run_iterators rest wm next
  | ok (some p) ↦ run_iterators rest wm (pick_safest_policy next (some p))
  | err e ↦ err e
  | panic ↦ panic
]

-- The eligible policies are full cuts whose target is not above that of the recommendation; the
-- loop keeps the last one.
abbrev pub is_closest_candidate : HpaConfiguration → Policy → Bool
is_closest_candidate config pc =
    pc.min_replica_percentage_cut ==ℤ pos 100
    && leb_ℤ pc.target_utilization config.target_metric_value

unfoldable pub last_candidate : HpaConfiguration → List Policy → Option Policy → Option Policy
last_candidate config [] closest = closest
last_candidate config (pc ∷ rest) closest =
    last_candidate config rest (if is_closest_candidate config pc then some pc else closest)

found_closest : Option Policy → Result RecoPolicy
found_closest none = err (failed "closest safe policy not found")
found_closest (some p) = ok (policy_from_cr p)

-- A nil store is a nil pointer here.
unfoldable pub find_closest_safe_policy : Workflow → HpaConfiguration → Result RecoPolicy
unfolding found_closest
find_closest_safe_policy w config = elim w.sorted_policies [
  | none ↦ panic
  | some r ↦ r >>= λ policies. found_closest (last_candidate config policies none)
]

-- `strconv.ParseBool` of "True", "False" and "Unknown".
abbrev pub parse_status : ConditionStatus → Bool
parse_status condition_true = true
parse_status _ = false

-- The first condition of type `TargetRecoAchieved`.
unfoldable pub is_target_recommendation_achieved : List Condition → Bool
is_target_recommendation_achieved [] = false
is_target_recommendation_achieved (c ∷ rest) =
    if str_eq c.type "TargetRecoAchieved"
    then parse_status c.status
    else is_target_recommendation_achieved rest

-- The last `if` of `shouldApplyReco`.
apply_by_risk : RecoPolicy → RecoPolicy → Bool → Bool × Option RecoPolicy
apply_by_risk policy closest achieved =
    if ltb_ℤ closest.risk_index policy.risk_index
      || (achieved && policy.risk_index ==ℤ closest.risk_index)
    then (true, some closest)
    else (false, none)

closest_or_failed : Result RecoPolicy → Result RecoPolicy
closest_or_failed (ok p) = ok p
closest_or_failed (err e) = err (failed "error finding closest safe policy for config")
closest_or_failed panic = panic

reco_or_failed :
    Option (WorkloadMeta → Result PolicyRecommendation) → WorkloadMeta → Result PolicyRecommendation
reco_or_failed none wm = panic
reco_or_failed (some get) wm = elim (get wm) [
  | ok r ↦ ok r
  | err e ↦ err (failed "error getting the policyreco")
  | panic ↦ panic
]

unfoldable pub should_apply_reco :
    Workflow
    → Option HpaConfiguration
    → Option RecoPolicy
    → WorkloadMeta
    → Result (Bool × Option RecoPolicy)
unfolding closest_or_failed reco_or_failed apply_by_risk
should_apply_reco w none policy wm = ok (false, none)
should_apply_reco w (some config) none wm = do
  closest ← closest_or_failed (find_closest_safe_policy w config)
  ok (true, some closest)
should_apply_reco w (some config) (some policy) wm = do
  closest ← closest_or_failed (find_closest_safe_policy w config)
  reco ← reco_or_failed w.get_reco wm
  ok (apply_by_risk policy closest (is_target_recommendation_achieved reco.conditions))

unfoldable pub iterators_of : Option (List (String × Iterator)) → List (String × Iterator)
iterators_of none = []
iterators_of (some its) = its

module _ (ceil_float : ℤ → ℤ) where
  -- Go's 64-bit `int`: each operation wraps, and `/ 100` rounds towards zero.
  -- `none` is the nil result of the error for a nil argument, which the one caller drops.
  unfoldable pub create_reco_config_from_policy :
      Option RecoPolicy → Option HpaConfiguration → Option HpaConfiguration
  create_reco_config_from_policy none config = none
  create_reco_config_from_policy (some policy) none = none
  create_reco_config_from_policy (some policy) (some config) =
      let range = wrap 64 (config.max -ℤ config.min) in
      let product = wrap 64 (policy.min_replica_percentage_cut *ℤ range) in
      some (record {
        min = wrap 64 (config.max -ℤ ceil_float (div_trunc product 100));
        max = config.max;
        target_metric_value = policy.target_utilization;
      })

  unfoldable pub generate_next_reco_config :
      Workflow
      → Option HpaConfiguration
      → Option RecoPolicy
      → WorkloadMeta
      → Result (Option HpaConfiguration × Option RecoPolicy)
  generate_next_reco_config w config policy wm = do
    decision ← should_apply_reco w config policy wm
    ok (
        if decision.0
        then (config, decision.1)
        else (create_reco_config_from_policy policy config, policy))

  -- `Execute` behind its test of the recommender.
  execute_with :
      Recommender
      → Workflow
      → WorkloadMeta
      → Result (Option HpaConfiguration × Option HpaConfiguration × Option RecoPolicy)
  unfolding iterators_of
  execute_with recommend w wm = do
    config ← recommend wm
    let target = transform_target_reco_config config w.min_required_replicas
    next ← run_iterators (iterators_of w.policy_iterators) wm none
    applied ← generate_next_reco_config w target next wm
    ok (applied.0, target, applied.1)

  -- The configuration to apply, the target of the recommender and the policy applied.
  unfoldable pub execute :
      Workflow
      → WorkloadMeta
      → Result (Option HpaConfiguration × Option HpaConfiguration × Option RecoPolicy)
  unfolding execute_with
  execute w wm = elim w.recommender [
    | none ↦ err (failed "No recommenders configured in the workflow.")
    | some recommend ↦ execute_with recommend w wm
  ]
