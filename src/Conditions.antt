-- ===== src/Conditions.antt =====
-- pkg/controller/policyrecommendation_util.go: the conditions in the status of a
-- PolicyRecommendation, and the patch that sets one.
pub mod Lookup
use ottoscalr.Prelude.{
  String, str_eq, List, [], ◌∷◌, ◌++◌, if◌then◌else◌, Bool, true, false, ◌&&◌, ◌||◌,
}
use ottoscalr.Api.{
  Time, Condition, ConditionStatus, condition_true, condition_false, condition_unknown,
  PolicyRecommendation,
}

unfoldable pub new_policy_recommendation_condition :
    Time → String → ConditionStatus → String → String → Condition
new_policy_recommendation_condition now cond_type status reason message = record {
  type = cond_type;
  status = status;
  observed_generation = 0;
  last_transition_time = now;
  reason = reason;
  message = message;
}

unfoldable pub other_conditions : List Condition → String → List Condition
other_conditions [] cond_type = []
other_conditions (c ∷ rest) cond_type =
    let others = other_conditions rest cond_type in
    if str_eq c.type cond_type then others else c ∷ others

unfoldable pub set_conditions : List Condition → Condition → List Condition
unfolding other_conditions
set_conditions conditions new_condition =
    other_conditions conditions new_condition.type ++ new_condition ∷ []

-- What the patch applies to the status of the named object.
pub record StatusPatch : Type 0 where
  pub name : String
  pub namespace : String
  pub conditions : List Condition

unfoldable pub create_policy_patch :
    Time
    → PolicyRecommendation
    → List Condition
    → String
    → ConditionStatus
    → String
    → String
    → StatusPatch
unfolding set_conditions new_policy_recommendation_condition
create_policy_patch now policyreco conditions cond_type status reason message = record {
  name = policyreco.name;
  namespace = policyreco.namespace;
  conditions =
      set_conditions conditions
        (new_policy_recommendation_condition now cond_type status reason message);
}

-- `metav1.ConditionTrue` of two statuses.
unfoldable pub is_true : ConditionStatus → Bool
is_true condition_true = true
is_true condition_false = false
is_true condition_unknown = false

-- `isInitialized` of hpaenforcement_controller.go.
unfoldable pub is_initialized : List Condition → Bool
unfolding is_true
is_initialized [] = false
is_initialized (c ∷ rest) = str_eq c.type "Initialized" && is_true c.status || is_initialized rest

-- `isRecoGenerated` of hpaenforcement_controller.go.
unfoldable pub is_reco_generated : List Condition → Bool
is_reco_generated [] = false
is_reco_generated (c ∷ rest) =
    str_eq c.type "RecoTaskProgress" && str_eq c.reason "RecoTaskRecommendationGenerated"
    || is_reco_generated rest
