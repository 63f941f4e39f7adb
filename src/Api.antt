-- ===== src/Api.antt =====
-- The custom resources of api/v1alpha1 (policy_types.go, policyrecommendation_types.go), with the
-- metadata that the code reads. A time is a number, 0 the zero time; a nullable pointer is an Option.
use ottoscalr.Prelude.{ℕ, ℤ, String, Bool, true, Option, none, some, List, ◌&&◌, ◌==◌, ◌==ℤ◌}

abbrev pub Time : Type 0
Time = ℕ

-- `(*metav1.Time).IsZero`: nil, or the zero time.
abbrev pub is_zero : Option Time → Bool
is_zero none = true
is_zero (some t) = t == 0

-- A Policy: `ObjectMeta.Name`, `DeletionTimestamp`, `Finalizers` and the fields of `PolicySpec`.
pub record Policy : Type 0 where
  pub name : String
  pub deletion_timestamp : Option Time
  pub finalizers : List String
  pub is_default : Bool
  pub risk_index : ℤ
  pub min_replica_percentage_cut : ℤ
  pub target_utilization : ℤ

pub record HpaConfiguration : Type 0 where
  pub min : ℤ
  pub max : ℤ
  pub target_metric_value : ℤ

unfoldable pub deep_equals : HpaConfiguration → HpaConfiguration → Bool
deep_equals h h2 =
    h.min ==ℤ h2.min && (h.max ==ℤ h2.max && h.target_metric_value ==ℤ h2.target_metric_value)

pub data ConditionStatus : Type 0 where
  condition_true condition_false condition_unknown : ConditionStatus

-- `metav1.Condition`.
pub record Condition : Type 0 where
  pub type : String
  pub status : ConditionStatus
  pub observed_generation : ℕ
  pub last_transition_time : Time
  pub reason : String
  pub message : String

pub record PolicyRecommendationSpec : Type 0 where
  pub workload_kind : String
  pub workload_name : String
  pub target_hpa_configuration : HpaConfiguration
  pub current_hpa_configuration : HpaConfiguration
  pub policy : String
  pub generated_at : Option Time
  pub transitioned_at : Option Time
  pub queued_for_execution : Option Bool
  pub queued_for_execution_at : Option Time

pub record PolicyRecommendation : Type 0 where
  pub name : String
  pub namespace : String
  pub spec : PolicyRecommendationSpec
  pub conditions : List Condition
