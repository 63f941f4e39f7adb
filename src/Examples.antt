-- ===== src/Examples.antt =====
-- The theorems at concrete inputs, and the test data that they share.
mod Policies
mod Deciding
mod Recommending
mod Controlling
mod Triggering
mod Registering
mod Watching
mod Scraping
mod Transforming
mod Requeueing
mod Sizing
mod Enqueueing
use ottoscalr.Prelude.{
  ℕ, ◌+◌, ◌-◌, ◌*◌, ◌/◌, ℤ, pos, pos_part, String, str_eq, true, false, Option, none, some, List,
  [], ◌∷◌, ltb, leb, ◌==◌, if◌then◌else◌, ◌≡◌, ◌≢◌, eq_iff,
}
use ottoscalr.Result.{Result, ok, err, not_found}
use ottoscalr.Api.{
  Policy, HpaConfiguration, Condition, condition_true, condition_false, PolicyRecommendation,
}
use ottoscalr.Store.{PolicyClient}
use ottoscalr.Enforcer.{Workload}
use ottoscalr.Workflow.{WorkloadMeta}
use ottoscalr.Float.{Float64, DataPoint}

abbrev pub policy_of : String → ℕ → ℕ → ℕ → Policy
policy_of name risk cut target = record {
  name = name;
  deletion_timestamp = none;
  finalizers = [];
  is_default = false;
  risk_index = pos risk;
  min_replica_percentage_cut = pos cut;
  target_utilization = pos target;
}

abbrev pub safe_policy : Policy
safe_policy = policy_of "safe" 1 50 40

abbrev pub middle_policy : Policy
middle_policy = policy_of "middle" 2 100 50

abbrev pub risky_policy : Policy
risky_policy = policy_of "risky" 3 100 70

abbrev pub policies : List Policy
policies = middle_policy ∷ risky_policy ∷ safe_policy ∷ []

abbrev pub get_named : List Policy → String → Result Policy
get_named [] name = err not_found
get_named (p ∷ rest) name = if str_eq p.name name then ok p else get_named rest name

abbrev pub client : PolicyClient
client = record { list = ok policies; get = get_named policies }

abbrev pub configuration : ℕ → ℕ → ℕ → HpaConfiguration
configuration min max target = record {
  min = pos min;
  max = pos max;
  target_metric_value = pos target;
}

abbrev pub condition : String → String → Condition
condition type reason = record {
  type = type;
  status = condition_true;
  observed_generation = 0;
  last_transition_time = 5;
  reason = reason;
  message = "";
}

abbrev pub recommendation : PolicyRecommendation
recommendation = record {
  name = "checkout";
  namespace = "shop";
  spec = record {
    workload_kind = "Deployment";
    workload_name = "checkout";
    target_hpa_configuration = configuration 5 20 60;
    current_hpa_configuration = configuration 8 20 50;
    policy = "middle";
    generated_at = some 10;
    transitioned_at = some 8;
    queued_for_execution = some true;
    queued_for_execution_at = some 20;
  };
  conditions =
      condition "Initialized" "PolicyRecommendationCreated"
      ∷ condition "RecoTaskProgress" "RecoTaskRecommendationGenerated"
      ∷ [];
}

abbrev pub workload : Workload
workload = record {
  name = "checkout";
  namespace = "shop";
  kind = "Deployment";
  annotations = ("ottoscalr.io/enable-hpa-enforcement", "true") ∷ [];
}

abbrev pub workload_meta : WorkloadMeta
workload_meta = record { kind = "Deployment"; name = "checkout"; namespace = "shop" }

-- Numbers with three decimals.
abbrev pub fixed_point : Float64 ℕ
fixed_point = record {
  add = ◌+◌;
  sub = ◌-◌;
  mul = λ a b. a * b / 1000;
  div = λ a b. a * 1000 / b;
  less = ltb;
  at_least = λ a b. leb b a;
  equal = ◌==◌;
  minimum = λ a b. if leb a b then a else b;
  maximum = λ a b. if leb a b then b else a;
  ceil = λ a. (a + 999) / 1000 * 1000;
  floor = λ a. a / 1000 * 1000;
  of_int = λ i. pos_part i * 1000;
  to_int = λ a. pos (a / 1000);
  one_point_one = 1100;
}

abbrev pub data_points : List (DataPoint ℕ)
data_points =
    record { timestamp = 60; value = 2000 } ∷ record { timestamp = 120; value = 2500 } ∷ []

pub differ : (a b : String) → str_eq a b ≡ false → a ≢ b
differ a b h e = cc (h, (eq_iff a b).1 e)
