-- ===== src/Autoscaler/Keda.antt =====
-- pkg/autoscaler/scaledobject_client.go.
use ottoscalr.Prelude.{
  ℤ, pos, String, Bool, true, false, Option, none, some, List, [], ◌∷◌, ◌++◌, if◌then◌else◌,
}
use ottoscalr.Result.{Result, ok, err, panic, is_not_found}
use ottoscalr.Enforcer.{Selector, Workload}
use ottoscalr.Autoscaler.{Labels, TargetRef, Object, ApiServer, ref_of, collect_pointers}

pub record ScaleTrigger : Type 0 where
  pub type : String
  pub metadata : List (String × String)

pub record ScaledObjectSpec : Type 0 where
  pub scale_target : TargetRef
  pub min_replica_count : Option ℤ
  pub max_replica_count : Option ℤ
  pub triggers : List ScaleTrigger

abbrev pub ScaledObject : Type 0
ScaledObject = Object ScaledObjectSpec

unfoldable pub get_max_replica_count : ScaledObject → ℤ
get_max_replica_count o = elim o.spec.max_replica_count [ none ↦ pos 0 | some max ↦ max ]

unfoldable pub get_scale_target_name : ScaledObject → String
get_scale_target_name o = o.spec.scale_target.name

-- `*enableEventAutoscaler`; the flag is a pointer that is not nil.
unfoldable pub is_event_scaler_enabled : Bool → Bool
is_event_scaler_enabled enabled = if enabled then true else false

-- `sprint` is `fmt.Sprint` of an integer.
unfoldable pub set_scale_triggers : (ℤ → String) → Bool → ℤ → List ScaleTrigger
unfolding is_event_scaler_enabled
set_scale_triggers sprint enabled target =
    let cpu : List ScaleTrigger =
      record { type = "cpu"; metadata = ("type", "Utilization") ∷ ("value", sprint target) ∷ [] }
      ∷ [] in
    let event : List ScaleTrigger =
      record { type = "scheduled-event"; metadata = ("scalingStrategy", "scaleToMax") ∷ [] } ∷ [] in
    if is_event_scaler_enabled enabled then cpu ++ event else cpu

module _ (sprint : ℤ → String) (enabled : Bool) (api : ApiServer ScaledObjectSpec) where
  unfoldable pub spec_of : Workload → (max min target : ℤ) → ScaledObjectSpec
  unfolding set_scale_triggers
  spec_of workload max min target = record {
    scale_target = ref_of workload;
    min_replica_count = some min;
    max_replica_count = some max;
    triggers = set_scale_triggers sprint enabled target;
  }

  -- The stored object is given beside the result's text.
  unfoldable pub create_or_update_autoscaler :
      Workload → Labels → (max min target : ℤ) → Result (String × ScaledObject)
  unfolding spec_of
  create_or_update_autoscaler workload labels max min target =
      api.create_or_update
        (record {
          name = workload.name;
          namespace = workload.namespace;
          owners = ref_of workload ∷ [];
          labels = labels;
          spec = spec_of workload max min target;
        })
        (λ o. record o { spec = spec_of workload max min target })

  -- A not-found error leaves the list empty.
  unfoldable pub get_list : Selector → (namespace field : String) → Result (List ScaledObject)
  unfolding collect_pointers
  get_list selector namespace field = elim (api.list selector namespace field) [
    | ok items ↦ ok (collect_pointers 0 none items)
    | err e ↦ if is_not_found e then ok [] else err e
    | panic ↦ panic
  ]

  pub delete_autoscaler : ScaledObject → Result {0} Unit
  delete_autoscaler o = api.delete o
