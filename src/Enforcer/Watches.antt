-- ===== src/Enforcer/Watches.antt =====
-- The watches of the enforcement controller, `SetupWithManager` of
-- pkg/controller/hpaenforcement_controller.go: the predicates that an event passes, the requests that
-- a change of a workload or the deletion of an autoscaler queues, and the index on the owners.
pub mod Echoing
pub mod Owning
use ottoscalr.Prelude.{
  ℕ, String, str_eq, Bool, true, false, not, ◌&&◌, ◌||◌, ◌==◌, Option, none, some, List, [], ◌∷◌,
  ◌++◌, if◌then◌else◌,
}
use ottoscalr.Result.{Result, ok, err, panic, Err}
use ottoscalr.Api.{
  Condition, ConditionStatus, condition_true, condition_false, condition_unknown,
  PolicyRecommendation,
}
use ottoscalr.Enforcer.{Settings, Workload, get_object_client, is_whitelisted_namespace}

unfoldable pub status_eq : ConditionStatus → ConditionStatus → Bool
status_eq condition_true condition_true = true
status_eq condition_false condition_false = true
status_eq condition_unknown condition_unknown = true
status_eq condition_true condition_false = false
status_eq condition_true condition_unknown = false
status_eq condition_false condition_true = false
status_eq condition_false condition_unknown = false
status_eq condition_unknown condition_true = false
status_eq condition_unknown condition_false = false

unfoldable pub condition_changed : Condition → Condition → Bool
unfolding status_eq
condition_changed old new =
    not (str_eq old.type new.type)
    || (not (status_eq old.status new.status)
        || (not (str_eq old.reason new.reason)
            || (not (old.last_transition_time == new.last_transition_time)
                || (not (str_eq old.message new.message)
                    || not (old.observed_generation == new.observed_generation)))))

-- The last condition of the type `HPAEnforced`; `none` is the zero condition, whose type is empty.
unfoldable pub enforced_condition : Option Condition → List Condition → Option Condition
enforced_condition found [] = found
enforced_condition found (c ∷ rest) =
    enforced_condition (if str_eq c.type "HPAEnforced" then some c else found) rest

-- `conditionChanged` of what the loops find: a zero condition differs from one of the type.
unfoldable pub found_changed : Option Condition → Option Condition → Bool
unfolding condition_changed
found_changed none none = false
found_changed none (some new) = true
found_changed (some old) none = true
found_changed (some old) (some new) = condition_changed old new

-- `UpdateFunc` of `updatePredicate`.
unfoldable pub is_update_handled : PolicyRecommendation → PolicyRecommendation → Bool
unfolding enforced_condition found_changed
is_update_handled old new = not (
    found_changed (enforced_condition none old.conditions) (enforced_condition none new.conditions))

pub data Event (T : Type 0) : Type 0 where
  created deleted generic : T → Event T
  updated : (old new : T) → Event T

-- The object whose namespace the filter reads.
unfoldable pub object_of : {T : Type 0} → Event T → T
object_of (created o) = o
object_of (deleted o) = o
object_of (generic o) = o
object_of (updated old new) = new

unfoldable pub update_predicate : Event PolicyRecommendation → Bool
unfolding is_update_handled
update_predicate (created o) = true
update_predicate (deleted o) = false
update_predicate (generic o) = false
update_predicate (updated old new) = is_update_handled old new

-- The watch on the recommendations; `version_changed` is the predicate of controller-runtime on the
-- resource versions.
unfoldable pub passes_recommendation :
    (Event PolicyRecommendation → Bool) → Settings → Event PolicyRecommendation → Bool
unfolding object_of update_predicate
passes_recommendation version_changed settings event =
    let recommendation = object_of event in
    version_changed event
    && (update_predicate event && is_whitelisted_namespace settings recommendation.namespace)

-- The watch on the workloads, with the predicate of controller-runtime on the annotations.
unfoldable pub passes_workload : (Event Workload → Bool) → Settings → Event Workload → Bool
unfolding object_of
passes_workload annotation_changed settings event =
    let workload = object_of event in
    annotation_changed event && is_whitelisted_namespace settings workload.namespace

unfoldable pub delete_predicate : {T : Type 0} → Event T → Bool
delete_predicate (created o) = false
delete_predicate (deleted o) = true
delete_predicate (generic o) = false
delete_predicate (updated old new) = false

-- A recommendation with the names of its owners.
pub record Owned : Type 0 where
  pub namespace : String
  pub name : String
  pub owners : List String

-- A namespace and a name.
abbrev pub Request : Type 0
Request = String × String

abbrev pub blanks : List String → List String
blanks [] = []
blanks (o ∷ rest) = "" ∷ blanks rest

-- The index `policyRecoOwnerField`: `make([]string, n)` has n empty names before those appended.
unfoldable pub owner_index : List String → List String
owner_index [] = []
owner_index (o ∷ rest) = blanks (o ∷ rest) ++ o ∷ rest

unfoldable pub requests_of : List Owned → List Request
requests_of [] = []
requests_of (p ∷ rest) = (p.namespace, p.name) ∷ requests_of rest

-- An object with its owners' kinds and names.
pub record Autoscaler : Type 0 where
  pub namespace : String
  pub owners : List (String × String)

module _ (kinds : List String) (list : (owner namespace : String) → Result (List Owned)) where
  -- `policyrecoEnqueueFunc`; `list` selects by the index in a namespace.
  unfoldable pub policyreco_enqueue : Workload → List Request
  unfolding requests_of
  policyreco_enqueue workload = elim (list workload.name workload.namespace) [
    | ok found ↦ requests_of found
    | err e ↦ []
    | panic ↦ []
  ]

  -- The answer of `enqueueFunc` for an owner whose kind is not registered.
  unfoldable pub queued_or_none : Result (List Owned) → List Request
  unfolding requests_of
  queued_or_none (ok found) = ("", "") ∷ requests_of found
  queued_or_none (err e) = []
  queued_or_none panic = []

  unfoldable pub enqueue_owners : String → List (String × String) → List Request
  unfolding queued_or_none
  enqueue_owners namespace [] = []
  enqueue_owners namespace ((kind, name) ∷ rest) =
      let later = enqueue_owners namespace rest in
      elim (get_object_client kinds kind) [
        | ok client ↦ later
        | err e ↦ queued_or_none (list name namespace)
        | panic ↦ []
      ]

  -- `enqueueFunc`, which reads the owners of the object that `GetType` makes.
  unfoldable pub enqueue : (get_type : Autoscaler) → (object : Autoscaler) → List Request
  unfolding enqueue_owners
  enqueue get_type object = enqueue_owners get_type.namespace get_type.owners

-- `GetType` of the clients, `&ScaledObject{}` and the like.
abbrev pub empty_object : Autoscaler
empty_object = record { namespace = ""; owners = [] }
