-- ===== src/Registrar.antt =====
-- The registrar, pkg/controller/policyrecommendation_registrar.go: `Reconcile`, with
-- `handleReconcile` and `createPolicyRecommendation`, and the events that it listens to. The delay
-- that `Reconcile` returns beside an error is left out: it has no effect there.
pub mod Creating
pub mod Registering
pub mod Filtering
use ottoscalr.Prelude.{
  ℕ, pos, String, Bool, true, false, not, ◌&&◌, Option, none, some, List, [], ◌∷◌, if◌then◌else◌,
  ◌<>◌,
}
use ottoscalr.Result.{Result, ok, err, panic, is_not_found}
use ottoscalr.Api.{Time, Policy, HpaConfiguration, condition_true, PolicyRecommendation}
use ottoscalr.Calls.{Run, give, ◌>>=◌, perform, unless_failed}
use ottoscalr.Conditions.{StatusPatch, create_policy_patch}
use ottoscalr.Store.{PolicyClient, get_safest_policy}
use ottoscalr.Trigger.Manager
use ottoscalr.Trigger.Manager.{Manager}
use ottoscalr.Enforcer.{Workload, in_namespaces}

-- The writes of a run. The gauge is `policyRecoWorkloadGauge`, and the first argument of `create`
-- is the owner that `SetControllerReference` sets.
pub data Call : Type 0 where
  delete_gauge : (namespace policyreco : String) → Call
  set_gauge : (namespace policyreco workload_kind workload : String) → Call
  create : Workload → PolicyRecommendation → Call
  patch_status : String → StatusPatch → Call
  register_monitor : (kind namespace name : String) → Call

pub record Cluster : Type 0 where
  pub kinds : List String  -- of the registered clients
  pub get_object : (kind namespace name : String) → Result Workload
  pub get_policy_recommendation : (namespace name : String) → Result PolicyRecommendation
  pub set_controller_reference : Workload → PolicyRecommendation → Result {0} Unit
  pub answer : List Call → Call → Result {0} Unit
  pub now : ℕ → Time

abbrev pub no_configuration : HpaConfiguration
no_configuration = record { min = pos 0; max = pos 0; target_metric_value = pos 0 }

unfoldable pub new_policy_recommendation : Workload → Policy → Time → PolicyRecommendation
new_policy_recommendation workload safest now = record {
  name = workload.name;
  namespace = workload.namespace;
  spec = record {
    workload_kind = workload.kind;
    workload_name = workload.name;
    target_hpa_configuration = no_configuration;
    current_hpa_configuration = no_configuration;
    policy = safest.name;
    generated_at = none;
    transitioned_at = some now;
    queued_for_execution = some true;
    queued_for_execution_at = some now;
  };
  conditions = [];
}

-- A call that cannot fail.
abbrev pub tell : Call → Run Call Unit
tell c = perform (λ calls d. ok tt) c

abbrev pub registrar_name : String
registrar_name = "PolicyRecommendationRegistrar"

module _ (sort_slice : List Policy → List Policy) (policies : PolicyClient)
    (cluster : Cluster) where
  abbrev pub initialized : PolicyRecommendation → StatusPatch
  initialized policyreco =
      create_policy_patch (cluster.now 1) policyreco [] "Initialized" condition_true
        "PolicyRecommendationCreated" "PolicyRecommendation has been created"

  -- `createPolicyRecommendation` behind the choice of the policy.
  unfoldable pub create_with : Workload → Policy → Run Call (Option PolicyRecommendation)
  unfolding new_policy_recommendation create_policy_patch
  create_with workload safest =
      let policyreco = new_policy_recommendation workload safest (cluster.now 0) in
      tell (set_gauge workload.namespace workload.name workload.kind workload.name) >>= λ _.
      give (cluster.set_controller_reference workload policyreco) >>= λ _.
      perform cluster.answer (create workload policyreco) >>= λ _.
      unless_failed none
        (perform cluster.answer (patch_status registrar_name (initialized policyreco)))
        (give (ok (some policyreco)))

  -- `createPolicyRecommendation` behind its first read.
  unfoldable pub create_unless_exists :
      Workload → Result PolicyRecommendation → Run Call (Option PolicyRecommendation)
  unfolding create_with
  create_unless_exists workload (ok policyreco) = give (ok none)
  create_unless_exists workload (err e) =
      if is_not_found e
      then (give (get_safest_policy sort_slice policies) >>= create_with workload)
      else give (err e)
  create_unless_exists workload panic = give panic

  unfoldable pub create_policy_recommendation : Workload → Run Call (Option PolicyRecommendation)
  unfolding create_unless_exists
  create_policy_recommendation workload =
      create_unless_exists workload
        (cluster.get_policy_recommendation workload.namespace workload.name)

  unfoldable pub handle_reconcile : Workload → Run Call Unit
  unfolding create_policy_recommendation
  handle_reconcile workload = create_policy_recommendation workload >>= λ _.
      tell (register_monitor workload.kind workload.namespace workload.name)

  -- A round of the loop over the clients, and the rounds that are left.
  unfoldable pub handle_object :
      (namespace name : String) → Result Workload → Run Call Unit → Run Call Unit
  unfolding handle_reconcile
  handle_object namespace name (ok workload) rest = handle_reconcile workload
  handle_object namespace name (err e) rest =
      if is_not_found e then (tell (delete_gauge namespace name) >>= λ _. rest) else give (err e)
  handle_object namespace name panic rest = give panic

  unfoldable pub try_clients : List String → (namespace name : String) → Run Call Unit
  unfolding handle_object
  try_clients [] namespace name = give (ok tt)
  try_clients (kind ∷ rest) namespace name =
      handle_object namespace name (cluster.get_object kind namespace name)
        (try_clients rest namespace name)

  unfoldable pub reconcile : (namespace name : String) → Run Call Unit
  unfolding try_clients
  reconcile namespace name = try_clients cluster.kinds namespace name

-- The monitors behind the writes, where each registration calls `RegisterMonitor` with the text
-- `workload.String()` of the name.
unfoldable pub monitors_after : List Call → Manager → Manager
monitors_after [] s = s
monitors_after (register_monitor kind namespace name ∷ earlier) s =
    (Manager.register_monitor (namespace <> "/" <> name) (monitors_after earlier s)).1
monitors_after (delete_gauge namespace name ∷ earlier) s = monitors_after earlier s
monitors_after (set_gauge namespace name kind workload ∷ earlier) s = monitors_after earlier s
monitors_after (create owner policyreco ∷ earlier) s = monitors_after earlier s
monitors_after (patch_status owner patch ∷ earlier) s = monitors_after earlier s

-- The kinds of events of controller-runtime's `predicate.Funcs`.
pub data Event : Type 0 where
  created updated deleted generic : Event

unfoldable pub create_predicate : Event → Bool
create_predicate created = true
create_predicate updated = false
create_predicate deleted = false
create_predicate generic = false

unfoldable pub delete_predicate : Event → Bool
delete_predicate created = false
delete_predicate updated = false
delete_predicate deleted = true
delete_predicate generic = false

unfoldable pub is_whitelisted_namespace : (included excluded : List String) → String → Bool
unfolding in_namespaces
is_whitelisted_namespace (ns ∷ rest) excluded namespace = in_namespaces (ns ∷ rest) namespace
is_whitelisted_namespace [] (ns ∷ rest) namespace = not (in_namespaces (ns ∷ rest) namespace)
is_whitelisted_namespace [] [] namespace = true

-- A watch with its own predicate, behind the filter on the namespaces.
unfoldable pub passes : (Event → Bool) → (included excluded : List String) → Event → String → Bool
unfolding is_whitelisted_namespace
passes predicate included excluded event namespace =
    predicate event && is_whitelisted_namespace included excluded namespace
