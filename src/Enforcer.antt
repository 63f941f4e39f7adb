-- ===== src/Enforcer.antt =====
-- The HPA enforcement controller, pkg/controller/hpaenforcement_controller.go: `Reconcile` and
-- `deleteControllerManagedAutoscaler`. All reads of a run come before its writes, so each read is
-- an answer in `Cluster`; the answer to a write may depend on the writes before it.
pub mod Namespaces
pub mod Deleting
pub mod Safe
pub mod Enforcing
pub mod Watches
use ottoscalr.Prelude.{
  ℤ, pos, ◌<ℤ◌, ◌==ℤ◌, leb_ℤ, ltb_ℤ, wrap, String, str_eq, Bool, true, false, not, ◌&&◌, ◌||◌,
  Option, none, some, List, [], ◌∷◌, ◌++◌, if◌then◌else◌, ◌<>◌,
}
use ottoscalr.Result.{Result, ok, err, panic, Err, failed, not_found, is_not_found}
use ottoscalr.Api.{
  Time, HpaConfiguration, Condition, ConditionStatus, condition_true, condition_false,
  PolicyRecommendation,
}
use ottoscalr.Calls.{Run, give, ◌>>=◌, perform, unless_failed}
use ottoscalr.Conditions.{StatusPatch, create_policy_patch, is_initialized, is_reco_generated}

-- The fields of `HPAEnforcementController`, whose flags are pointers that are not nil, with the kinds
-- of the registered object clients and the name of the autoscaler client.
pub record Settings : Type 0 where
  pub kinds : List String
  pub is_dry_run : Bool
  pub excluded_namespaces : Option (List String)
  pub included_namespaces : Option (List String)
  pub whitelist_mode : Bool
  pub min_required_replicas : ℤ
  pub autoscaler_name : String

pub record Workload : Type 0 where
  pub name : String
  pub namespace : String
  pub kind : String
  pub annotations : List (String × String)

-- The writes of one run.
pub data Call (S : Type 0) : Type 0 where
  create_or_update_autoscaler : Workload → (max min target_cpu : ℤ) → Call S
  delete_autoscaler : S → Call S
  scale : (kind namespace name : String) → ℤ → Call S
  patch_status : StatusPatch → Call S

-- `labels.Parse("!created-by")` and `labels.Parse("created-by=ottoscalr")`.
pub data Selector : Type 0 where
  not_created_by_controller created_by_controller : Selector

pub record Cluster (S : Type 0) : Type 0 where
  pub get_policy_recommendation : Result PolicyRecommendation
  pub get_object : (kind namespace name : String) → Result Workload
  pub get_list : Selector → (namespace name : String) → Result (List S)
  pub get_max_replica_count : S → ℤ
  pub answer : List (Call S) → Call S → Result {0} Unit

-- `GetObjectClient` of pkg/registry/deployment_client_registry.go, which gives the client of a kind.
unfoldable pub get_object_client : List String → String → Result String
get_object_client [] object_kind = err (failed "object kind not found in client registry")
get_object_client (k ∷ rest) object_kind =
    let later = get_object_client rest object_kind in if str_eq k object_kind then ok k else later

-- A lookup in the annotations.
abbrev pub annotation : List (String × String) → String → Option String
annotation [] key = none
annotation ((k, v) ∷ rest) key = if str_eq k key then some v else annotation rest key

-- `strconv.ParseBool`, whose value on a text that is no truth value is false.
unfoldable pub parse_bool : String → Bool
parse_bool s =
    str_eq s "1"
    || (str_eq s "t" || (str_eq s "T" || (str_eq s "TRUE" || (str_eq s "true" || str_eq s "True"))))

marked : Option String → Bool
unfolding parse_bool
marked none = false
marked (some v) = parse_bool v

-- The whitelist and the blacklist mode.
unfoldable pub is_enforcement_enabled : Bool → Workload → Bool
unfolding marked
is_enforcement_enabled true workload =
    marked (annotation workload.annotations "ottoscalr.io/enable-hpa-enforcement")
is_enforcement_enabled false workload =
    not (marked (annotation workload.annotations "ottoscalr.io/skip-hpa-enforcement"))

-- The configurations that are not enforced.
unfoldable pub is_invalid_config : ℤ → HpaConfiguration → Bool
is_invalid_config min_required c =
    leb_ℤ c.max min_required || (leb_ℤ c.min min_required || ltb_ℤ c.max c.min)

unfoldable pub in_namespaces : List String → String → Bool
in_namespaces [] namespace = false
in_namespaces (ns ∷ rest) namespace = str_eq namespace ns || in_namespaces rest namespace

-- The excluded namespaces, and the included ones; a list counts when it is set and not empty.
not_excluded : Option (List String) → String → Bool
unfolding in_namespaces
not_excluded none namespace = true
not_excluded (some []) namespace = true
not_excluded (some (ns ∷ rest)) namespace = not (in_namespaces (ns ∷ rest) namespace)

unfoldable pub passes_filters : Option (List String) → Option (List String) → String → Bool
unfolding not_excluded
passes_filters none excluded namespace = not_excluded excluded namespace
passes_filters (some []) excluded namespace = not_excluded excluded namespace
passes_filters (some (ns ∷ rest)) excluded namespace = in_namespaces (ns ∷ rest) namespace

unfoldable pub is_whitelisted_namespace : Settings → String → Bool
unfolding passes_filters
is_whitelisted_namespace settings namespace =
    passes_filters settings.included_namespaces settings.excluded_namespaces namespace

module _ {S : Type 0} (settings : Settings) (cluster : Cluster S) where
  -- `GetList`, where a not-found error leaves the list empty.
  unfoldable pub listed : Selector → Workload → Result (List S)
  listed selector workload = elim (cluster.get_list selector workload.namespace workload.name) [
    | ok objects ↦ ok objects
    | err e ↦ if is_not_found e then ok [] else err e
    | panic ↦ panic
  ]

  -- The loop over the autoscalers: the maximum of the last one, or `none` where a not-found error
  -- ends the function without an error.
  unfoldable pub delete_each : ℤ → List S → Run (Call S) (Option ℤ)
  delete_each max_pods [] = give (ok (some max_pods))
  delete_each max_pods (o ∷ rest) =
      unless_failed none (perform cluster.answer (delete_autoscaler o))
        (delete_each (cluster.get_max_replica_count o) rest)

  -- What follows the loop.
  unfoldable pub rescale : Workload → Option ℤ → Run (Call S) Unit
  unfolding get_object_client
  rescale workload none = give (ok tt)
  rescale workload (some max_pods) =
      if max_pods ==ℤ pos 0
      then give (ok tt)
      else give (get_object_client settings.kinds workload.kind) >>= λ kind.
          perform cluster.answer (scale kind workload.namespace workload.name max_pods)

  unfoldable pub delete_controller_managed_autoscaler : Workload → Run (Call S) Unit
  unfolding listed delete_each rescale
  delete_controller_managed_autoscaler workload =
      give (listed created_by_controller workload) >>= λ objects.
      delete_each (pos 0) objects >>= λ max_pods. rescale workload max_pods

  -- `CreatePolicyPatch` and `Status().Patch`, with which a run ends.
  unfoldable pub report :
      Time → PolicyRecommendation → ConditionStatus → (reason message : String) → Run (Call S) Unit
  unfolding create_policy_patch
  report now policyreco status reason message =
      unless_failed tt
        (perform cluster.answer (
          patch_status (create_policy_patch now policyreco [] "HPAEnforced" status reason message)))
        (give (ok tt))

  unfoldable pub delete_and_report :
      Time → PolicyRecommendation → Workload → (reason message : String) → Run (Call S) Unit
  unfolding delete_controller_managed_autoscaler report
  delete_and_report now policyreco workload reason message =
      delete_controller_managed_autoscaler workload >>= λ _.
      report now policyreco condition_false reason message

  unfoldable pub create_or_update : Time → PolicyRecommendation → Workload → Run (Call S) Unit
  unfolding report
  create_or_update now policyreco workload =
      let config = policyreco.spec.current_hpa_configuration in
      if settings.is_dry_run
      then give (ok tt)
      else perform cluster.answer (
          create_or_update_autoscaler workload (wrap 32 config.max) (wrap 32 config.min)
            (wrap 32 config.target_metric_value))
        >>= λ _.
            report now policyreco condition_true (settings.autoscaler_name <> "IsCreated")
              (settings.autoscaler_name <> " has been created.")

  -- `Reconcile` behind the list of the autoscalers that the controller did not create.
  unfoldable pub enforce_unless_exists :
      Time → PolicyRecommendation → Workload → List S → Run (Call S) Unit
  unfolding report delete_and_report create_or_update is_invalid_config is_enforcement_enabled
  enforce_unless_exists now policyreco workload (o ∷ rest) =
      report now policyreco condition_false
        ("UserCreated" <> settings.autoscaler_name <> "AlreadyExists")
        ("User managed " <> settings.autoscaler_name <> " already exists for this workload.")
  enforce_unless_exists now policyreco workload [] =
      if is_invalid_config settings.min_required_replicas policyreco.spec.current_hpa_configuration
      then delete_and_report now policyreco workload "InvalidPolicyRecoConfig" (
          "HPA config in the PolicyRecommendation doesn't qualify for the "
          <> settings.autoscaler_name <> " creation criteria.")
      else if is_enforcement_enabled settings.whitelist_mode workload
      then create_or_update now policyreco workload
      else delete_and_report now policyreco workload "HPAEnforcementDisabled"
          "HPA enforcement disabled for this workload"

  unfoldable pub enforce : Time → PolicyRecommendation → Run (Call S) Unit
  unfolding enforce_unless_exists listed get_object_client is_initialized is_reco_generated
  enforce now policyreco =
      if not (is_initialized policyreco.conditions) || not (is_reco_generated policyreco.conditions)
      then give (ok tt)
      else give (get_object_client settings.kinds policyreco.spec.workload_kind) >>= λ kind.
          give (cluster.get_object kind policyreco.namespace policyreco.spec.workload_name)
          >>= λ workload. give (listed not_created_by_controller workload) >>= λ others.
              enforce_unless_exists now policyreco workload others

  -- `Reconcile` behind the first read.
  unfoldable pub handle : Time → Result PolicyRecommendation → Run (Call S) Unit
  unfolding enforce
  handle now (ok policyreco) = enforce now policyreco
  handle now (err e) = give (if is_not_found e then ok tt else err e)
  handle now panic = give panic

  unfoldable pub reconcile : Time → Run (Call S) Unit
  unfolding handle
  reconcile now = handle now cluster.get_policy_recommendation
