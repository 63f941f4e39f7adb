-- ===== src/Iterators.antt =====
-- pkg/reco/policyiterators.go and pkg/reco/breach_analyzer.go: the policy iterators. The API
-- server's answers are arguments, and do not change while one call runs; the policy store is that
-- of `Store`. Times and durations are numbers of nanoseconds.
pub mod Aging
pub mod Breach
use ottoscalr.Result.{
  Result, ok, err, panic, Err, not_found, failed, ◌>>=◌, >>=-eq-ok, Result-cases, is_not_found,
  no_policy,
}
use ottoscalr.Prelude.{
  ℕ, zero, suc, ◌+◌, ◌-◌, ◌*◌, ◌/◌, ◌%◌, ◌^◌, ◌≤◌, ◌<◌, ℤ, pos, negsuc, ◌≤ℤ◌, ◌<ℤ◌, ◌==ℤ◌, leb_ℤ,
  ltb_ℤ, ltb, leb, ◌==◌, String, str_eq, eq_iff, Bool, true, false, not, ◌&&◌, ◌||◌, Option, none,
  some, List, [], ◌∷◌, ◌++◌, if◌then◌else◌, ◌≡◌, ◌≢◌, ◌↔◌, ◌⊎◌, refl, sym, ap, ◌∙◌, subst, inl, inr,
  arith, Bool-cases, Option-cases, All, length, Mem, Perm,
}
use ottoscalr.Api.{
  Policy, Time, HpaConfiguration, PolicyRecommendation, PolicyRecommendationSpec, is_zero,
}
use ottoscalr.Store.{
  PolicyClient, get_safest_policy, get_default_policy, get_policy_by_name, get_next_policy_by_name,
  get_previous_policy_by_name, is_last_policy, is_safest_policy,
}
use ottoscalr.Workflow.{RecoPolicy, policy_from_cr}

abbrev empty_configuration : HpaConfiguration
empty_configuration = record { min = pos 0; max = pos 0; target_metric_value = pos 0 }

-- `&v1alpha1.PolicyRecommendation{}`.
abbrev pub empty_reco : PolicyRecommendation
empty_reco = record {
  name = "";
  namespace = "";
  spec = record {
    workload_kind = "";
    workload_name = "";
    target_hpa_configuration = empty_configuration;
    current_hpa_configuration = empty_configuration;
    policy = "";
    generated_at = none;
    transitioned_at = none;
    queued_for_execution = none;
    queued_for_execution_at = none;
  };
  conditions = [];
}

-- `After` on the sum of the transition time and the age.
unfoldable pub is_age_beyond_expiry : Option Time → ℕ → Time → Bool
is_age_beyond_expiry none age now = false
is_age_beyond_expiry (some transitioned) age now =
    if is_zero (some transitioned) then false else not (ltb now (transitioned + age))

abbrev some_policy : Policy → Result (Option RecoPolicy)
some_policy p = ok (some (policy_from_cr p))

module _ (sort_slice : List Policy → List Policy) (c : PolicyClient) where
  -- An error of the store is logged and becomes a no-op.
  or_no_op : Result Policy → Result (Option RecoPolicy)
  or_no_op (ok p) = some_policy p
  or_no_op (err e) = ok none
  or_no_op panic = panic

  unfoldable pub default_next_policy : Result (Option RecoPolicy)
  unfolding or_no_op
  default_next_policy = or_no_op (get_default_policy sort_slice c)

  safest_next_policy : Result (Option RecoPolicy)
  safest_next_policy = get_safest_policy sort_slice c >>= some_policy

  -- The step past an expired policy; the last policy stays.
  next_or_current : Policy → Result Policy → Result (Option RecoPolicy)
  next_or_current current (ok next) = some_policy next
  next_or_current current (err e) = if is_last_policy e then some_policy current else err e
  next_or_current current panic = panic

  age_policy : PolicyRecommendation → Bool → Result Policy → Result (Option RecoPolicy)
  unfolding safest_next_policy next_or_current
  age_policy reco expired (ok current) =
      if not expired
      then some_policy current
      else next_or_current current (get_next_policy_by_name sort_slice c reco.spec.policy)
  age_policy reco expired (err no_policy) = safest_next_policy
  age_policy reco expired (err e) = err e
  age_policy reco expired panic = panic

  age_reco : PolicyRecommendation → ℕ → Time → Result (Option RecoPolicy)
  unfolding age_policy safest_next_policy
  age_reco reco age now =
      if str_eq reco.spec.policy ""
      then safest_next_policy
      else age_policy reco (is_age_beyond_expiry reco.spec.transitioned_at age now)
          (get_policy_by_name sort_slice c reco.spec.policy)

  -- The result of the `Get` is not checked: on an error the object stays empty.
  unfoldable pub aging_next_policy :
      Result PolicyRecommendation → ℕ → Time → Result (Option RecoPolicy)
  unfolding age_reco
  aging_next_policy (ok reco) age now = age_reco reco age now
  aging_next_policy (err e) age now = age_reco empty_reco age now
  aging_next_policy panic age now = panic

  -- `return nil, err`, where `none` is a nil error.
  unfoldable pub returned : Option Err → Result (Option RecoPolicy)
  returned none = ok none
  returned (some e) = err e

  -- The first argument is the variable `err` of the breach check, which a failure returns.
  safer_or_no_op : Option Err → Result Policy → Result (Option RecoPolicy)
  unfolding returned
  safer_or_no_op breach_error (ok p) = some_policy p
  safer_or_no_op breach_error (err e) =
      if is_safest_policy e then ok none else returned breach_error
  safer_or_no_op breach_error panic = panic

  -- The second `Get`, whose not-found error is ignored.
  mitigate : Option Err → Result PolicyRecommendation → Result (Option RecoPolicy)
  unfolding safer_or_no_op
  mitigate breach_error (ok reco) =
      safer_or_no_op breach_error (get_previous_policy_by_name sort_slice c reco.spec.policy)
  mitigate breach_error (err e) =
      if is_not_found e
      then safer_or_no_op breach_error (get_previous_policy_by_name sort_slice c "")
      else err e
  mitigate breach_error panic = panic

  -- The answers of the two `Get` calls and of the breach check between them.
  unfoldable pub breach_next_policy :
      Result PolicyRecommendation
      → Result Bool
      → Result PolicyRecommendation
      → Result (Option RecoPolicy)
  unfolding mitigate
  breach_next_policy first breach_fn second = do
    reco ← first
    if str_eq reco.spec.policy "" || is_zero reco.spec.generated_at
        then ok none
        else breach_fn >>= λ breached. if breached then mitigate none second else ok none
