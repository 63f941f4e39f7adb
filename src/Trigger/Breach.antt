-- ===== src/Trigger/Breach.antt =====
-- pkg/trigger/monitor.go: `HasBreached` and one round of the breach monitor, `monitorBreaches`.
-- Not modelled: the ticker, the semaphore and the gauges.
pub mod Reported
use ottoscalr.Prelude.{
  String, str_eq, Bool, true, false, not, List, [], ◌∷◌, if◌then◌else◌, length, ltb,
}
use ottoscalr.Result.{Result, ok, err, panic}
use ottoscalr.Api.{Time, Condition, PolicyRecommendation, condition_true, condition_false}
use ottoscalr.Calls.{Run, give, resume, ◌>>=◌, perform, or_continue}
use ottoscalr.Conditions.{StatusPatch, is_true, new_policy_recommendation_condition}
use ottoscalr.Trigger.Handler.{NamespacedName}

-- The writes: a status patch, and the call of the monitor's handler.
pub data Call : Type 0 where
  patch_status : StatusPatch → Call
  handle : NamespacedName → Call

-- `HasBreached`, at the answer of `GetCPUUtilizationBreachDataPoints`.
unfoldable pub has_breached : {A : Type 0} → Result (List A) → Result Bool
has_breached (ok []) = ok false
has_breached (ok (d ∷ rest)) = ok true
has_breached (err e) = err e
has_breached panic = panic

-- `breached, _ := HasBreached(...)`.
unfoldable pub breached_or_false : Result Bool → Result Bool
breached_or_false (ok b) = ok b
breached_or_false (err e) = ok false
breached_or_false panic = panic

-- `breachedInPast`: the last condition of the type counts.
unfoldable pub breached_in_past : Bool → List Condition → Bool
unfolding is_true
breached_in_past past [] = past
breached_in_past past (c ∷ rest) =
    breached_in_past (if str_eq "HasBreached" c.type then is_true c.status else past) rest

unfoldable pub create_breach_condition : Time → NamespacedName → Bool → StatusPatch
create_breach_condition now workload breached = record {
  name = workload.name;
  namespace = workload.namespace;
  conditions =
      (if breached
        then new_policy_recommendation_condition now "HasBreached" condition_true "BreachDetected"
            "A breach has been detected"
        else new_policy_recommendation_condition now "HasBreached" condition_false
            "NoBreachDetected" "No breach detected for the current recommendation")
      ∷ [];
}

module _ (answer : List Call → Call → Result {0} Unit) where
  -- A patch whose error is logged, and does not end the round.
  logged : Call → Run Call Unit
  logged c calls = or_continue (answer calls c) (λ _. give (ok tt)) (c ∷ calls)

  unfoldable pub react : Time → NamespacedName → Bool → Bool → Run Call Unit
  unfolding logged create_breach_condition
  react now workload true past =
      (if past
        then give (ok tt)
        else logged (patch_status (create_breach_condition now workload true)))
      >>= λ _. perform (λ calls c. ok tt) (handle workload)
  react now workload false past =
      if past
      then logged (patch_status (create_breach_condition now workload false))
      else give (ok tt)

  -- One round, at the recommendation that is read and the answer of the metric scraper.
  unfoldable pub monitor_breaches :
      {A : Type 0}
      → Time
      → NamespacedName
      → Result PolicyRecommendation
      → Result (List A)
      → Run Call Unit
  unfolding react breached_or_false has_breached breached_in_past
  monitor_breaches now workload read points = or_continue read (λ policyreco.
      give (breached_or_false (has_breached points)) >>= λ breached.
      react now workload breached (breached_in_past false policyreco.conditions))
