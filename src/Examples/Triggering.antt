-- ===== src/Examples/Triggering.antt =====
-- The trigger on one recommendation.
use ottoscalr.Trigger.Manager.Refining
use ottoscalr.Trigger.Manager.Refining.{run, run-replay}
use ottoscalr.Trigger.Manager.Running.{Invariant, Reachable-Invariant}
use ottoscalr.Trigger.Manager.{
  Manager, new_manager, register_monitor, shutdown, start, further, register, find_monitor,
}
use ottoscalr.Prelude.{
  ◌≢◌, ℕ, str_eq, false, List, [], ◌∷◌, ◌≡◌, inl, inr, refl, Mem, if◌then◌else◌, Bool-cases, ◌++◌,
}
use ottoscalr.Result.{Result, ok, err, failed, not_found, panic}
use ottoscalr.Api.{Time, PolicyRecommendation}
use ottoscalr.Conditions.{is_true}
use ottoscalr.Trigger.Handler
use ottoscalr.Trigger.Handler.Queued.{queue_policy_recommendations-updates, Calm}
use ottoscalr.Trigger.Breach
use ottoscalr.Trigger.Breach.Reported.{round_writes, monitor_breaches-reports}
use ottoscalr.Examples.{recommendation, condition, some, true}

abbrev handler_cluster : Handler.Cluster
handler_cluster = record {
  get = λ calls w. if str_eq w.name "checkout" then ok recommendation else err not_found;
  answer = λ calls c. ok tt;
  now = λ calls. 40;
}

abbrev lost : Handler.NamespacedName
lost = record { namespace = "shop"; name = "lost" }

abbrev checkout : Handler.NamespacedName
checkout = record { namespace = "shop"; name = "checkout" }

handler_cluster-Calm : Calm handler_cluster
handler_cluster-Calm = (
  λ calls w. elim (Bool-cases (str_eq w.name "checkout")) [
    | inl e ↦ inl (recommendation, rw e refl)
    | inr e ↦ inr (not_found, rw e refl)
  ],
  λ calls c. inl refl,
)

queue_policy_recommendations-updates_example :
    (made : List Handler.Call) × (Handler.queue_policy_recommendations handler_cluster
        (lost ∷ checkout ∷ [])
        []
      ≡ (ok tt, made))
    × ((t : Time) × Mem (Handler.update (Handler.queued t recommendation)) made)
queue_policy_recommendations-updates_example =
    queue_policy_recommendations-updates handler_cluster (lost ∷ []) [] checkout recommendation
      handler_cluster-Calm (λ calls. refl)

abbrev breached_conditions : PolicyRecommendation
breached_conditions = record recommendation {
  conditions = condition "HasBreached" "BreachDetected" ∷ [];
}

abbrev works : List Breach.Call → Breach.Call → Result {0} Unit
works calls c = ok tt

abbrev failed_scrape : Result (List ℕ)
failed_scrape = err (failed "timeout")

never_panics : failed_scrape ≢ panic
never_panics h = absurd (cc)

monitor_breaches-reports_example :
    Breach.monitor_breaches works {A = ℕ} 50 checkout
      (ok breached_conditions)
      (err (failed "timeout"))
      []
    ≡ (ok tt, round_writes 50 checkout true false ++ [])
unfolding is_true
monitor_breaches-reports_example =
    monitor_breaches-reports works 50 checkout breached_conditions failed_scrape [] (λ made c. refl)
      never_panics

abbrev registered : Manager
registered = (register_monitor "shop/checkout" new_manager).1

Reachable-Invariant_example : Invariant registered × ((shutdown registered).running ≡ [])
Reachable-Invariant_example =
    Reachable-Invariant registered (further start (register "shop/checkout"))

run-replay_example :
    find_monitor "shop/checkout"
      (run
        (Refining.register "shop/checkout"
          ∷ Refining.register "shop/lost"
          ∷ Refining.deregister "shop/lost"
          ∷ [])
        new_manager).monitors
    ≡ some 0
run-replay_example =
    run-replay
      (Refining.register "shop/checkout"
        ∷ Refining.register "shop/lost"
        ∷ Refining.deregister "shop/lost"
        ∷ [])
      "shop/checkout"
