-- ===== src/Trigger/Breach/Reported.antt =====
-- The breach condition follows what the metrics say (pkg/trigger/monitor.go).
use ottoscalr.Prelude.{
  Bool, true, false, List, [], ◌∷◌, ◌≡◌, refl, if◌then◌else◌, Bool-cases, inl, inr, Option, ◌≢◌,
  none, some, str_eq, ◌++◌, ◌∙◌, ap,
}
use ottoscalr.Result.{Result, ok, err, panic}
use ottoscalr.Api.{Time, PolicyRecommendation, Condition, condition_true, condition_false}
use ottoscalr.Trigger.Handler.{NamespacedName}
use ottoscalr.Conditions.{is_true, new_policy_recommendation_condition}
use ottoscalr.Trigger.Breach.{
  Call, patch_status, handle, has_breached, breached_or_false, breached_in_past,
  create_breach_condition, react, monitor_breaches,
}

-- Whether the answer of the scraper shows a breach: an error is taken for none.
abbrev pub shows_breach : {A : Type 0} → Result (List A) → Bool
shows_breach (ok []) = false
shows_breach (ok (d ∷ rest)) = true
shows_breach (err e) = false
shows_breach panic = false

-- What the last condition of the type says, if there is one.
abbrev pub last_reported : List Condition → Option Bool
last_reported [] = none
last_reported (c ∷ rest) = elim (last_reported rest) [
  | some b ↦ some b
  | none ↦ if str_eq "HasBreached" c.type then some (is_true c.status) else none
]

abbrev pub or_else : Bool → Option Bool → Bool
or_else past none = past
or_else past (some b) = b

-- The condition that says whether there is a breach.
abbrev pub breach_report : Time → NamespacedName → Bool → Call
breach_report now workload true = patch_status (record {
  name = workload.name;
  namespace = workload.namespace;
  conditions =
      record {
        type = "HasBreached";
        status = condition_true;
        observed_generation = 0;
        last_transition_time = now;
        reason = "BreachDetected";
        message = "A breach has been detected";
      }
      ∷ [];
})
breach_report now workload false = patch_status (record {
  name = workload.name;
  namespace = workload.namespace;
  conditions =
      record {
        type = "HasBreached";
        status = condition_false;
        observed_generation = 0;
        last_transition_time = now;
        reason = "NoBreachDetected";
        message = "No breach detected for the current recommendation";
      }
      ∷ [];
})

-- The writes of a round by what the condition said and what the metrics show, the last one first.
abbrev pub round_writes : Time → NamespacedName → (past breached : Bool) → List Call
round_writes now workload true true = handle workload ∷ []
round_writes now workload false true = handle workload ∷ breach_report now workload true ∷ []
round_writes now workload true false = breach_report now workload false ∷ []
round_writes now workload false false = []

last_reported_lem :
    (past : Bool) (l : List Condition) → breached_in_past past l ≡ or_else past (last_reported l)
unfolding breached_in_past
last_reported_lem past [] = refl
last_reported_lem past (c ∷ rest) =
    last_reported_lem (if str_eq "HasBreached" c.type then is_true c.status else past) rest
    ∙ read_first (last_reported rest)
  where
    read_first :
        (o : Option Bool)
        → or_else (if str_eq "HasBreached" c.type then is_true c.status else past) o
          ≡ or_else past (elim o [
            | some b ↦ some b
            | none ↦ if str_eq "HasBreached" c.type then some (is_true c.status) else none
          ])
    read_first (some b) = refl
    read_first none = elim (Bool-cases (str_eq "HasBreached" c.type)) [
      | inl e ↦ rw e refl
      | inr e ↦ rw e refl
    ]

module _ (answer : List Call → Call → Result {0} Unit) where
  react-round_writes :
      (now : Time) (workload : NamespacedName) (past breached : Bool) (calls : List Call)
      → ((made : List Call) (c : Call) → answer made c ≡ ok tt)
      → react answer now workload breached past calls
        ≡ (ok tt, round_writes now workload past breached ++ calls)
  unfolding react create_breach_condition new_policy_recommendation_condition
  react-round_writes now workload true true calls works = refl
  react-round_writes now workload false true calls works = rw works refl
  react-round_writes now workload true false calls works = rw works refl
  react-round_writes now workload false false calls works = refl

  -- Where the writes succeed and the scraper answers or fails, a round reports a breach on the
  -- workload just when the metrics show one that the last HasBreached condition does not say, and its
  -- end just when they show none while that condition says that there is one; it calls the handler
  -- just when the metrics show a breach, behind the report. A failure of the scraper counts as
  -- metrics without a breach, so that it clears the condition.
  pub monitor_breaches-reports :
      {A : Type 0} (now : Time) (workload : NamespacedName) (policyreco : PolicyRecommendation)
      (points : Result (List A)) (calls : List Call)
      → ((made : List Call) (c : Call) → answer made c ≡ ok tt)
      → points ≢ panic
      → monitor_breaches answer now workload (ok policyreco) points calls ≡ (
        ok tt,
        round_writes now workload
              (or_else false (last_reported policyreco.conditions))
              (shows_breach points)
            ++ calls,
      )
  unfolding monitor_breaches breached_or_false has_breached
  monitor_breaches-reports {A} now workload policyreco points calls works calm = go points calm
    where
      goes :
          (breached : Bool)
          → react answer now workload breached (breached_in_past false policyreco.conditions) calls
            ≡ (
              ok tt,
              round_writes now workload
                    (or_else false (last_reported policyreco.conditions))
                    breached
                  ++ calls,
            )
      goes breached =
          ap (λ past. react answer now workload breached past calls)
            (last_reported_lem false policyreco.conditions)
          ∙ react-round_writes now workload (or_else false (last_reported policyreco.conditions))
              breached calls works

      go :
          (q : Result (List A))
          → q ≢ panic
          → monitor_breaches answer now workload (ok policyreco) q calls ≡ (
            ok tt,
            round_writes now workload
                  (or_else false (last_reported policyreco.conditions))
                  (shows_breach q)
                ++ calls,
          )
      go (ok []) calm = goes false
      go (ok (d ∷ rest)) calm = goes true
      go (err e) calm = goes false
      go panic calm = absurd (calm refl)
