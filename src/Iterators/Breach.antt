-- ===== src/Iterators/Breach.antt =====
-- `BreachAnalyzer.NextPolicy` of pkg/reco/breach_analyzer.go.
use ottoscalr.Result.{ok, err, Err}
use ottoscalr.Prelude.{◌≢◌, eq_iff, arith, true, false, none, some, ◌≤ℤ◌, List, ◌≡◌}
use ottoscalr.Api.{Policy, PolicyRecommendation, is_zero}
use ottoscalr.Store.{PolicyClient, live_policies, get_previous_policy_by_name}
use ottoscalr.Store.Sorting.{Sorts}
use ottoscalr.Store.Previous.{Precedes, get_previous-Precedes}
use ottoscalr.Iterators.{breach_next_policy, Err, err}

-- Where the recommendation names a policy and has been generated, and the store finds a policy before
-- the one that the recommendation names then, a breach proposes the policy found, which stands
-- directly before a policy of that name in the order of risk of the listed policies, and is no riskier
-- than it. Without a breach nothing is proposed, and an error of the breach check is the answer.
pub breach_next_policy-Precedes :
    (sort_slice : List Policy → List Policy) (laws : Sorts sort_slice) (c : PolicyClient)
    (first second : PolicyRecommendation) (cur : Policy) (items : List Policy) (q : Policy)
    (e : Err)
    → first.spec.policy ≢ ""
    → is_zero first.spec.generated_at ≡ false
    → c.get second.spec.policy ≡ ok cur
    → c.list ≡ ok items
    → get_previous_policy_by_name sort_slice c second.spec.policy ≡ ok q
    → (breach_next_policy sort_slice c (ok first) (ok true) (ok second)
        ≡ ok (
            some (record {
              name = q.name;
              risk_index = q.risk_index;
              min_replica_percentage_cut = q.min_replica_percentage_cut;
              target_utilization = q.target_utilization;
            })))
      × ((prev : Precedes cur.name (sort_slice (live_policies items)) q) × (q.risk_index
            ≤ℤ prev.current.risk_index))
      × (breach_next_policy sort_slice c (ok first) (ok false) (ok second) ≡ ok none)
      × (breach_next_policy sort_slice c (ok first) (err e) (ok second) ≡ err e)
unfolding breach_next_policy
breach_next_policy-Precedes sort_slice laws c first second cur items q e named generated g l found =
    (
      ground (arith, eq_iff first.spec.policy ""),
      (let (prev, le) = get_previous-Precedes sort_slice laws c second.spec.policy l g found in
          (prev, le)),
      ground (arith, eq_iff first.spec.policy ""),
      ground (arith, eq_iff first.spec.policy ""),
    )
