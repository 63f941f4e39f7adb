-- ===== src/Examples/Policies.antt =====
-- The policy store and the policy iterators on three policies.
use ottoscalr.Prelude.{pos, ◌≤ℤ◌, true, false, ◌≡◌, refl, All-of_mem}
use ottoscalr.Result.{ok, failed}
use ottoscalr.Api.{Policy}
use ottoscalr.Store.{
  live_policies, get_next_policy_by_name, get_previous_policy_by_name, get_policy_by_name,
  get_sorted_policies, next_after, previous_before,
}
use ottoscalr.Store.Sorting.{insertion_sort, insertion_sort-Sorts}
use ottoscalr.Store.Neighbours.{NextOf, get_next-NextOf, get_previous-get_next}
use ottoscalr.Workflow.{policy_from_cr}
use ottoscalr.Iterators.{aging_next_policy, breach_next_policy, is_age_beyond_expiry}
use ottoscalr.Iterators.Aging.{aging-advances, Agrees}
use ottoscalr.Iterators.Breach.{breach_next_policy-Precedes}
use ottoscalr.Store.Previous.{Precedes}
use ottoscalr.Examples.{
  safe_policy, policies, client, middle_policy, risky_policy, recommendation, differ, some, none,
  err,
}

get_next-NextOf_example :
    NextOf "middle" (insertion_sort (live_policies policies)) policies risky_policy
unfolding get_next_policy_by_name insertion_sort live_policies next_after get_sorted_policies
    get_policy_by_name
get_next-NextOf_example =
    get_next-NextOf insertion_sort insertion_sort-Sorts client "middle" refl refl refl

get_previous-get_next_example :
    (p : Policy) × (get_previous_policy_by_name insertion_sort client "risky" ≡ ok p)
    × (p.name ≡ "middle")
unfolding get_next_policy_by_name insertion_sort live_policies next_after get_sorted_policies
    get_policy_by_name
get_previous-get_next_example =
    get_previous-get_next insertion_sort client "middle" refl refl
      ((differ _ _ refl, (differ _ _ refl, tt)), ((differ _ _ refl, tt), (tt, tt))) refl refl refl

middle_policy-Agrees : Agrees middle_policy policies
middle_policy-Agrees p m =
    All-of_mem (λ (q : Policy). q.name ≡ "middle" → q.risk_index ≡ pos 2) (λ q. hlevel) policies p
      (
        λ _. refl,
        (
          λ e. absurd (differ "risky" "middle" refl e),
          (λ e. absurd (differ "safe" "middle" refl e), tt),
        ),
      )
      m

aging-advances_example :
    (middle_policy.risk_index ≤ℤ risky_policy.risk_index)
    × (is_age_beyond_expiry recommendation.spec.transitioned_at 10 30 ≡ false
        → policy_from_cr risky_policy ≡ policy_from_cr middle_policy)
unfolding aging_next_policy is_age_beyond_expiry get_next_policy_by_name insertion_sort
    live_policies next_after get_sorted_policies get_policy_by_name
aging-advances_example =
    aging-advances insertion_sort insertion_sort-Sorts client recommendation 10 30 middle_policy
      policies (policy_from_cr risky_policy) (differ _ _ refl) refl refl middle_policy-Agrees refl

breach_next_policy-Precedes_example :
    (breach_next_policy insertion_sort client (ok recommendation) (ok true) (ok recommendation)
      ≡ ok (some (policy_from_cr safe_policy)))
    × ((prev : Precedes "middle" (insertion_sort (live_policies policies)) safe_policy)
        × (safe_policy.risk_index ≤ℤ prev.current.risk_index))
    × (breach_next_policy insertion_sort client (ok recommendation) (ok false) (ok recommendation)
        ≡ ok none)
    × (breach_next_policy insertion_sort client
          (ok recommendation)
          (err (failed "timeout"))
          (ok recommendation)
        ≡ err (failed "timeout"))
unfolding get_previous_policy_by_name get_sorted_policies get_policy_by_name insertion_sort
    live_policies previous_before
breach_next_policy-Precedes_example =
    breach_next_policy-Precedes insertion_sort insertion_sort-Sorts client recommendation
      recommendation middle_policy policies safe_policy (failed "timeout") (differ _ _ refl) refl
      refl refl refl
