-- ===== src/Workflow/Applying.antt =====
-- `generateNextRecoConfig` and `Execute` of pkg/reco/workflow.go: which policy is applied.
use mathlib.Core.List.{mem-cons, not-mem-nil}
use mathlib.Core.HLevel.{Π_prop}
use mathlib.Core.Logic.Or
use ottoscalr.Prelude.{
  ℤ, ◌≤ℤ◌, ≤ℤ_prop, ≤ℤ_trans, true, Option, none, some, List, [], ◌∷◌, Mem, All, inl, inr, ◌≡◌, sym,
  subst, ≤ℤ_trans, Option-cases, All-of_mem, ◌⊎◌, arith, Bool-cases,
}
use ottoscalr.Result.{ok, >>=-eq-ok}
use ottoscalr.Api.{Policy, HpaConfiguration}
use ottoscalr.Store.Sorting.{IsSorted}
use ottoscalr.Workflow.{
  WorkloadMeta, RecoPolicy, Workflow, Recommender, policy_from_cr, run_iterators, iterators_of,
  is_closest_candidate, last_candidate, find_closest_safe_policy, should_apply_reco,
  generate_next_reco_config, execute, execute_with, transform_target_reco_config,
}
use ottoscalr.Workflow.Picking.{proposals, run_iterators-least}

-- A policy that the workflow may pick for a recommendation.
abbrev pub IsCandidate : HpaConfiguration → Policy → Type 0
IsCandidate config p = is_closest_candidate config p ≡ true

last_candidate-IsCandidate :
    (config : HpaConfiguration) (l : List Policy) (closest : Option Policy) (p : Policy)
    → last_candidate config l closest ≡ some p
    → ((closest ≡ some p) × All (λ q. ¬ IsCandidate config q) l) ⊎ (IsCandidate config p × Mem p l)
unfolding last_candidate
last_candidate-IsCandidate config [] closest p h = inl (h, tt)
last_candidate-IsCandidate config (q ∷ rest) closest p h =
    elim (Bool-cases (is_closest_candidate config q)) [
      | inl e ↦ elim (last_candidate-IsCandidate config rest (some q) p (rw e at h)) [
        | inl (k, none_left) ↦
            let e' : q ≡ p = cc in
            inr (subst (IsCandidate config) e' e, mem-cons.1 (Or.inl (sym e')))
        | inr (k, m) ↦ inr (k, mem-cons.1 (Or.inr m))
      ]
      | inr e ↦ elim (last_candidate-IsCandidate config rest closest p (rw e at h)) [
        | inl (k, none_left) ↦ inl (k, ((λ c. cc), none_left))
        | inr (k, m) ↦ inr (k, mem-cons.1 (Or.inr m))
      ]
    ]

-- In the order of risk the last candidate has the greatest risk of all candidates.
last_candidate-greatest :
    (config : HpaConfiguration) (l : List Policy) (closest : Option Policy) (p : Policy)
    → IsSorted l
    → last_candidate config l closest ≡ some p
    → All (λ q. IsCandidate config q → q.risk_index ≤ℤ p.risk_index) l
unfolding last_candidate
last_candidate-greatest config [] closest p s h = tt
last_candidate-greatest config (q ∷ rest) closest p s h =
    elim (Bool-cases (is_closest_candidate config q)) [
      | inl e ↦
          let h' : last_candidate config rest (some q) ≡ some p = rw e at h in
          (
            (λ _. below (last_candidate-IsCandidate config rest (some q) p h')),
            last_candidate-greatest config rest (some q) p s.1 h',
          )
      | inr e ↦ ((λ c. absurd (cc)), last_candidate-greatest config rest closest p s.1 (rw e at h))
    ]
  where
    below :
        ((some q ≡ some p) × All (λ x. ¬ IsCandidate config x) rest)
          ⊎ (IsCandidate config p × Mem p rest)
        → q.risk_index ≤ℤ p.risk_index
    below (inl (k, _)) =
        let e : q ≡ p = cc in subst (λ x. q.risk_index ≤ℤ x.risk_index) e (omega arith)
    below (inr (_, m)) =
        All-of_mem (λ x. q.risk_index ≤ℤ x.risk_index) (λ x. ≤ℤ_prop q.risk_index x.risk_index) rest
          p s.0 m

-- When the store lists its policies in the order of risk, the closest safe policy is a full cut
-- whose target is not above the recommended one, and no other such policy is riskier.
pub find_closest_safe_policy-greatest :
    (w : Workflow) (config : HpaConfiguration) (l : List Policy) (r : RecoPolicy)
    → w.sorted_policies ≡ some (ok l)
    → IsSorted l
    → find_closest_safe_policy w config ≡ ok r
    → (p : Policy) × (r ≡ policy_from_cr p)
      × Mem p l
      × IsCandidate config p
      × ((q : Policy) → Mem q l → IsCandidate config q → q.risk_index ≤ℤ p.risk_index)
unfolding find_closest_safe_policy
find_closest_safe_policy-greatest w config l r e s h =
    elim (Option-cases (last_candidate config l none)) [
      | inl n ↦ absurd (ground arith)
      | inr (p, k) ↦ elim (last_candidate-IsCandidate config l none p k) [
        | inl (x, _) ↦ absurd (cc)
        | inr (c, m) ↦ (
          p,
          ground arith,
          m,
          c,
          λ q mq.
              All-of_mem (λ x. IsCandidate config x → x.risk_index ≤ℤ p.risk_index)
                (λ x. Π_prop λ _. ≤ℤ_prop x.risk_index p.risk_index) l q
                (last_candidate-greatest config l none p s k) mq,
        )
      ]
    ]

module _ (ceil_float : ℤ → ℤ) (w : Workflow) (wm : WorkloadMeta) where
  -- Whatever is applied under a picked policy has no larger risk index than it.
  generate_next-le :
      (config : Option HpaConfiguration) (policy p : RecoPolicy) {applied : Option HpaConfiguration}
      → generate_next_reco_config ceil_float w config (some policy) wm ≡ ok (applied, some p)
      → p.risk_index ≤ℤ policy.risk_index
  unfolding generate_next_reco_config should_apply_reco
  generate_next-le none policy p h = ground arith
  generate_next-le (some config) policy p h = ground arith

  -- Where the closest safe policy and the recommendation object can be read, the policy applied is
  -- the picked one or the closest safe one, and is no riskier than either.
  generate_next-safer :
      (config : HpaConfiguration) (policy closest p : RecoPolicy)
      {applied : Option HpaConfiguration}
      → find_closest_safe_policy w config ≡ ok closest
      → generate_next_reco_config ceil_float w (some config) (some policy) wm ≡ ok (applied, some p)
      → (p.risk_index ≤ℤ policy.risk_index)
        × (p.risk_index ≤ℤ closest.risk_index)
        × ((p ≡ policy) ⊎ ((p ≡ closest) × (applied ≡ some config)))
  unfolding generate_next_reco_config should_apply_reco
  generate_next-safer config policy closest p e h = (ground arith, ground arith, ground arith)

  -- A run of the workflow is a recommendation, a pick among the proposals and a decision.
  execute_with-parts :
      (recommend : Recommender) {applied target : Option HpaConfiguration}
      {policy : Option RecoPolicy}
      → execute_with ceil_float recommend w wm ≡ ok (applied, target, policy)
      → (next : Option RecoPolicy) × (run_iterators (iterators_of w.policy_iterators) wm none
          ≡ ok next)
        × (generate_next_reco_config ceil_float w target next wm ≡ ok (applied, policy))
  unfolding execute_with
  execute_with-parts recommend {applied} {target} {policy} h =
      let (config, e1, k1) = >>=-eq-ok (recommend wm) _ h in
      let (next, e2, k2) =
        >>=-eq-ok (run_iterators (iterators_of w.policy_iterators) wm none) _ k1 in
      let (decided, e3, k3) =
        >>=-eq-ok
          (generate_next_reco_config ceil_float w
            (transform_target_reco_config config w.min_required_replicas) next wm)
          _ k2 in
      (next, e2, cc)

  execute-parts :
      {applied target : Option HpaConfiguration} {policy : Option RecoPolicy}
      → execute ceil_float w wm ≡ ok (applied, target, policy)
      → (next : Option RecoPolicy) × (run_iterators (iterators_of w.policy_iterators) wm none
          ≡ ok next)
        × (generate_next_reco_config ceil_float w target next wm ≡ ok (applied, policy))
  unfolding execute
  execute-parts {applied} {target} {policy} h = elim (Option-cases w.recommender) [
    | inl n ↦ absurd (ground arith)
    | inr (recommend, e) ↦ execute_with-parts recommend (ground arith)
  ]

  -- When a run succeeds and reports a policy, that policy is no riskier than any proposal of the
  -- iterators.
  pub execute-le_proposals :
      {applied target : Option HpaConfiguration} (p q : RecoPolicy)
      → execute ceil_float w wm ≡ ok (applied, target, some p)
      → Mem q (proposals (iterators_of w.policy_iterators) wm)
      → p.risk_index ≤ℤ q.risk_index
  execute-le_proposals {applied} {target} p q h m =
      let (next, run, gen) = execute-parts h in
      let its = iterators_of w.policy_iterators in
      let (empty, least) = run_iterators-least its wm next run in
      elim (Option-cases next) [
        | inl n ↦ absurd (not-mem-nil (subst (Mem q) (empty.0 n) m))
        | inr (picked, e) ↦
            ≤ℤ_trans p.risk_index picked.risk_index q.risk_index
              (generate_next-le target picked p {applied = applied} (
                subst
                  (λ x. generate_next_reco_config ceil_float w target x wm ≡ ok (applied, some p)) e
                  gen))
              ((least picked e).1 q m)
      ]

  -- When a run succeeds for a recommendation while some iterator proposes a policy and a closest
  -- safe policy exists, the policy applied is no riskier than the closest safe policy, and the
  -- recommendation itself is applied unless the policy is one of the proposals.
  pub execute-safer :
      {applied : Option HpaConfiguration} {target : HpaConfiguration} (closest p q : RecoPolicy)
      → execute ceil_float w wm ≡ ok (applied, some target, some p)
      → Mem q (proposals (iterators_of w.policy_iterators) wm)
      → find_closest_safe_policy w target ≡ ok closest
      → (p.risk_index ≤ℤ closest.risk_index)
        × (Mem p (proposals (iterators_of w.policy_iterators) wm)
            ⊎ ((p ≡ closest) × (applied ≡ some target)))
  execute-safer {applied} {target} closest p q h m f =
      let (next, run, gen) = execute-parts h in
      let its = iterators_of w.policy_iterators in
      let (empty, least) = run_iterators-least its wm next run in
      elim (Option-cases next) [
        | inl n ↦ absurd (not-mem-nil (subst (Mem q) (empty.0 n) m))
        | inr (picked, e) ↦
            let (le, below, which) =
              generate_next-safer target picked closest p {applied = applied} f (
                subst
                  (λ x.
                    generate_next_reco_config ceil_float w (some target) x wm
                    ≡ ok (applied, some p))
                  e gen) in
            (
              below,
              elim which [
                | inl same ↦
                    inl (subst (λ x. Mem x (proposals its wm)) (sym same) (least picked e).0)
                | inr cl ↦ inr cl
              ],
            )
      ]
