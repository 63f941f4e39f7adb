-- ===== src/Iterators/Aging.antt =====
-- `AgingPolicyIterator.NextPolicy` of pkg/reco/policyiterators.go.
use ottoscalr.Result.{ok, Result-cases}
use ottoscalr.Prelude.{
  ℕ, ◌≤ℤ◌, eq_iff, true, false, some, List, ◌≡◌, ◌≢◌, ◌⊎◌, inl, inr, arith, Bool-cases, Mem,
}
use ottoscalr.Api.{Policy, Time, PolicyRecommendation}
use ottoscalr.Store.{PolicyClient, get_policy_by_name, get_next_policy_by_name}
use ottoscalr.Store.Sorting.{Sorts}
use ottoscalr.Store.Neighbours.{get_next-NextOf}
use ottoscalr.Workflow.{RecoPolicy, policy_from_cr}
use ottoscalr.Iterators.{aging_next_policy, is_age_beyond_expiry}

-- The listed policies of one name have one risk index, as where names are unique.
abbrev pub Agrees : Policy → List Policy → Type 0
Agrees cur items = (p : Policy) → Mem p items → p.name ≡ cur.name → p.risk_index ≡ cur.risk_index

module _ (sort_slice : List Policy → List Policy) (c : PolicyClient) where
  aging-cases :
      (reco : PolicyRecommendation) (age : ℕ) (now : Time) (cur : Policy) (p : RecoPolicy)
      → reco.spec.policy ≢ ""
      → c.get reco.spec.policy ≡ ok cur
      → aging_next_policy sort_slice c (ok reco) age now ≡ ok (some p)
      → (p ≡ policy_from_cr cur)
        ⊎ ((q : Policy) × (p ≡ policy_from_cr q)
            × (is_age_beyond_expiry reco.spec.transitioned_at age now ≡ true)
            × (get_next_policy_by_name sort_slice c reco.spec.policy ≡ ok q))
  unfolding aging_next_policy get_policy_by_name
  aging-cases reco age now cur p named g h =
      elim (Bool-cases (is_age_beyond_expiry reco.spec.transitioned_at age now)) [
        | inl e ↦ elim (Result-cases (get_next_policy_by_name sort_slice c reco.spec.policy)) [
          | inl (q, n) ↦ inr (q, ground (arith, eq_iff reco.spec.policy ""), e, n)
          | inr (inl (x, n)) ↦ inl (ground (arith, eq_iff reco.spec.policy ""))
          | inr (inr n) ↦ absurd (ground (arith, eq_iff reco.spec.policy ""))
        ]
        | inr e ↦ inl (ground (arith, eq_iff reco.spec.policy ""))
      ]

-- For a recommendation that names a policy which the server knows and lists, the policy proposed by
-- ageing is no safer than the current one, and is the current one until the age has passed.
pub aging-advances :
    (sort_slice : List Policy → List Policy) (laws : Sorts sort_slice) (c : PolicyClient)
    (reco : PolicyRecommendation) (age : ℕ) (now : Time) (cur : Policy) (items : List Policy)
    (p : RecoPolicy)
    → reco.spec.policy ≢ ""
    → c.get reco.spec.policy ≡ ok cur
    → c.list ≡ ok items
    → Agrees cur items
    → aging_next_policy sort_slice c (ok reco) age now ≡ ok (some p)
    → (cur.risk_index ≤ℤ p.risk_index)
      × (is_age_beyond_expiry reco.spec.transitioned_at age now ≡ false → p ≡ policy_from_cr cur)
aging-advances sort_slice laws c reco age now cur items p named g l agrees h =
    elim (aging-cases sort_slice c reco age now cur p named g h) [
      | inl e ↦ (rw e (omega arith), λ _. e)
      | inr (q, e, expired, n) ↦
          let next = get_next-NextOf sort_slice laws c reco.spec.policy l g n in
          let same : next.place.current.risk_index ≡ cur.risk_index =
            agrees next.place.current next.current_listed next.place.named in
          (rw e (rw (← same) next.no_safer), λ f. absurd (cc))
    ]
