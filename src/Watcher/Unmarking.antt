-- ===== src/Watcher/Unmarking.antt =====
-- The default policies behind a run of the watcher.
use ottoscalr.Prelude.{
  String, str_eq, eq_iff, Bool, true, false, List, [], ◌∷◌, ◌≡◌, ◌⊎◌, inl, inr, refl, All, arith,
  if◌then◌else◌, ◌&&◌, ◌||◌, Bool-cases, ap, ◌∙◌, sym, subst,
}
use ottoscalr.Result.{Result, ok, err, panic, Result-cases}
use ottoscalr.Api.{Policy, is_zero}
use ottoscalr.Calls.{Run, ◌>>=◌, resume}
use ottoscalr.Watcher.{
  Call, update, requeue_one, requeue_all, Cluster, finalized, unmarked, unmark_others,
  ensure_one_default, add_finalizer, handle_reconcilation, settle, handle, reconcile,
  contains_string, tell, policy_finalizer_name,
}

-- What an update does to the stored policies.
abbrev pub replace : Policy → List Policy → List Policy
replace policy [] = []
replace policy (q ∷ rest) = (if str_eq q.name policy.name then policy else q) ∷ replace policy rest

-- The policies that are stored behind the writes of a run.
abbrev pub stored : List Policy → List Call → List Policy
stored initial [] = initial
stored initial (update policy ∷ earlier) = replace policy (stored initial earlier)
stored initial (requeue_one w ∷ earlier) = stored initial earlier
stored initial (requeue_all ∷ earlier) = stored initial earlier

-- Some policy of the list has the name and is a default.
abbrev marked : List Policy → String → Bool
marked [] name = false
marked (o ∷ rest) name = o.is_default && str_eq o.name name || marked rest name

-- A policy is no default, or the one of the name, or it is still to be unmarked.
abbrev Pending : String → List Policy → Policy → Type 0
Pending name l q = (q.is_default ≡ false) ⊎ ((q.name ≡ name) ⊎ (marked l q.name ≡ true))

module _ (name : String) (o : Policy) (rest : List Policy) where
  skip-Pending :
      (l : List Policy)
      → (o.name ≡ name) ⊎ (o.is_default ≡ false)
      → All (Pending name (o ∷ rest)) l
      → All (Pending name rest) l
  skip-Pending [] skipped h = tt
  skip-Pending (q ∷ l) skipped h =
      (ground (arith, h.0, eq_iff o.name q.name), skip-Pending l skipped h.1)

  replace-Pending :
      (l : List Policy)
      → All (Pending name (o ∷ rest)) l
      → All (Pending name rest) (replace (unmarked o) l)
  replace-Pending [] h = tt
  replace-Pending (q ∷ l) h =
      (ground (arith, h.0, eq_iff o.name q.name, eq_iff q.name o.name), replace-Pending l h.1)

weaken-Pending :
    (name : String) (o : Policy) (rest l : List Policy)
    → All (Pending name rest) l
    → All (Pending name (o ∷ rest)) l
weaken-Pending name o rest [] h = tt
weaken-Pending name o rest (q ∷ l) h = (ground (arith, h.0), weaken-Pending name o rest l h.1)

start-Pending : (name : String) (l : List Policy) → All (Pending name l) l
start-Pending name [] = tt
start-Pending name (o ∷ rest) = (
  ground (arith, eq_iff o.name o.name),
  weaken-Pending name o rest rest (start-Pending name rest),
)

none-Pending :
    (name : String) (l : List Policy)
    → All (Pending name []) l
    → All (λ q. (q.is_default ≡ false) ⊎ (q.name ≡ name)) l
none-Pending name [] h = tt
none-Pending name (q ∷ l) h = (ground (arith, h.0), none-Pending name l h.1)

module _ (cluster : Cluster) (initial : List Policy) (name : String) where
  -- A run that succeeds leaves at most the policy of the name to be a default.
  abbrev Settles : Result {0} Unit × List Call → Type 0
  Settles (ok u, made) = All (λ q. (q.is_default ≡ false) ⊎ (q.name ≡ name)) (stored initial made)
  Settles (err e, made) = Unit
  Settles (panic, made) = Unit

  unmark_others-Settles :
      (l : List Policy) (calls : List Call)
      → All (Pending name l) (stored initial calls)
      → Settles (unmark_others cluster name l calls)
  unfolding unmark_others
  unmark_others-Settles [] calls h = none-Pending name (stored initial calls) h
  unmark_others-Settles (o ∷ rest) calls h = elim (Bool-cases (str_eq o.name name)) [
    | inl e ↦ rw e (
        unmark_others-Settles rest calls
          (skip-Pending name o rest (stored initial calls) (inl ((eq_iff o.name name).0 e)) h))
    | inr n ↦ elim (Bool-cases o.is_default) [
      | inr d ↦
          rw (n, d)
            (unmark_others-Settles rest calls
              (skip-Pending name o rest (stored initial calls) (inr d) h))
      | inl d ↦ elim (Result-cases (cluster.answer calls (update (unmarked o)))) [
        | inl (u, a) ↦
            rw (n, d, a)
              (unmark_others-Settles rest (update (unmarked o) ∷ calls)
                (replace-Pending name o rest (stored initial calls) h))
        | inr (inl (x, a)) ↦ rw (n, d, a) tt
        | inr (inr a) ↦ rw (n, d, a) tt
      ]
    ]
  ]

  -- The same, and all recommendations are requeued at the end.
  abbrev Requeues : Result {0} Unit × List Call → Type 0
  Requeues (ok u, made) =
      (earlier : List Call) × (made ≡ requeue_all ∷ earlier)
      × All (λ q. (q.is_default ≡ false) ⊎ (q.name ≡ name)) (stored initial made)
  Requeues (err e, made) = Unit
  Requeues (panic, made) = Unit

  resume-Requeues :
      {A : Type 0} (r : Result A × List Call) (f : A → Run Call Unit)
      → ((a : A) (made : List Call) → Requeues (f a made))
      → Requeues (resume r f)
  resume-Requeues (ok a, made) f h = h a made
  resume-Requeues (err e, made) f h = tt
  resume-Requeues (panic, made) f h = tt

  requeue-Requeues :
      (r : Result {0} Unit × List Call) → Settles r → Requeues (resume r (λ _. tell requeue_all))
  requeue-Requeues (ok u, made) h = (made, refl, h)
  requeue-Requeues (err e, made) h = tt
  requeue-Requeues (panic, made) h = tt

  module _
      (reads : (calls : List Call) → cluster.list_policies calls ≡ ok (stored initial calls)) where
    settle-Requeues :
        (policy : Policy) (calls : List Call)
        → policy.name ≡ name
        → is_zero policy.deletion_timestamp ≡ true
        → policy.is_default ≡ true
        → Requeues (settle cluster policy calls)
    unfolding settle ensure_one_default
    settle-Requeues policy calls n live default =
        let L = stored initial calls in
        let done : Settles (unmark_others cluster policy.name L calls) =
          subst (λ k. Settles (unmark_others cluster k L calls)) (sym n)
            (unmark_others-Settles L calls (start-Pending name L)) in
        rw (live, default, reads calls)
          (requeue-Requeues (unmark_others cluster policy.name L calls) done)

    finalized-Requeues :
        (policy : Policy) (calls : List Call)
        → policy.name ≡ name
        → is_zero policy.deletion_timestamp ≡ true
        → policy.is_default ≡ true
        → Requeues ((handle_reconcilation cluster policy >>= λ _. settle cluster policy) calls)
    finalized-Requeues policy calls n live default =
        resume-Requeues (handle_reconcilation cluster policy calls) (λ _. settle cluster policy)
          (λ _ made. settle-Requeues policy made n live default)

    handle-Requeues :
        (policy : Policy)
        → policy.name ≡ name
        → is_zero policy.deletion_timestamp ≡ true
        → policy.is_default ≡ true
        → Requeues (handle cluster (ok policy) [])
    unfolding handle add_finalizer
    handle-Requeues policy n live default =
        let write = update (finalized policy) in
        elim (Bool-cases (contains_string policy.finalizers policy_finalizer_name)) [
          | inl e ↦ rw e (finalized-Requeues policy [] n live default)
          | inr e ↦ elim (Result-cases (cluster.answer [] write)) [
            | inl (u, a) ↦
                rw (e, a) (finalized-Requeues (finalized policy) (write ∷ []) n live default)
            | inr (inl (x, a)) ↦ rw (e, a) tt
            | inr (inr a) ↦ rw (e, a) tt
          ]
        ]

-- Where the list of policies shows the updates that the run has made, a run for a default policy
-- that is not deleted, if it ends without an error, leaves no other policy that is a default, and
-- its last call requeues all recommendations.
pub reconcile-one_default :
    (cluster : Cluster) (initial : List Policy) (policy : Policy) (made : List Call)
    → ((calls : List Call) → cluster.list_policies calls ≡ ok (stored initial calls))
    → cluster.get ≡ ok policy
    → is_zero policy.deletion_timestamp ≡ true
    → policy.is_default ≡ true
    → reconcile cluster [] ≡ (ok tt, made)
    → ((earlier : List Call) × (made ≡ requeue_all ∷ earlier))
      × All (λ q. (q.is_default ≡ false) ⊎ (q.name ≡ policy.name)) (stored initial made)
unfolding reconcile
reconcile-one_default cluster initial policy made reads found live default ended =
    let (earlier, last, all) =
      subst (Requeues cluster initial policy.name)
        (sym (ap (λ r. handle cluster r []) found) ∙ ended)
        (handle-Requeues cluster initial policy.name reads policy refl live default) in
    ((earlier, last), all)
