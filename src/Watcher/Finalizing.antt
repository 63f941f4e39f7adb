-- ===== src/Watcher/Finalizing.antt =====
-- The finalizer of a policy, and the recommendations that a run of the watcher requeues.
use ottoscalr.Prelude.{
  String, str_eq, eq_iff, true, false, List, [], ◌∷◌, ◌++◌, ◌≡◌, refl, All, arith, if◌then◌else◌,
  Bool-cases, inl, inr, ap, ◌∙◌, ◌⊎◌,
}
use ottoscalr.Result.{ok}
use ottoscalr.Api.{Policy, PolicyRecommendation, is_zero}
use ottoscalr.Watcher.{
  Call, update, requeue_one, requeue_all, Cluster, contains_string, remove_string, named, finalized,
  released, unmarked, unmark_others, ensure_one_default, add_finalizer, handle_reconcilation,
  requeue_each, settle, handle, reconcile, policy_finalizer_name,
}
use ottoscalr.Watcher.Unmarking.{stored, reconcile-one_default}

remove_string-contains :
    (l : List String) (str : String) → contains_string (remove_string l str) str ≡ false
unfolding contains_string remove_string
remove_string-contains [] str = refl
remove_string-contains (s ∷ rest) str = ground (arith, remove_string-contains rest str)

remove_string-append :
    (l : List String) (str : String) → remove_string (l ++ str ∷ []) str ≡ remove_string l str
unfolding remove_string
remove_string-append [] str = ground (arith, eq_iff str str)
remove_string-append (s ∷ rest) str = ground (arith, remove_string-append rest str)

-- The policy behind `addFinalizer`, the write of it, and the requeues of the recommendations.
abbrev pub kept : Policy → Policy
kept policy =
    if contains_string policy.finalizers policy_finalizer_name then policy else finalized policy

abbrev pub added : Policy → List Call
added policy =
    if contains_string policy.finalizers policy_finalizer_name
    then []
    else update (finalized policy) ∷ []

abbrev pub requeued : List PolicyRecommendation → List Call → List Call
requeued [] calls = calls
requeued (r ∷ rest) calls = requeued rest (requeue_one (named r) ∷ calls)

module _ (cluster : Cluster)
    (works : (calls : List Call) (c : Call) → cluster.answer calls c ≡ ok tt) where
  requeue_each-requeued :
      (rs : List PolicyRecommendation) (calls : List Call)
      → requeue_each cluster rs calls ≡ (ok tt, requeued rs calls)
  unfolding requeue_each
  requeue_each-requeued [] calls = refl
  requeue_each-requeued (r ∷ rest) calls =
      requeue_each-requeued rest (requeue_one (named r) ∷ calls)

  handle-settle :
      (policy : Policy) (rs : List PolicyRecommendation)
      → ((calls : List Call) → cluster.list_referencing calls policy.name ≡ ok rs)
      → handle cluster (ok policy) [] ≡ settle cluster (kept policy) (requeued rs (added policy))
  unfolding handle add_finalizer handle_reconcilation
  handle-settle policy rs refs =
      elim (Bool-cases (contains_string policy.finalizers policy_finalizer_name)) [
        | inl e ↦ rw (e, refs, requeue_each-requeued) refl
        | inr e ↦ rw (e, works, refs, requeue_each-requeued) refl
      ]

  released-finalized : (policy : Policy) → released (finalized policy) ≡ released policy
  released-finalized policy =
      ap (λ fs. record policy { finalizers = fs })
        (remove_string-append policy.finalizers policy_finalizer_name)

  settle-released :
      (policy : Policy) (calls : List Call)
      → is_zero policy.deletion_timestamp ≡ false
      → settle cluster (kept policy) calls ≡ (ok tt, update (released policy) ∷ calls)
  unfolding settle
  settle-released policy calls deleted =
      elim (Bool-cases (contains_string policy.finalizers policy_finalizer_name)) [
        | inl e ↦ rw (e, deleted, works) refl
        | inr e ↦ rw (e, deleted, works, released-finalized policy) refl
      ]

  -- Where every write succeeds, a run for a deleted policy ends without an error. It adds the
  -- finalizer if the policy has none, requeues exactly the recommendations that reference the
  -- policy, in their order, and at last updates the policy to one that differs in its finalizers
  -- alone: the watcher's is removed, and it does not stand among those that are left.
  pub reconcile-releases :
      (policy : Policy) (rs : List PolicyRecommendation)
      → cluster.get ≡ ok policy
      → is_zero policy.deletion_timestamp ≡ false
      → ((calls : List Call) → cluster.list_referencing calls policy.name ≡ ok rs)
      → (reconcile cluster [] ≡ (ok tt, update (released policy) ∷ requeued rs (added policy)))
        × (contains_string (released policy).finalizers policy_finalizer_name ≡ false)
  unfolding reconcile settle
  reconcile-releases policy rs found deleted refs = (
    ap (λ r. handle cluster r []) found
        ∙ handle-settle policy rs refs
        ∙ settle-released policy (requeued rs (added policy)) deleted,
    remove_string-contains policy.finalizers policy_finalizer_name,
  )

  unmark_others-ok :
      (name : String) (l : List Policy) (calls : List Call)
      → (made : List Call) × (unmark_others cluster name l calls ≡ (ok tt, made))
  unfolding unmark_others
  unmark_others-ok name [] calls = (calls, refl)
  unmark_others-ok name (o ∷ rest) calls = elim (Bool-cases (str_eq o.name name)) [
    | inl e ↦ rw e (unmark_others-ok name rest calls)
    | inr n ↦ elim (Bool-cases o.is_default) [
      | inl d ↦ rw (n, d, works) (unmark_others-ok name rest (update (unmarked o) ∷ calls))
      | inr d ↦ rw (n, d) (unmark_others-ok name rest calls)
    ]
  ]

  ensure_one_default-ok :
      (policy : Policy) (calls : List Call) (l : List Policy)
      → cluster.list_policies calls ≡ ok l
      → (made : List Call) × (ensure_one_default cluster policy calls ≡ (ok tt, made))
  unfolding ensure_one_default
  ensure_one_default-ok policy calls l reads =
      let (made, e) = unmark_others-ok policy.name l calls in
      (requeue_all ∷ made, rw (reads, e) refl)

  settle-ensure_one_default :
      (policy : Policy) (calls : List Call)
      → is_zero policy.deletion_timestamp ≡ true
      → policy.is_default ≡ true
      → settle cluster (kept policy) calls ≡ ensure_one_default cluster (kept policy) calls
  unfolding settle
  settle-ensure_one_default policy calls live default =
      elim (Bool-cases (contains_string policy.finalizers policy_finalizer_name)) [
        | inl e ↦ rw (e, live, default) refl
        | inr e ↦ rw (e, live, default) refl
      ]

  -- Where every write succeeds and the lists show the updates of the run, a run for a default
  -- policy that is not deleted ends without an error; behind it no other stored policy is a
  -- default, and its last call requeues all recommendations.
  pub reconcile-ends-one_default :
      (policy : Policy) (rs : List PolicyRecommendation) (initial : List Policy)
      → cluster.get ≡ ok policy
      → is_zero policy.deletion_timestamp ≡ true
      → policy.is_default ≡ true
      → ((calls : List Call) → cluster.list_referencing calls policy.name ≡ ok rs)
      → ((calls : List Call) → cluster.list_policies calls ≡ ok (stored initial calls))
      → (made : List Call) × (reconcile cluster [] ≡ (ok tt, made))
        × ((earlier : List Call) × (made ≡ requeue_all ∷ earlier))
        × All (λ q. (q.is_default ≡ false) ⊎ (q.name ≡ policy.name)) (stored initial made)
  unfolding reconcile settle
  reconcile-ends-one_default policy rs initial found live default refs reads =
      let calls = requeued rs (added policy) in
      let (made, e) =
        ensure_one_default-ok (kept policy) calls (stored initial calls) (reads calls) in
      let ended : reconcile cluster [] ≡ (ok tt, made) =
        ap (λ r. handle cluster r []) found
        ∙ handle-settle policy rs refs
        ∙ settle-ensure_one_default policy calls live default
        ∙ e in
      let (last, all) =
        reconcile-one_default cluster initial policy made reads found live default ended in
      (made, ended, last, all)
