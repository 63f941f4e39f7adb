-- ===== src/Watcher.antt =====
-- The policy watcher, pkg/controller/policy_controller.go: `Reconcile` with its helpers. The API
-- server's answers may depend on the writes before; requeueing is a write that cannot fail.
pub mod Unmarking
pub mod Finalizing
use ottoscalr.Prelude.{
  String, str_eq, Bool, true, false, List, [], ◌∷◌, ◌++◌, if◌then◌else◌, not, ◌||◌,
}
use ottoscalr.Result.{Result, ok, err, panic, is_not_found}
use ottoscalr.Api.{Policy, PolicyRecommendation, is_zero}
use ottoscalr.Calls.{Run, give, ◌>>=◌, perform}
use ottoscalr.Trigger.Handler.{NamespacedName}

pub data Call : Type 0 where
  update : Policy → Call
  requeue_one : NamespacedName → Call
  requeue_all : Call

pub record Cluster : Type 0 where
  pub get : Result Policy  -- of the request's name
  -- The recommendations under a key of the index `policyRefKey`.
  pub list_referencing : List Call → String → Result (List PolicyRecommendation)
  pub list_policies : List Call → Result (List Policy)
  pub answer : List Call → Call → Result {0} Unit

unfoldable pub contains_string : List String → String → Bool
contains_string [] str = false
contains_string (s ∷ rest) str = str_eq s str || contains_string rest str

unfoldable pub remove_string : List String → String → List String
remove_string [] str = []
remove_string (s ∷ rest) str =
    let others = remove_string rest str in if str_eq s str then others else s ∷ others

abbrev pub policy_finalizer_name : String
policy_finalizer_name = "finalizer.ottoscaler.io"

-- The keys of a recommendation in the index `policyRefKey`.
unfoldable pub policy_ref_keys : PolicyRecommendation → List String
policy_ref_keys r = if str_eq r.spec.policy "" then [] else r.spec.policy ∷ []

abbrev pub named : PolicyRecommendation → NamespacedName
named r = record { namespace = r.namespace; name = r.name }

abbrev pub finalized : Policy → Policy
finalized policy = record policy { finalizers = policy.finalizers ++ policy_finalizer_name ∷ [] }

abbrev pub released : Policy → Policy
released policy = record policy {
  finalizers = remove_string policy.finalizers policy_finalizer_name;
}

abbrev pub unmarked : Policy → Policy
unmarked policy = record policy { is_default = false }

-- A call that cannot fail.
abbrev pub tell : Call → Run Call Unit
tell c = perform (λ calls d. ok tt) c

module _ (cluster : Cluster) where
  abbrev pub write : Policy → Run Call Unit
  write policy = perform cluster.answer (update policy)

  unfoldable pub add_finalizer : Policy → Run Call Policy
  unfolding contains_string
  add_finalizer policy =
      if contains_string policy.finalizers policy_finalizer_name
      then give (ok policy)
      else (write (finalized policy) >>= λ _. give (ok (finalized policy)))

  unfoldable pub requeue_each : List PolicyRecommendation → Run Call Unit
  requeue_each [] = give (ok tt)
  requeue_each (r ∷ rest) = tell (requeue_one (named r)) >>= λ _. requeue_each rest

  unfoldable pub handle_reconcilation : Policy → Run Call Unit
  unfolding requeue_each
  handle_reconcilation policy calls =
      (give (cluster.list_referencing calls policy.name) >>= requeue_each) calls

  -- The loop over all policies in `Reconcile`.
  unfoldable pub unmark_others : String → List Policy → Run Call Unit
  unmark_others name [] = give (ok tt)
  unmark_others name (other ∷ rest) =
      let later = unmark_others name rest in
      if str_eq other.name name
      then later
      else if other.is_default
      then (write (unmarked other) >>= λ _. later)
      else later

  unfoldable pub ensure_one_default : Policy → Run Call Unit
  unfolding unmark_others
  ensure_one_default policy calls =
      (give (cluster.list_policies calls) >>= λ policies.
      unmark_others policy.name policies >>= λ _. tell requeue_all)
        calls

  -- `Reconcile` behind `handleReconcilation`.
  unfoldable pub settle : Policy → Run Call Unit
  unfolding remove_string ensure_one_default
  settle policy =
      if is_zero policy.deletion_timestamp
      then (if policy.is_default then ensure_one_default policy else give (ok tt))
      else write (released policy)

  unfoldable pub handle : Result Policy → Run Call Unit
  unfolding add_finalizer handle_reconcilation settle
  handle (ok found) =
      add_finalizer found >>= λ policy. handle_reconcilation policy >>= λ _. settle policy
  handle (err e) = give (if is_not_found e then ok tt else err e)
  handle panic = give panic

  unfoldable pub reconcile : Run Call Unit
  unfolding handle
  reconcile = handle cluster.get
