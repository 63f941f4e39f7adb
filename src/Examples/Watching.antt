-- ===== src/Examples/Watching.antt =====
-- The policy watcher on a default policy that replaces another one, and on a deleted policy.
use ottoscalr.Prelude.{true, false, some, List, [], ◌∷◌, ◌≡◌, ◌⊎◌, refl, All}
use ottoscalr.Result.{ok}
use ottoscalr.Api.{Policy}
use ottoscalr.Watcher
use ottoscalr.Watcher.Unmarking.{stored}
use ottoscalr.Watcher.Finalizing.{reconcile-releases, reconcile-ends-one_default}
use ottoscalr.Examples.{safe_policy, middle_policy, risky_policy, recommendation}

abbrev new_default : Policy
new_default = record middle_policy { is_default = true }

abbrev old_default : Policy
old_default = record risky_policy { is_default = true }

abbrev initial : List Policy
initial = new_default ∷ old_default ∷ safe_policy ∷ []

abbrev cluster : Policy → Watcher.Cluster
cluster policy = record {
  get = ok policy;
  list_referencing = λ calls name. ok (recommendation ∷ []);
  list_policies = λ calls. ok (stored initial calls);
  answer = λ calls c. ok tt;
}

reconcile-ends-one_default_example :
    (made : List Watcher.Call) × (Watcher.reconcile (cluster new_default) [] ≡ (ok tt, made))
    × ((earlier : List Watcher.Call) × (made ≡ Watcher.requeue_all ∷ earlier))
    × All (λ q. (q.is_default ≡ false) ⊎ (q.name ≡ "middle")) (stored initial made)
reconcile-ends-one_default_example =
    reconcile-ends-one_default (cluster new_default) (λ calls c. refl) new_default
      (recommendation ∷ []) initial refl refl refl (λ calls. refl) (λ calls. refl)

abbrev deleted : Policy
deleted = record middle_policy {
  deletion_timestamp = some 90;
  finalizers = "finalizer.ottoscaler.io" ∷ "other" ∷ [];
}

reconcile-releases_example :
    (Watcher.reconcile (cluster deleted) [] ≡ (
      ok tt,
      Watcher.update (Watcher.released deleted)
          ∷ Watcher.requeue_one (Watcher.named recommendation)
          ∷ [],
    ))
    × (Watcher.contains_string (Watcher.released deleted).finalizers "finalizer.ottoscaler.io"
        ≡ false)
unfolding Watcher.contains_string
reconcile-releases_example =
    reconcile-releases (cluster deleted) (λ calls c. refl) deleted (recommendation ∷ []) refl refl
      (λ calls. refl)
