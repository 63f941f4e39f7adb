-- ===== src/Registrar/Filtering.antt =====
-- The filter on the namespaces of the registrar and of the enforcement controller.
use ottoscalr.Prelude.{String, Bool, false, Option, none, some, List, [], ◌∷◌, ◌≡◌, refl, sym}
use ottoscalr.Enforcer.{Settings, passes_filters, is_whitelisted_namespace}
use ottoscalr.Registrar

-- The values of a flag that is a list of namespaces; one that is not set is an empty list.
abbrev pub flag : Option (List String) → List String
flag none = []
flag (some l) = l

same_filters :
    (included excluded : Option (List String)) (namespace : String)
    → passes_filters included excluded namespace
      ≡ Registrar.is_whitelisted_namespace (flag included) (flag excluded) namespace
unfolding passes_filters Registrar.is_whitelisted_namespace
same_filters none none namespace = refl
same_filters none (some []) namespace = refl
same_filters none (some (n ∷ rest)) namespace = refl
same_filters (some []) none namespace = refl
same_filters (some []) (some []) namespace = refl
same_filters (some []) (some (n ∷ rest)) namespace = refl
same_filters (some (m ∷ l)) excluded namespace = refl

-- For the same lists of namespaces the registrar's watch on the workloads queues the creation of a
-- workload exactly when the enforcement controller's filter passes its namespace, and no update or
-- deletion of it; the watch on the recommendations queues their deletions alone, in the same way.
pub passes-is_whitelisted_namespace :
    (settings : Settings) (namespace : String)
    → let queued : (Registrar.Event → Bool) → Registrar.Event → Bool = λ predicate event.
      Registrar.passes predicate
        (flag settings.included_namespaces)
        (flag settings.excluded_namespaces)
        event
        namespace in
      (queued Registrar.create_predicate Registrar.created
        ≡ is_whitelisted_namespace settings namespace)
      × (queued Registrar.create_predicate Registrar.updated ≡ false)
      × (queued Registrar.create_predicate Registrar.deleted ≡ false)
      × (queued Registrar.delete_predicate Registrar.deleted
          ≡ is_whitelisted_namespace settings namespace)
      × (queued Registrar.delete_predicate Registrar.created ≡ false)
      × (queued Registrar.delete_predicate Registrar.updated ≡ false)
unfolding Registrar.passes Registrar.create_predicate Registrar.delete_predicate
    is_whitelisted_namespace
passes-is_whitelisted_namespace settings namespace =
    let same =
      sym (same_filters settings.included_namespaces settings.excluded_namespaces namespace) in
    (same, refl, refl, same, refl, refl)
