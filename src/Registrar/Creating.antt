-- ===== src/Registrar/Creating.antt =====
-- What a run of the registrar may write.
use ottoscalr.Prelude.{pos, String, true, none, List, [], ◌∷◌, ◌≡◌, refl, All, Option, some}
use ottoscalr.Result.{Result, ok, err, panic, Err, is_not_found, >>=-eq-ok}
use ottoscalr.Api.{Policy, PolicyRecommendation, HpaConfiguration, condition_true}
use ottoscalr.Calls.{
  ◌>>=◌, Run, give, Keeps, Keeps-perform, Keeps->>=, Keeps-read, Keeps-unless_failed, Keeps-if,
  perform, unless_failed,
}
use ottoscalr.Store.{PolicyClient, get_safest_policy}
use ottoscalr.Store.Sorting.{Sorts}
use ottoscalr.Store.Safest.{IsSafest, get_safest_policy-IsSafest}
use ottoscalr.Enforcer.{Workload}
use ottoscalr.Conditions.{
  StatusPatch, create_policy_patch, set_conditions, other_conditions,
  new_policy_recommendation_condition,
}
use ottoscalr.Registrar.{
  Call, delete_gauge, set_gauge, create, patch_status, register_monitor, Cluster,
  new_policy_recommendation, initialized, registrar_name, create_with, create_unless_exists,
  create_policy_recommendation, handle_reconcile, handle_object, try_clients, reconcile, tell,
}

module _ (sort_slice : List Policy → List Policy) (policies : PolicyClient)
    (cluster : Cluster) where
  abbrev nothing : HpaConfiguration
  nothing = record { min = pos 0; max = pos 0; target_metric_value = pos 0 }

  -- Queued at the time of its creation, which is its transition too, and never generated.
  abbrev pub fresh : Workload → (policy : String) → PolicyRecommendation
  fresh w policy = record {
    name = w.name;
    namespace = w.namespace;
    spec = record {
      workload_kind = w.kind;
      workload_name = w.name;
      target_hpa_configuration = nothing;
      current_hpa_configuration = nothing;
      policy = policy;
      generated_at = none;
      transitioned_at = some (cluster.now 0);
      queued_for_execution = some true;
      queued_for_execution_at = some (cluster.now 0);
    };
    conditions = [];
  }

  -- The one condition Initialized, on the recommendation of the workload.
  abbrev pub marked_initialized : Workload → StatusPatch
  marked_initialized w = record {
    name = w.name;
    namespace = w.namespace;
    conditions =
        record {
          type = "Initialized";
          status = condition_true;
          observed_generation = 0;
          last_transition_time = cluster.now 1;
          reason = "PolicyRecommendationCreated";
          message = "PolicyRecommendation has been created";
        }
        ∷ [];
  }

  -- The recommendation is new, and made from the safest of the policies.
  pub record IsNew (w : Workload) (r : PolicyRecommendation) : Type 0 where
    pub error : Err
    pub absent : cluster.get_policy_recommendation w.namespace w.name ≡ err error
    pub is_absent : is_not_found error ≡ true
    pub items : List Policy
    pub listed : policies.list ≡ ok items
    pub safest : Policy
    pub is_safest : IsSafest safest items
    pub made : r ≡ fresh w safest.name

  -- What justifies a write of the run for a request.
  abbrev pub Justified : (namespace name : String) → Call → Type 0
  Justified namespace name (delete_gauge ns n) = (ns ≡ namespace) × (n ≡ name)
  Justified namespace name (set_gauge ns n kind m) =
      (k : String) × (w : Workload) × (cluster.get_object k namespace name ≡ ok w)
      × (ns ≡ w.namespace)
      × (n ≡ w.name)
      × (kind ≡ w.kind)
      × (m ≡ w.name)
  Justified namespace name (create w r) =
      (kind : String) × (cluster.get_object kind namespace name ≡ ok w) × IsNew w r
  Justified namespace name (patch_status owner patch) =
      (owner ≡ "PolicyRecommendationRegistrar")
      × ((w : Workload) × (r : PolicyRecommendation) × IsNew w r × (patch ≡ marked_initialized w))
  Justified namespace name (register_monitor kind ns n) =
      (k : String) × (w : Workload) × (cluster.get_object k namespace name ≡ ok w)
      × (kind ≡ w.kind)
      × (ns ≡ w.namespace)
      × (n ≡ w.name)

  module _ (laws : Sorts sort_slice) (namespace name : String) where
    chosen-IsNew :
        (w : Workload) (e : Err) (p : Policy)
        → cluster.get_policy_recommendation w.namespace w.name ≡ err e
        → is_not_found e ≡ true
        → get_safest_policy sort_slice policies ≡ ok p
        → IsNew w (new_policy_recommendation w p (cluster.now 0))
    unfolding get_safest_policy new_policy_recommendation
    chosen-IsNew w e p absent n chosen =
        let (items, listed, first) = >>=-eq-ok policies.list _ chosen in
        record {
          error = e;
          absent = absent;
          is_absent = n;
          items = items;
          listed = listed;
          safest = p;
          is_safest = get_safest_policy-IsSafest sort_slice laws policies listed chosen;
          made = refl;
        }

    create_with-Justified :
        (kind : String) (w : Workload) (p : Policy)
        → cluster.get_object kind namespace name ≡ ok w
        → IsNew w (new_policy_recommendation w p (cluster.now 0))
        → Keeps (Justified namespace name) (create_with sort_slice policies cluster w p)
    unfolding create_with create_policy_patch set_conditions other_conditions
        new_policy_recommendation_condition new_policy_recommendation
    create_with-Justified kind w p found new =
        let P = Justified namespace name in
        let r = new_policy_recommendation w p (cluster.now 0) in
        let gauge = set_gauge w.namespace w.name w.kind w.name in
        let patch = patch_status registrar_name (initialized sort_slice policies cluster r) in
        let owned : Run Call Unit = give (cluster.set_controller_reference w r) in
        let made : Run Call Unit = perform cluster.answer (create w r) in
        let patched : Run Call (Option PolicyRecommendation) =
          unless_failed none (perform cluster.answer patch) (give (ok (some r))) in
        Keeps->>= P (tell gauge) (λ _. owned >>= λ _. made >>= λ _. patched)
          (λ calls all. ((kind, w, found, refl, refl, refl, refl), all))
          λ _.
            Keeps->>= P owned (λ _. made >>= λ _. patched) (λ calls all. all)
              λ _.
                Keeps->>= P made (λ _. patched)
                  (Keeps-perform P cluster.answer (create w r) (kind, found, new))
                  λ _.
                    Keeps-unless_failed P none (perform cluster.answer patch) (give (ok (some r)))
                      (Keeps-perform P cluster.answer patch (refl, (w, r, new, refl)))
                      (λ calls all. all)

    create_unless_exists-Justified :
        (kind : String) (w : Workload) (r : Result PolicyRecommendation)
        → cluster.get_object kind namespace name ≡ ok w
        → cluster.get_policy_recommendation w.namespace w.name ≡ r
        → Keeps (Justified namespace name) (create_unless_exists sort_slice policies cluster w r)
    unfolding create_unless_exists
    create_unless_exists-Justified kind w (ok r) found read = λ calls all. all
    create_unless_exists-Justified kind w panic found read = λ calls all. all
    create_unless_exists-Justified kind w (err e) found read =
        let P = Justified namespace name in
        Keeps-if P (is_not_found e) _ _
          (λ n.
            Keeps-read P (get_safest_policy sort_slice policies) _
              (λ p chosen. create_with-Justified kind w p found (chosen-IsNew w e p read n chosen)))
          (λ n calls all. all)

    handle_reconcile-Justified :
        (kind : String) (w : Workload)
        → cluster.get_object kind namespace name ≡ ok w
        → Keeps (Justified namespace name) (handle_reconcile sort_slice policies cluster w)
    unfolding handle_reconcile create_policy_recommendation
    handle_reconcile-Justified kind w found =
        let P = Justified namespace name in
        Keeps->>= P (create_policy_recommendation sort_slice policies cluster w)
          (λ _. tell (register_monitor w.kind w.namespace w.name))
          (create_unless_exists-Justified kind w
            (cluster.get_policy_recommendation w.namespace w.name) found refl)
          λ _ calls all. ((kind, w, found, refl, refl, refl), all)

    handle_object-Justified :
        (kind : String) (r : Result Workload) (rest : Run Call Unit)
        → cluster.get_object kind namespace name ≡ r
        → Keeps (Justified namespace name) rest
        → Keeps
            (Justified namespace name)
            (handle_object sort_slice policies cluster namespace name r rest)
    unfolding handle_object
    handle_object-Justified kind (ok w) rest found keeps = handle_reconcile-Justified kind w found
    handle_object-Justified kind panic rest found keeps = λ calls all. all
    handle_object-Justified kind (err e) rest found keeps =
        let P = Justified namespace name in
        Keeps-if P (is_not_found e) _ _
          (λ n.
            Keeps->>= P (tell (delete_gauge namespace name)) (λ _. rest)
              (λ calls all. ((refl, refl), all)) (λ _. keeps))
          (λ n calls all. all)

    try_clients-Justified :
        (kinds : List String)
        → Keeps
            (Justified namespace name)
            (try_clients sort_slice policies cluster kinds namespace name)
    unfolding try_clients
    try_clients-Justified [] = λ calls all. all
    try_clients-Justified (kind ∷ rest) =
        handle_object-Justified kind _ _ refl (try_clients-Justified rest)

    -- Every write of a run for a request is justified: a recommendation is created only for a
    -- workload that a client finds under the requested name, only when the read of its
    -- recommendation answers not found, and with the name of a policy that is listed and than
    -- which no listed policy has a smaller risk index; it is queued at the time of its creation,
    -- without a time of generation. A status is patched only with the one condition Initialized, on
    -- such a recommendation; a monitor is registered and a gauge is set only for a workload that is
    -- found, and a gauge is deleted only for the request.
    pub reconcile-Justified :
        All (Justified namespace name) (reconcile sort_slice policies cluster namespace name []).1
    unfolding reconcile
    reconcile-Justified = try_clients-Justified cluster.kinds [] tt
