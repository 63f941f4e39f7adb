-- ===== src/Registrar/Registering.antt =====
-- The whole run of the registrar on a workload, together with the monitor manager and the
-- predicates of the controllers that read what it creates.
use ottoscalr.Prelude.{
  ℕ, String, eq_iff, true, Option, some, List, [], ◌∷◌, ◌++◌, ◌≡◌, ◌≢◌, refl, All, arith, ap, ◌∙◌,
  ◌<>◌, inl, inr, Option-cases, sym, subst, ◌⊎◌,
}
use ottoscalr.Result.{Result, ok, err, panic, Err, is_not_found}
use ottoscalr.Api.{Policy, PolicyRecommendation}
use ottoscalr.Calls.{Run, resume}
use ottoscalr.Conditions.{is_initialized, create_policy_patch, StatusPatch}
use ottoscalr.Reconciler.{is_queued_at_creation}
use ottoscalr.Store.{PolicyClient, get_safest_policy}
use ottoscalr.Trigger.Manager
use ottoscalr.Trigger.Manager.{Manager, find_monitor}
use ottoscalr.Enforcer.{Workload}
use ottoscalr.Registrar.{
  Call, delete_gauge, set_gauge, create, patch_status, register_monitor, Cluster, monitors_after,
  new_policy_recommendation, initialized, registrar_name, create_with, create_unless_exists,
  create_policy_recommendation, handle_reconcile, handle_object, try_clients, reconcile, tell,
}

-- One gauge is deleted for each client that does not know the workload.
abbrev pub deleted_gauges : (namespace name : String) → List String → List Call → List Call
deleted_gauges namespace name [] calls = calls
deleted_gauges namespace name (kind ∷ rest) calls =
    deleted_gauges namespace name rest (delete_gauge namespace name ∷ calls)

gauges-monitors_after :
    (namespace name : String) (l : List String) (calls : List Call) (s : Manager)
    → monitors_after (deleted_gauges namespace name l calls) s ≡ monitors_after calls s
unfolding monitors_after
gauges-monitors_after namespace name [] calls s = refl
gauges-monitors_after namespace name (kind ∷ rest) calls s =
    gauges-monitors_after namespace name rest (delete_gauge namespace name ∷ calls) s

registered-find_monitor :
    (w : String) (s : Manager)
    → find_monitor w (Manager.register_monitor w s).1.monitors
      ≡ some (Manager.register_monitor w s).0
unfolding Manager.register_monitor find_monitor
registered-find_monitor w s = elim (Option-cases (find_monitor w s.monitors)) [
  | inl e ↦ rw (e, Manager.register_monitor) (ground (arith, eq_iff w w))
  | inr (m, e) ↦ rw (e, Manager.register_monitor) e
]

-- What a run says of the monitors: it ends without an error and there is one for the workload, or
-- it fails and they stay as they are.
abbrev pub Monitored :
    (namespace name : String)
    → Result {0} Unit × List Call
    → (calls : List Call) (s : Manager) → Type 0
Monitored namespace name (r, made) calls s =
    ((r ≡ ok tt)
      × ((m : ℕ) × (find_monitor (namespace <> "/" <> name) (monitors_after made s).monitors
            ≡ some m)))
    ⊎ ((r ≢ ok tt) × (monitors_after made s ≡ monitors_after calls s))

resume-Monitored :
    (kind namespace name : String) (r : Result (Option PolicyRecommendation))
    (made calls : List Call) (s : Manager)
    → monitors_after made s ≡ monitors_after calls s
    → Monitored namespace name
        (resume (r, made) (λ _. tell (register_monitor kind namespace name)))
        calls
        s
unfolding monitors_after
resume-Monitored kind namespace name (ok o) made calls s e =
    inl (refl, (_, registered-find_monitor (namespace <> "/" <> name) (monitors_after made s)))
resume-Monitored kind namespace name (err x) made calls s e = inr (λ h. cc, e)
resume-Monitored kind namespace name panic made calls s e = inr (λ h. cc, e)

module _ (sort_slice : List Policy → List Policy) (policies : PolicyClient)
    (cluster : Cluster) where
  abbrev pub Unknown : (namespace name : String) → String → Type 0
  Unknown namespace name kind =
      (e : Err) × (cluster.get_object kind namespace name ≡ err e) × (is_not_found e ≡ true)

  module _ (namespace name : String) where
    skip :
        (kind : String) (rest : Run Call Unit) (calls : List Call) (e : Err)
        → cluster.get_object kind namespace name ≡ err e
        → is_not_found e ≡ true
        → handle_object sort_slice policies cluster namespace name
            (cluster.get_object kind namespace name)
            rest
            calls
          ≡ rest (delete_gauge namespace name ∷ calls)
    unfolding handle_object
    skip kind rest calls e absent n = rw (absent, handle_object, n) refl

    try_clients-handle :
        (before after : List String) (kind : String) (w : Workload) (calls : List Call)
        → All (Unknown namespace name) before
        → cluster.get_object kind namespace name ≡ ok w
        → try_clients sort_slice policies cluster (before ++ kind ∷ after) namespace name calls
          ≡ handle_reconcile sort_slice policies cluster w
              (deleted_gauges namespace name before calls)
    unfolding try_clients
    try_clients-handle [] after kind w calls unknown found = rw (found, handle_object) refl
    try_clients-handle (k ∷ before) after kind w calls ((e, absent, n), unknown) found =
        skip k (try_clients sort_slice policies cluster (before ++ kind ∷ after) namespace name)
          calls e absent n
        ∙ try_clients-handle before after kind w (delete_gauge namespace name ∷ calls) unknown found

    -- Where a client has the workload and those before it answer not found, no recommendation of it
    -- exists, the store gives its safest policy and every write succeeds, a run ends without an
    -- error. Its writes are, in this order: a gauge is deleted for each client before, the gauge of
    -- the workload is set, the recommendation is created and marked as initialized, and the monitor
    -- is registered. The recommendation controller is to queue what is created, and the
    -- enforcement controller reads the patched status as initialized.
    pub reconcile-registers :
        (before after : List String) (kind : String) (w : Workload) (e : Err) (p : Policy)
        → cluster.kinds ≡ before ++ kind ∷ after
        → All (Unknown namespace name) before
        → cluster.get_object kind namespace name ≡ ok w
        → cluster.get_policy_recommendation w.namespace w.name ≡ err e
        → is_not_found e ≡ true
        → get_safest_policy sort_slice policies ≡ ok p
        → ((r : PolicyRecommendation) → cluster.set_controller_reference w r ≡ ok tt)
        → ((made : List Call) (c : Call) → cluster.answer made c ≡ ok tt)
        → let r : PolicyRecommendation = new_policy_recommendation w p (cluster.now 0) in
          let patch : StatusPatch = initialized sort_slice policies cluster r in
          (reconcile sort_slice policies cluster namespace name [] ≡ (
            ok tt,
            register_monitor w.kind w.namespace w.name
                ∷ patch_status registrar_name patch
                ∷ create w r
                ∷ set_gauge w.namespace w.name w.kind w.name
                ∷ deleted_gauges namespace name before [],
          ))
          × (is_queued_at_creation r ≡ ok true)
          × (is_initialized patch.conditions ≡ true)
    unfolding reconcile handle_reconcile create_policy_recommendation create_unless_exists
        create_with is_queued_at_creation is_initialized create_policy_patch
        new_policy_recommendation
    reconcile-registers before after kind w e p kinds unknown found absent n safest refers works = (
      ap (λ l. try_clients sort_slice policies cluster l namespace name []) kinds
          ∙ try_clients-handle before after kind w [] unknown found
          ∙ rw (absent, n, safest, refers, works, works) refl,
      refl,
      refl,
    )

    create-monitors_after :
        (w : Workload) (calls : List Call) (s : Manager)
        → monitors_after (create_policy_recommendation sort_slice policies cluster w calls).1 s
          ≡ monitors_after calls s
    unfolding create_policy_recommendation create_unless_exists create_with monitors_after
    create-monitors_after w calls s = ground arith

    -- Whatever the API server answers, a run that reaches a workload, behind clients that answer not
    -- found, leaves a monitor for it in the manager if it ends without an error, and changes no
    -- monitor if it fails or panics.
    pub reconcile-Monitored :
        (before after : List String) (kind : String) (w : Workload) (s : Manager)
        → cluster.kinds ≡ before ++ kind ∷ after
        → All (Unknown namespace name) before
        → cluster.get_object kind namespace name ≡ ok w
        → Monitored w.namespace w.name
            (reconcile sort_slice policies cluster namespace name [])
            []
            s
    unfolding reconcile handle_reconcile
    reconcile-Monitored before after kind w s kinds unknown found =
        let made = deleted_gauges namespace name before [] in
        let created = create_policy_recommendation sort_slice policies cluster w made in
        subst (λ run. Monitored w.namespace w.name run [] s)
          (sym (
            ap (λ l. try_clients sort_slice policies cluster l namespace name []) kinds
            ∙ try_clients-handle before after kind w [] unknown found))
          (resume-Monitored w.kind w.namespace w.name created.0 created.1 [] s
            (create-monitors_after w made s ∙ gauges-monitors_after namespace name before [] s))
