-- ===== src/Enforcer/Safe.antt =====
-- Every write of the HPA enforcement controller's `Reconcile` is guarded.
use mathlib.Core.List.{mem-cons}
use mathlib.Core.Logic.Or
use ottoscalr.Prelude.{
  ℤ, pos, wrap, true, false, Option, none, some, List, [], ◌∷◌, ◌≡◌, ◌≢◌, ◌⊎◌, refl, inl, inr,
  arith, All, Mem, String, eq_iff, ◌==ℤ◌, ap, ◌∙◌, not, ◌||◌, subst,
}
use ottoscalr.Result.{Result, ok, err, panic}
use ottoscalr.Api.{Time, PolicyRecommendation, condition_true, condition_false}
use ottoscalr.Conditions.{is_initialized, is_reco_generated, create_policy_patch}
use ottoscalr.Calls.{
  give, Keeps, Keeps-give, Keeps-read, Keeps-perform, Keeps->>=, Keeps-unless_failed, perform,
  Keeps-if,
}
use ottoscalr.Enforcer.{
  Settings, Cluster, Workload, Call, create_or_update_autoscaler, delete_autoscaler, scale,
  patch_status, created_by_controller, not_created_by_controller, get_object_client,
  is_enforcement_enabled, is_invalid_config, listed, delete_each, rescale,
  delete_controller_managed_autoscaler, report, delete_and_report, create_or_update,
  enforce_unless_exists, enforce, reconcile, handle,
}

nonzero : (m : ℤ) → (m ==ℤ pos 0) ≡ false → m ≢ pos 0
nonzero m e = ground arith

get_object_client-kind :
    (kinds : List String) (k found : String) → get_object_client kinds k ≡ ok found → found ≡ k
unfolding get_object_client
get_object_client-kind [] k found e = absurd (cc)
get_object_client-kind (l ∷ rest) k found e =
    ground (arith, get_object_client-kind rest k found, eq_iff l k)

module _ {S : Type 0} (settings : Settings) (cluster : Cluster S) where
  -- The write that enforces a recommendation.
  abbrev pub enforced : PolicyRecommendation → Workload → Call S
  enforced policyreco workload =
      create_or_update_autoscaler workload (wrap 32 policyreco.spec.current_hpa_configuration.max)
        (wrap 32 policyreco.spec.current_hpa_configuration.min)
        (wrap 32 policyreco.spec.current_hpa_configuration.target_metric_value)

  -- What a recommendation and its workload are when a run acts on the workload: the recommendation
  -- is initialized and generated, and there is no autoscaler of another owner.
  pub record Ready (policyreco : PolicyRecommendation) (workload : Workload) : Type 0 where
    pub fetched : cluster.get_policy_recommendation ≡ ok policyreco
    pub initialized : is_initialized policyreco.conditions ≡ true
    pub generated : is_reco_generated policyreco.conditions ≡ true
    pub found :
        cluster.get_object policyreco.spec.workload_kind policyreco.namespace
          policyreco.spec.workload_name
        ≡ ok workload
    pub alone : listed settings cluster not_created_by_controller workload ≡ ok []

  -- The configuration is enforced.
  abbrev pub Enforceable : PolicyRecommendation → Workload → Type 0
  Enforceable policyreco workload =
      (is_invalid_config settings.min_required_replicas policyreco.spec.current_hpa_configuration
        ≡ false)
      × (is_enforcement_enabled settings.whitelist_mode workload ≡ true)

  abbrev pub Refused : PolicyRecommendation → Workload → Type 0
  Refused policyreco workload =
      (is_invalid_config settings.min_required_replicas policyreco.spec.current_hpa_configuration
        ≡ true)
      ⊎ (is_enforcement_enabled settings.whitelist_mode workload ≡ false)

  -- When each write is made.
  abbrev pub Guarded : Call S → Type 0
  Guarded (create_or_update_autoscaler workload max min target_cpu) =
      (policyreco : PolicyRecommendation) × Ready policyreco workload
      × Enforceable policyreco workload
      × (settings.is_dry_run ≡ false)
      × (max ≡ wrap 32 policyreco.spec.current_hpa_configuration.max)
      × (min ≡ wrap 32 policyreco.spec.current_hpa_configuration.min)
      × (target_cpu ≡ wrap 32 policyreco.spec.current_hpa_configuration.target_metric_value)
  Guarded (delete_autoscaler o) =
      (policyreco : PolicyRecommendation) × (workload : Workload) × (objects : List S) × Ready
        policyreco workload
      × Refused policyreco workload
      × (listed settings cluster created_by_controller workload ≡ ok objects)
      × Mem o objects
  Guarded (scale kind namespace name max_pods) =
      (policyreco : PolicyRecommendation) × (workload : Workload) × Ready policyreco workload
      × Refused policyreco workload
      × (max_pods ≢ pos 0)
      × (namespace ≡ workload.namespace)
      × (name ≡ workload.name)
  Guarded (patch_status p) =
      (policyreco : PolicyRecommendation) × (cluster.get_policy_recommendation ≡ ok policyreco)
      × (p.name ≡ policyreco.name)
      × (p.namespace ≡ policyreco.namespace)

  report-Guarded :
      (now : Time) (policyreco : PolicyRecommendation) (status : _) (reason message : _)
      → cluster.get_policy_recommendation ≡ ok policyreco
      → Keeps Guarded (report settings cluster now policyreco status reason message)
  unfolding report create_policy_patch
  report-Guarded now policyreco status reason message e =
      let patch = create_policy_patch now policyreco [] "HPAEnforced" status reason message in
      Keeps-unless_failed Guarded tt (perform cluster.answer (patch_status patch)) (give (ok tt))
        (Keeps-perform Guarded cluster.answer (patch_status patch) (policyreco, e, refl, refl))
        (Keeps-give Guarded (ok tt))

  delete_each-Guarded :
      (policyreco : PolicyRecommendation) (workload : Workload) (all objects : List S)
      (max_pods : ℤ)
      → Ready policyreco workload
      → Refused policyreco workload
      → listed settings cluster created_by_controller workload ≡ ok all
      → ((o : S) → Mem o objects → Mem o all)
      → Keeps Guarded (delete_each settings cluster max_pods objects)
  unfolding delete_each
  delete_each-Guarded policyreco workload all [] max_pods ready refused e within =
      Keeps-give Guarded (ok (some max_pods))
  delete_each-Guarded policyreco workload all (o ∷ rest) max_pods ready refused e within =
      Keeps-unless_failed Guarded none (perform cluster.answer (delete_autoscaler o))
        (delete_each settings cluster (cluster.get_max_replica_count o) rest)
        (Keeps-perform Guarded cluster.answer (delete_autoscaler o)
          (policyreco, workload, all, ready, refused, e, within o (mem-cons.1 (Or.inl refl))))
        (delete_each-Guarded policyreco workload all rest (cluster.get_max_replica_count o) ready
          refused e (λ p m. within p (mem-cons.1 (Or.inr m))))

  rescale-Guarded :
      (policyreco : PolicyRecommendation) (workload : Workload) (max_pods : Option ℤ)
      → Ready policyreco workload
      → Refused policyreco workload
      → Keeps Guarded (rescale settings cluster workload max_pods)
  unfolding rescale
  rescale-Guarded policyreco workload none ready refused = Keeps-give Guarded (ok tt)
  rescale-Guarded policyreco workload (some max_pods) ready refused =
      Keeps-if Guarded (max_pods ==ℤ pos 0) (give (ok tt)) _ (λ z. Keeps-give Guarded (ok tt))
        (λ z. Keeps-read Guarded (get_object_client settings.kinds workload.kind) _ (λ kind e.
          Keeps-perform Guarded cluster.answer
            (scale kind workload.namespace workload.name max_pods)
            (policyreco, workload, ready, refused, nonzero max_pods z, refl, refl)))

  delete_and_report-Guarded :
      (now : Time) (policyreco : PolicyRecommendation) (workload : Workload)
      (reason message : String)
      → Ready policyreco workload
      → Refused policyreco workload
      → Keeps Guarded (delete_and_report settings cluster now policyreco workload reason message)
  unfolding delete_and_report delete_controller_managed_autoscaler
  delete_and_report-Guarded now policyreco workload reason message ready refused =
      Keeps->>= Guarded (delete_controller_managed_autoscaler settings cluster workload) _
        (Keeps-read Guarded (listed settings cluster created_by_controller workload) _ (λ objects e.
          Keeps->>= Guarded (delete_each settings cluster (pos 0) objects) _
            (delete_each-Guarded policyreco workload objects objects (pos 0) ready refused e
              (λ o m. m))
            (λ max_pods. rescale-Guarded policyreco workload max_pods ready refused)))
        (λ _. report-Guarded now policyreco condition_false reason message ready.fetched)

  create_or_update-Guarded :
      (now : Time) (policyreco : PolicyRecommendation) (workload : Workload)
      → Ready policyreco workload
      → Enforceable policyreco workload
      → Keeps Guarded (create_or_update settings cluster now policyreco workload)
  unfolding create_or_update
  create_or_update-Guarded now policyreco workload ready enforceable =
      Keeps-if Guarded settings.is_dry_run (give (ok tt)) _ (λ d. Keeps-give Guarded (ok tt))
        (λ d.
          Keeps->>= Guarded (perform cluster.answer (enforced policyreco workload)) _
            (Keeps-perform Guarded cluster.answer (enforced policyreco workload)
              (policyreco, ready, enforceable, d, refl, refl, refl))
            (λ _. report-Guarded now policyreco condition_true _ _ ready.fetched))

  enforce_unless_exists-Guarded :
      (now : Time) (policyreco : PolicyRecommendation) (workload : Workload) (others : List S)
      → (others ≡ [] → Ready policyreco workload)
      → cluster.get_policy_recommendation ≡ ok policyreco
      → Keeps Guarded (enforce_unless_exists settings cluster now policyreco workload others)
  unfolding enforce_unless_exists
  enforce_unless_exists-Guarded now policyreco workload (o ∷ rest) ready e =
      report-Guarded now policyreco condition_false _ _ e
  enforce_unless_exists-Guarded now policyreco workload [] ready e =
      Keeps-if Guarded
        (is_invalid_config settings.min_required_replicas policyreco.spec.current_hpa_configuration)
        _ _ (λ i. delete_and_report-Guarded now policyreco workload _ _ (ready refl) (inl i))
        (λ i.
          Keeps-if Guarded (is_enforcement_enabled settings.whitelist_mode workload) _ _
            (λ w. create_or_update-Guarded now policyreco workload (ready refl) (i, w))
            (λ w. delete_and_report-Guarded now policyreco workload _ _ (ready refl) (inr w)))

  enforce-Guarded :
      (now : Time) (policyreco : PolicyRecommendation)
      → cluster.get_policy_recommendation ≡ ok policyreco
      → Keeps Guarded (enforce settings cluster now policyreco)
  unfolding enforce
  enforce-Guarded now policyreco e =
      Keeps-if Guarded
        (not (is_initialized policyreco.conditions)
          || not (is_reco_generated policyreco.conditions))
        (give (ok tt)) _ (λ n. Keeps-give Guarded (ok tt))
        (λ n.
          Keeps-read Guarded (get_object_client settings.kinds policyreco.spec.workload_kind) _
            (λ kind k.
              Keeps-read Guarded
                (cluster.get_object kind policyreco.namespace policyreco.spec.workload_name) _
                (λ workload w.
                  Keeps-read Guarded (listed settings cluster not_created_by_controller workload) _
                    (λ others l.
                      enforce_unless_exists-Guarded now policyreco workload others
                        (λ nil. record {
                          fetched = e;
                          initialized = ground arith;
                          generated = ground arith;
                          found =
                              subst
                                (λ k.
                                  cluster.get_object k policyreco.namespace
                                    policyreco.spec.workload_name
                                  ≡ ok workload)
                                (get_object_client-kind settings.kinds policyreco.spec.workload_kind
                                  kind k)
                                w;
                          alone = l ∙ ap ok nil;
                        })
                        e))))

  handle-Guarded :
      (now : Time) (r : Result PolicyRecommendation)
      → cluster.get_policy_recommendation ≡ r
      → Keeps Guarded (handle settings cluster now r)
  unfolding handle
  handle-Guarded now (ok policyreco) e = enforce-Guarded now policyreco e
  handle-Guarded now (err x) e = λ calls made. made
  handle-Guarded now panic e = λ calls made. made

  -- Every write of a run is guarded. It creates or updates an autoscaler only outside the dry run,
  -- for a recommendation that is initialized and generated, with the configuration of that
  -- recommendation, when the configuration is above the required replicas and the workload allows
  -- the enforcement, and when no other owner has an autoscaler for the workload. It deletes only an
  -- autoscaler that is listed as its own, and scales a workload to a maximum other than 0, only
  -- when the configuration or the workload refuses the enforcement. It patches only the status of
  -- the recommendation that it fetched.
  pub reconcile-Guarded : (now : Time) → All Guarded (reconcile settings cluster now []).1
  unfolding reconcile
  reconcile-Guarded now = handle-Guarded now cluster.get_policy_recommendation refl [] tt
