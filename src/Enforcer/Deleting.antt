-- ===== src/Enforcer/Deleting.antt =====
-- `deleteControllerManagedAutoscaler` of pkg/controller/hpaenforcement_controller.go.
use ottoscalr.Prelude.{
  ℤ, pos, ◌==ℤ◌, some, List, [], ◌∷◌, ◌≡◌, refl, if◌then◌else◌, Bool-cases, inl, inr,
}
use ottoscalr.Result.{ok}
use ottoscalr.Enforcer.{
  Settings, Cluster, Workload, Call, delete_autoscaler, scale, created_by_controller,
  get_object_client, listed, delete_each, rescale, delete_controller_managed_autoscaler,
}

module _ {S : Type 0} (cluster : Cluster S) where
  -- The maximum of the last autoscaler, or `max_pods` where there is none.
  abbrev pub last_max : ℤ → List S → ℤ
  last_max max_pods [] = max_pods
  last_max max_pods (o ∷ rest) = last_max (cluster.get_max_replica_count o) rest

  -- The deletions of the autoscalers in their order, behind the earlier writes.
  abbrev pub deletions : List S → List (Call S) → List (Call S)
  deletions [] calls = calls
  deletions (o ∷ rest) calls = deletions rest (delete_autoscaler o ∷ calls)

module _ {S : Type 0} (settings : Settings) (cluster : Cluster S) where
  delete_each-all :
      (max_pods : ℤ) (objects : List S) (calls : List (Call S))
      → ((made : List (Call S)) (o : S) → cluster.answer made (delete_autoscaler o) ≡ ok tt)
      → delete_each settings cluster max_pods objects calls
        ≡ (ok (some (last_max cluster max_pods objects)), deletions cluster objects calls)
  unfolding delete_each
  delete_each-all max_pods [] calls works = refl
  delete_each-all max_pods (o ∷ rest) calls works =
      rw (works calls o)
        (delete_each-all (cluster.get_max_replica_count o) rest (delete_autoscaler o ∷ calls) works)

  -- Where the deletions succeed: the autoscalers that are listed as the controller's own are
  -- deleted in their order, and then a workload of a registered kind is scaled to the maximum of
  -- the last one, once; the answer is that of the scaling. Where that maximum is 0, as it is where
  -- there is no autoscaler, nothing is scaled and the answer is a success.
  pub delete_controller_managed_autoscaler-rescales :
      (workload : Workload) (objects : List S) (calls : List (Call S))
      → ((made : List (Call S)) (o : S) → cluster.answer made (delete_autoscaler o) ≡ ok tt)
      → listed settings cluster created_by_controller workload ≡ ok objects
      → get_object_client settings.kinds workload.kind ≡ ok workload.kind
      → (let max_pods = last_max cluster (pos 0) objects in
          let made = deletions cluster objects calls in
          let rescaling = scale workload.kind workload.namespace workload.name max_pods in
          delete_controller_managed_autoscaler settings cluster workload calls ≡ (
            if max_pods ==ℤ pos 0
            then (ok tt, made)
            else (cluster.answer made rescaling, rescaling ∷ made)))
  unfolding delete_controller_managed_autoscaler rescale
  delete_controller_managed_autoscaler-rescales workload objects calls works e k =
      rw (e, delete_each-all (pos 0) objects calls works)
        (elim (Bool-cases (last_max cluster (pos 0) objects ==ℤ pos 0)) [
          | inl z ↦ rw z refl
          | inr z ↦ rw (z, k) refl
        ])
