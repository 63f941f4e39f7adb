-- ===== src/Trigger/Handler/Queued.antt =====
-- What the trigger handler queues is taken up by the recommendation controller
-- (pkg/trigger/trigger_handler.go with pkg/controller/policyrecommendation_controller.go).
use mathlib.Core.List.{mem-cons}
use mathlib.Core.Logic.Or
use ottoscalr.Prelude.{
  Bool, true, false, some, List, [], ◌∷◌, ◌≡◌, ◌<◌, ◌⊎◌, inl, inr, refl, arith, Mem, ap, ◌∙◌, ◌++◌,
  sym,
}
use ottoscalr.Result.{ok, err, Err}
use ottoscalr.Api.{Time, PolicyRecommendation}
use ottoscalr.Reconciler.{is_queued_by_update}
use ottoscalr.Trigger.Handler.{
  NamespacedName, Cluster, Call, update, patch_status, queued, queued_patch, write,
  queue_policy_recommendation, queue_policy_recommendations,
}

-- The update that the handler makes queues the recommendation for the controller, when it was not
-- queued before or was queued at an earlier time.
pub queued-is_queued :
    (policyreco : PolicyRecommendation) (was : Bool) (now : Time)
    → 0 < now
    → policyreco.spec.queued_for_execution ≡ some was
    → (was ≡ false) ⊎ ((t : Time) × (policyreco.spec.queued_for_execution_at ≡ some t) × (t < now))
    → is_queued_by_update policyreco (queued now policyreco) ≡ ok true
unfolding is_queued_by_update
queued-is_queued policyreco was now positive e (inl f) = ground arith
queued-is_queued policyreco was now positive e (inr (t, q, lt)) = ground arith

ok-inj : (p q : PolicyRecommendation) → ok p ≡ ok q → p ≡ q
ok-inj p q e = cc

module _ (cluster : Cluster) where
  -- No call of the API server panics.
  abbrev pub Calm : Type 0
  Calm =
      ((calls : List Call) (w : NamespacedName)
        → ((p : PolicyRecommendation) × (cluster.get calls w ≡ ok p))
          ⊎ ((e : Err) × (cluster.get calls w ≡ err e)))
      × ((calls : List Call) (c : Call)
          → (cluster.answer calls c ≡ ok tt) ⊎ ((e : Err) × (cluster.answer calls c ≡ err e)))

  -- What a round leaves: the earlier writes, and the update of the recommendation.
  abbrev pub Leaves : NamespacedName → List Call → List Call → Type 0
  Leaves w calls made =
      ((c : Call) → Mem c calls → Mem c made)
      × ((p : PolicyRecommendation)
          → cluster.get calls w ≡ ok p
          → Mem (update (queued (cluster.now calls) p)) made)

  updated-Leaves :
      (w : NamespacedName) (calls : List Call) (p : PolicyRecommendation)
      → cluster.get calls w ≡ ok p
      → Leaves w calls (update (queued (cluster.now calls) p) ∷ calls)
  updated-Leaves w calls p e = (
    λ c m. mem-cons.1 (Or.inr m),
    λ q h.
        mem-cons.1
          (Or.inl (ap (λ r. update (queued (cluster.now calls) r)) (ok-inj q p (sym h ∙ e)))),
  )

  more-Leaves :
      (w : NamespacedName) (calls made : List Call) (c : Call)
      → Leaves w calls made
      → Leaves w calls (c ∷ made)
  more-Leaves w calls made c h =
      (λ d m. mem-cons.1 (Or.inr (h.0 d m)), λ p e. mem-cons.1 (Or.inr (h.1 p e)))

  queue_one-Leaves :
      (w : NamespacedName) (calls : List Call)
      → Calm
      → (made : List Call) × (queue_policy_recommendation cluster w calls ≡ (ok tt, made))
        × Leaves w calls made
  unfolding queue_policy_recommendation write
  queue_one-Leaves w calls calm = elim (calm.0 calls w) [
    | inl (p, e) ↦
        let u = update (queued (cluster.now calls) p) in
        let s = patch_status (queued_patch (cluster.now calls) p) in
        let left = updated-Leaves w calls p e in
        elim (calm.1 calls u) [
          | inl a ↦ elim (calm.1 (u ∷ calls) s) [
            | inl b ↦ (s ∷ u ∷ calls, rw (e, a, b) refl, more-Leaves w calls (u ∷ calls) s left)
            | inr (x, b) ↦
                (s ∷ u ∷ calls, rw (e, a, b) refl, more-Leaves w calls (u ∷ calls) s left)
          ]
          | inr (x, a) ↦ (u ∷ calls, rw (e, a) refl, left)
        ]
    | inr (x, e) ↦ (calls, rw e refl, (λ c m. m, λ p h. absurd (cc)))
  ]

  queue_each-keeps :
      (ws : List NamespacedName) (calls : List Call)
      → Calm
      → (made : List Call) × (queue_policy_recommendations cluster ws calls ≡ (ok tt, made))
        × ((c : Call) → Mem c calls → Mem c made)
  unfolding queue_policy_recommendations
  queue_each-keeps [] calls calm = (calls, refl, λ c m. m)
  queue_each-keeps (w ∷ rest) calls calm =
      let (made, e, left) = queue_one-Leaves w calls calm in
      let (all_made, f, keeps) = queue_each-keeps rest made calm in
      (all_made, rw e f, λ c m. keeps c (left.0 c m))

  updates_from :
      (before after : List NamespacedName) (w : NamespacedName) (p : PolicyRecommendation)
      (calls : List Call)
      → Calm
      → ((calls : List Call) → cluster.get calls w ≡ ok p)
      → (made : List Call) × (queue_policy_recommendations cluster (before ++ w ∷ after) calls
          ≡ (ok tt, made))
        × ((t : Time) × Mem (update (queued t p)) made)
  unfolding queue_policy_recommendations
  updates_from [] after w p calls calm reads =
      let (made, e, left) = queue_one-Leaves w calls calm in
      let (all_made, f, keeps) = queue_each-keeps after made calm in
      (all_made, rw e f, (cluster.now calls, keeps _ (left.1 p (reads calls))))
  updates_from (v ∷ before) after w p calls calm reads =
      let (made, e, left) = queue_one-Leaves v calls calm in
      let (all_made, f, found) = updates_from before after w p made calm reads in
      (all_made, rw e f, found)

  -- The loop goes on behind an error: where no call panics it ends, and for each name that it is
  -- given, whose recommendation can be read, it makes the update that queues this recommendation.
  pub queue_policy_recommendations-updates :
      (before after : List NamespacedName) (w : NamespacedName) (p : PolicyRecommendation)
      → Calm
      → ((calls : List Call) → cluster.get calls w ≡ ok p)
      → (made : List Call) × (queue_policy_recommendations cluster (before ++ w ∷ after) []
          ≡ (ok tt, made))
        × ((t : Time) × Mem (update (queued t p)) made)
  queue_policy_recommendations-updates before after w p calm reads =
      updates_from before after w p [] calm reads
