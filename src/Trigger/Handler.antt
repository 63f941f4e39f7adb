-- ===== src/Trigger/Handler.antt =====
-- pkg/trigger/trigger_handler.go: the loop over the channel of recommendations to queue.
pub mod Queued
use ottoscalr.Prelude.{String, true, Option, some, List, [], ◌∷◌, ◌++◌}
use ottoscalr.Result.{Result, ok, err, panic}
use ottoscalr.Api.{Time, PolicyRecommendation, condition_true}
use ottoscalr.Calls.{Run, resume, give, ◌>>=◌, perform, or_continue}
use ottoscalr.Conditions.{StatusPatch, new_policy_recommendation_condition}

-- `types.NamespacedName`.
pub record NamespacedName : Type 0 where
  pub namespace : String
  pub name : String

pub data Call : Type 0 where
  update : PolicyRecommendation → Call
  patch_status : StatusPatch → Call

-- The API server and the clock, which may depend on the writes before.
pub record Cluster : Type 0 where
  pub get : List Call → NamespacedName → Result PolicyRecommendation
  pub answer : List Call → Call → Result {0} Unit
  pub now : List Call → Time

abbrev pub queued : Time → PolicyRecommendation → PolicyRecommendation
queued now policyreco = record policyreco {
  spec = record policyreco.spec {
    queued_for_execution = some true;
    queued_for_execution_at = some now;
  };
}

abbrev pub queued_patch : Time → PolicyRecommendation → StatusPatch
queued_patch now policyreco = record {
  name = policyreco.name;
  namespace = policyreco.namespace;
  conditions =
      new_policy_recommendation_condition now "RecoTaskQueued" condition_true "RecoTaskQueued"
        "Workload Queued for Fresh HPA Recommendation"
      ∷ [];
}

module _ (cluster : Cluster) where
  -- A write whose error is logged only.
  unfoldable pub write : Call → Run Call Unit → Run Call Unit
  write c rest calls = or_continue (cluster.answer calls c) (λ _. rest) (c ∷ calls)

  -- One round of the loop in `queuePolicyRecommendations`.
  unfoldable pub queue_policy_recommendation : NamespacedName → Run Call Unit
  unfolding write
  queue_policy_recommendation workload calls =
      or_continue (cluster.get calls workload)
        (λ policyreco.
          write (update (queued (cluster.now calls) policyreco))
            (write (patch_status (queued_patch (cluster.now calls) policyreco)) (give (ok tt))))
        calls

  -- The loop, over the names that the channel gives.
  unfoldable pub queue_policy_recommendations : List NamespacedName → Run Call Unit
  unfolding queue_policy_recommendation
  queue_policy_recommendations [] = give (ok tt)
  queue_policy_recommendations (w ∷ rest) =
      queue_policy_recommendation w >>= λ _. queue_policy_recommendations rest

  -- `QueueAllForExecution`: the names that it sends; an error of the list leaves it empty.
  unfoldable pub queue_all_for_execution : Result (List PolicyRecommendation) → List NamespacedName
  queue_all_for_execution (ok []) = []
  queue_all_for_execution (ok (r ∷ rest)) =
      record { namespace = r.namespace; name = r.name } ∷ queue_all_for_execution (ok rest)
  queue_all_for_execution (err e) = []
  queue_all_for_execution panic = []
