-- ===== src/Workloads/Alike.antt =====
-- The clients of deployments and of rollouts, pkg/registry/deployment_client.go and
-- pkg/registry/rollout_client.go, are the same but for the kind.
use ottoscalr.Prelude.{ℤ, String, Option, none, some, List, [], ◌∷◌, ◌≡◌, refl, arith, ap, ◌∙◌}
use ottoscalr.Result.{Result, ok, err, panic, ◌>>=◌}
use ottoscalr.Float.{Float64}
use ottoscalr.Enforcer.{annotation}
use ottoscalr.Workloads.{Pod, Services}
use ottoscalr.Workloads.Deployment
use ottoscalr.Workloads.Rollout

bind_alike :
    {A B : Type 0} {r s : Result A} {f g : A → Result B}
    → r ≡ s
    → ((a : A) → f a ≡ g a)
    → (r >>= f) ≡ (s >>= g)
bind_alike {r = r} {g = g} e h = pointwise r h ∙ ap (λ q. q >>= g) e
  where
    pointwise :
        {A B : Type 0} {f g : A → Result B} (q : Result A)
        → ((a : A) → f a ≡ g a)
        → (q >>= f) ≡ (q >>= g)
    pointwise (ok a) k = k a
    pointwise (err x) k = refl
    pointwise panic k = refl

module _ {F : Type 0} (fl : Float64 F) (services : Services) where
  max_alike :
      (o : Option String)
      → Rollout.max_of_annotation fl services o ≡ Deployment.max_of_annotation fl services o
  unfolding Rollout.max_of_annotation Deployment.max_of_annotation
  max_alike none = refl
  max_alike (some text) = ground arith

  pods_alike :
      (pods : List Pod)
      → Rollout.limits_of_pods fl services pods ≡ Deployment.limits_of_pods fl services pods
  unfolding Rollout.limits_of_pods Deployment.limits_of_pods
  pods_alike [] = refl
  pods_alike (pod ∷ more) = refl

  listed_alike :
      (r : Result (List Pod))
      → (r >>= Rollout.limits_of_pods fl services) ≡ (r >>= Deployment.limits_of_pods fl services)
  listed_alike (ok pods) = pods_alike pods
  listed_alike (err e) = refl
  listed_alike panic = refl

  limits_alike :
      (namespace : String) (labels : Option (List (String × String)))
      → Rollout.limits_of_labels fl services namespace labels
        ≡ Deployment.limits_of_labels fl services namespace labels
  unfolding Rollout.limits_of_labels Deployment.limits_of_labels
  limits_alike namespace none = refl
  limits_alike namespace (some labels) = listed_alike (services.list_pods namespace labels)

  count_alike : (o : Option ℤ) → Rollout.counted fl services o ≡ Deployment.counted fl services o
  unfolding Rollout.counted Deployment.counted
  count_alike none = refl
  count_alike (some n) = refl

  -- Where the API server answers a rollout as it answers a deployment of that name, every read
  -- and the scaling of the rollout's client has the result of the deployment's client.
  pub clients_alike :
      (namespace name : String) (replicas : ℤ)
      → services.get "Rollout" namespace name ≡ services.get "Deployment" namespace name
      → services.update_scale "Rollout" namespace name replicas
        ≡ services.update_scale "Deployment" namespace name replicas
      → (Rollout.get_object fl services namespace name
          ≡ Deployment.get_object fl services namespace name)
        × (Rollout.get_max_replica_from_annotation fl services namespace name
            ≡ Deployment.get_max_replica_from_annotation fl services namespace name)
        × (Rollout.get_container_resource_limits fl services namespace name
            ≡ Deployment.get_container_resource_limits fl services namespace name)
        × (Rollout.get_replica_count fl services namespace name
            ≡ Deployment.get_replica_count fl services namespace name)
        × (Rollout.scale fl services namespace name replicas
            ≡ Deployment.scale fl services namespace name replicas)
  unfolding Rollout.get_object Deployment.get_object Rollout.get_max_replica_from_annotation
      Deployment.get_max_replica_from_annotation Rollout.get_container_resource_limits
      Deployment.get_container_resource_limits Rollout.get_replica_count
      Deployment.get_replica_count Rollout.scale Deployment.scale
  clients_alike namespace name replicas e s = (
    e,
    bind_alike e (λ object. max_alike (annotation object.annotations "ottoscalr.io/max-pods")),
    bind_alike e (λ object. limits_alike namespace object.template_labels),
    bind_alike e (λ object. count_alike object.replicas),
    ground (arith, s),
  )
