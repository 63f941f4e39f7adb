-- ===== src/Autoscaler/HpaV2.antt =====
-- pkg/autoscaler/hpa_client_v2.go.
use ottoscalr.Prelude.{ℤ, String, Option, none, some, List, [], ◌∷◌}
use ottoscalr.Result.{Result, ok, ◌>>=◌}
use ottoscalr.Enforcer.{Selector, Workload}
use ottoscalr.Autoscaler.{Labels, TargetRef, Object, ApiServer, ref_of, collect_pointers}

-- A resource metric with a target of the type `Utilization`.
pub record MetricSpec : Type 0 where
  pub type : String
  pub resource : String
  pub target_type : String
  pub average_utilization : Option ℤ

pub record HpaV2Spec : Type 0 where
  pub scale_target : TargetRef
  pub min_replicas : Option ℤ
  pub max_replicas : ℤ
  pub metrics : List MetricSpec

abbrev pub HpaV2 : Type 0
HpaV2 = Object HpaV2Spec

unfoldable pub get_max_replica_count : HpaV2 → ℤ
get_max_replica_count o = o.spec.max_replicas

unfoldable pub get_scale_target_name : HpaV2 → String
get_scale_target_name o = o.spec.scale_target.name

abbrev pub spec_of : Workload → (max min target : ℤ) → HpaV2Spec
spec_of workload max min target = record {
  scale_target = ref_of workload;
  min_replicas = some min;
  max_replicas = max;
  metrics =
      record {
        type = "Resource";
        resource = "cpu";
        target_type = "Utilization";
        average_utilization = some target;
      }
      ∷ [];
}

module _ (api : ApiServer HpaV2Spec) where
  unfoldable pub create_or_update_autoscaler :
      Workload → Labels → (max min target : ℤ) → Result (String × HpaV2)
  create_or_update_autoscaler workload labels max min target =
      api.create_or_update
        (record {
          name = workload.name;
          namespace = workload.namespace;
          owners = [];
          labels = labels;
          spec = spec_of workload max min target;
        })
        (λ o. record o { spec = spec_of workload max min target })

  unfoldable pub get_list : Selector → (namespace field : String) → Result (List HpaV2)
  unfolding collect_pointers
  get_list selector namespace field = do
    items ← api.list selector namespace field
    ok (collect_pointers 0 none items)

  pub delete_autoscaler : HpaV2 → Result {0} Unit
  delete_autoscaler o = api.delete o
