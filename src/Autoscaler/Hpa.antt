-- ===== src/Autoscaler/Hpa.antt =====
-- pkg/autoscaler/hpa_client.go.
use ottoscalr.Prelude.{ℤ, String, Option, none, some, List, []}
use ottoscalr.Result.{Result, ok, ◌>>=◌}
use ottoscalr.Enforcer.{Selector, Workload}
use ottoscalr.Autoscaler.{Labels, TargetRef, Object, ApiServer, ref_of, collect_pointers}

pub record HpaSpec : Type 0 where
  pub scale_target : TargetRef
  pub min_replicas : Option ℤ
  pub max_replicas : ℤ
  pub target_cpu_utilization_percentage : Option ℤ

abbrev pub Hpa : Type 0
Hpa = Object HpaSpec

unfoldable pub get_max_replica_count : Hpa → ℤ
get_max_replica_count o = o.spec.max_replicas

unfoldable pub get_scale_target_name : Hpa → String
get_scale_target_name o = o.spec.scale_target.name

abbrev pub spec_of : Workload → (max min target : ℤ) → HpaSpec
spec_of workload max min target = record {
  scale_target = ref_of workload;
  min_replicas = some min;
  max_replicas = max;
  target_cpu_utilization_percentage = some target;
}

module _ (api : ApiServer HpaSpec) where
  unfoldable pub create_or_update_autoscaler :
      Workload → Labels → (max min target : ℤ) → Result (String × Hpa)
  create_or_update_autoscaler workload labels max min target =
      api.create_or_update
        (record {
          name = workload.name;
          namespace = workload.namespace;
          owners = [];
          labels = labels;
          spec = spec_of workload max min target;
        })
        (λ o. record o { spec = spec_of workload max min target })

  unfoldable pub get_list : Selector → (namespace field : String) → Result (List Hpa)
  unfolding collect_pointers
  get_list selector namespace field = do
    items ← api.list selector namespace field
    ok (collect_pointers 0 none items)

  pub delete_autoscaler : Hpa → Result {0} Unit
  delete_autoscaler o = api.delete o
