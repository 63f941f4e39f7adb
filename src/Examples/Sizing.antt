-- ===== src/Examples/Sizing.antt =====
-- The clients of workloads and autoscalers on one deployment.
use ottoscalr.Prelude.{
  sym, ap, if◌then◌else◌, ℕ, ℤ, pos, String, str_eq, true, none, some, List, [], ◌∷◌, ◌≡◌, inl,
  refl, arith,
}
use ottoscalr.Result.{Result, panic, ok, err, failed}
use ottoscalr.Enforcer.{Workload, created_by_controller}
use ottoscalr.Recommender.Recommend.{Sources, Config, get_max_pods, get_container_cpu_limits_sum}
use ottoscalr.Workloads.{WorkloadObject, Pod, Services}
use ottoscalr.Workloads.Deployment
use ottoscalr.Workloads.Sizing.{
  annotated_else_running, containers_of, get_max_pods-annotated_else_running,
  get_container_cpu_limits_sum-total_of,
}
use ottoscalr.Autoscaler.{Object, Labels, ref_of, ApiServer, Mutates}
use ottoscalr.Autoscaler.Keda
use ottoscalr.Autoscaler.Hpa
use ottoscalr.Autoscaler.HpaV2
use ottoscalr.Autoscaler.Enforced.{
  AllLast, create_or_update-get_max_replica_count, get_list-AllLast,
}
use ottoscalr.Examples.{fixed_point, workload}

abbrev object : WorkloadObject
object = record {
  name = "checkout";
  namespace = "shop";
  annotations = ("ottoscalr.io/max-pods", "30") ∷ [];
  template_labels = some (("app", "checkout") ∷ []);
  replicas = some (pos 8);
}

abbrev pod : Pod
pod = record { containers = containers_of (some 1500 ∷ none ∷ some 500 ∷ []) }

abbrev services : Services
services = record {
  get = λ kind namespace name. ok object;
  list_pods = λ namespace labels. ok (pod ∷ []);
  update_scale = λ kind namespace name replicas. ok tt;
  atoi = λ text. if str_eq text "30" then ok (pos 30) else err (failed "invalid syntax");
  error_text = λ e. "error";
}

abbrev config : Config ℕ
config = record {
  red_line_util = 850;
  metric_window_seconds = pos 86400;
  metric_step_seconds = pos 30;
  min_target = pos 10;
  max_target = pos 60;
  metrics_percentage_threshold = pos 25;
}

abbrev sources : Sources ℕ
sources = record {
  average_cpu_utilization = ok [];
  object_client = ok (Deployment.object_client fixed_point services "shop" "checkout");
  autoscaler_max_replicas = ok [];
  transformers = [];
  acl = ok 120;
}

get_max_pods-annotated_else_running_example :
    get_max_pods fixed_point config sources
    ≡ annotated_else_running fixed_point config sources services "shop" "checkout" object
        (some "30")
get_max_pods-annotated_else_running_example =
    get_max_pods-annotated_else_running fixed_point config sources services "shop" "checkout" object
      refl refl refl

get_container_cpu_limits_sum-total_of_example :
    get_container_cpu_limits_sum fixed_point config sources ≡ ok 2000
get_container_cpu_limits_sum-total_of_example =
    get_container_cpu_limits_sum-total_of fixed_point config sources services "shop" "checkout"
      object (("app", "checkout") ∷ []) (some 1500 ∷ none ∷ some 500 ∷ []) pod [] refl refl refl
      refl refl (omega arith)

-- A server that has no object of the name yet, and lists the given ones.
abbrev server : {S : Type 0} → List (Object S) → ApiServer S
server {S} items = record {
  list = λ selector namespace field. ok items;
  create_or_update = λ o f. ok ("created", f o);
  delete = λ o. ok tt;
}

abbrev stored_or : {A : Type 0} → A → Result (String × A) → A
stored_or d q = elim q [ ok (text, stored) ↦ stored | err e ↦ d | panic ↦ d ]

server-Mutates : {S : Type 0} (items : List (Object S)) → Mutates (server items)
server-Mutates items = λ o f r stored e. inl (sym (ap (stored_or o) e))

abbrev labels : Labels
labels = ("created-by", "hpa-enforcement-controller") ∷ []

abbrev scaled : Workload → ℤ → Keda.ScaledObject
scaled w max = record {
  name = w.name;
  namespace = w.namespace;
  owners = ref_of w ∷ [];
  labels = labels;
  spec = Keda.spec_of (λ n. "75") true (server []) w max (pos 3) (pos 75);
}

abbrev hpa : Workload → ℤ → Hpa.Hpa
hpa w max = record {
  name = w.name;
  namespace = w.namespace;
  owners = [];
  labels = labels;
  spec = Hpa.spec_of w max (pos 3) (pos 75);
}

abbrev hpa_v2 : Workload → ℤ → HpaV2.HpaV2
hpa_v2 w max = record {
  name = w.name;
  namespace = w.namespace;
  owners = [];
  labels = labels;
  spec = HpaV2.spec_of w max (pos 3) (pos 75);
}

create_or_update-get_max_replica_count_example :
    (Keda.get_max_replica_count (scaled workload (pos 20)) ≡ pos 20)
    × (Hpa.get_max_replica_count (hpa workload (pos 20)) ≡ pos 20)
unfolding Keda.create_or_update_autoscaler Hpa.create_or_update_autoscaler
    HpaV2.create_or_update_autoscaler
create_or_update-get_max_replica_count_example =
    let ((m1, _, _, _), (m2, _, _, _), _) =
      create_or_update-get_max_replica_count workload labels (pos 20) (pos 3) (pos 75) "created"
        (λ n. "75") true (server []) (server []) (server []) (scaled workload (pos 20))
        (hpa workload (pos 20)) (hpa_v2 workload (pos 20)) (server-Mutates []) (server-Mutates [])
        (server-Mutates []) refl refl refl in
    (m1, m2)

get_list-AllLast_example :
    (out : List Keda.ScaledObject) × (Keda.get_list
        (λ n. "75")
        true
        (server (scaled workload (pos 20) ∷ scaled workload (pos 40) ∷ []))
        created_by_controller
        "shop"
        "checkout"
      ≡ ok out)
    × AllLast (scaled workload (pos 20) ∷ []) (scaled workload (pos 40)) out
get_list-AllLast_example =
    let (listed, _, _) =
      get_list-AllLast (λ n. "75") true
        (server (scaled workload (pos 20) ∷ scaled workload (pos 40) ∷ []))
        (server (hpa workload (pos 20) ∷ hpa workload (pos 40) ∷ []))
        (server (hpa_v2 workload (pos 20) ∷ [])) created_by_controller "shop" "checkout"
        (scaled workload (pos 20) ∷ []) (scaled workload (pos 40)) (hpa workload (pos 20) ∷ [])
        (hpa workload (pos 40)) [] (hpa_v2 workload (pos 20)) refl refl refl in
    listed
