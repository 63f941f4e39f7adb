-- ===== src/Metrics/Queries.antt =====
-- pkg/metrics/queries.go, and the queries that `NewPrometheusCompositeQueries` of
-- pkg/metrics/scraper.go composes. A map is an association list; the order in which Go ranges over
-- the labels is the argument `range`, and the threshold is the text that `%.2f` prints of it.
pub mod Brackets
pub mod Rendering
use Prim.Native.Char.{code}
use ottoscalr.Prelude.{
  ℕ, String, str_eq, Bool, true, false, ◌||◌, Option, none, some, List, [], ◌∷◌, ◌==◌, ◌<>◌,
  if◌then◌else◌,
}
use ottoscalr.Result.{Result, ok, panic, ◌>>=◌}

pub record QueryComponent : Type 0 where
  pub metric : String
  pub label_keys : List String

abbrev pub Labels : Type 0
Labels = List (String × String)

abbrev pub CompositeQuery : Type 0
CompositeQuery = List (String × QueryComponent)

-- `fmt.Sprintf`, with the texts of the format and the arguments in their order.
pub concat : List String → String
concat [] = ""
concat (s ∷ rest) = s <> concat rest

-- The index of a map.
unfoldable pub at_key {ℓ} : {V : Type ℓ} → String → List (String × V) → Option V
at_key key [] = none
at_key key ((k, v) ∷ rest) = if str_eq k key then some v else at_key key rest

-- The assignment to a key of a map.
unfoldable pub put_key {ℓ} : {V : Type ℓ} → String → V → List (String × V) → List (String × V)
put_key key v [] = (key, v) ∷ []
put_key key v ((k, w) ∷ rest) =
    let later = put_key key v rest in if str_eq k key then (key, v) ∷ rest else (k, w) ∷ later

-- The labels of the component's keys that are given.
pub select_labels : List String → Labels → Labels → Labels
unfolding put_key at_key
select_labels [] m labels = labels
select_labels (key ∷ rest) m labels =
    select_labels rest m (elim (at_key key m) [ none ↦ labels | some v ↦ put_key key v labels ])

abbrev pub label_text : String → String → String
label_text key value = key <> "=\"" <> value <> "\""

-- The pairs, without the comma behind the last one.
pub render_pairs : Labels → String
render_pairs [] = ""
render_pairs ((key, value) ∷ []) = label_text key value
render_pairs ((key, value) ∷ next ∷ rest) =
    label_text key value <> "," <> render_pairs (next ∷ rest)

pub render_labels : Labels → String
unfolding render_pairs
render_labels [] = ""
render_labels (pair ∷ rest) = "{" <> render_pairs (pair ∷ rest) <> "}"

unfoldable pub with_query : String → QueryComponent → CompositeQuery → CompositeQuery
unfolding put_key
with_query name query queries = put_key name query queries

module _ (range : Labels → Labels) where
  pub render_component : QueryComponent → Labels → String
  unfolding select_labels render_labels
  render_component c m = c.metric <> render_labels (range (select_labels c.label_keys m []))

  -- A component that is not in the map is a nil pointer.
  unfoldable pub render_named : CompositeQuery → String → Labels → Result String
  unfolding render_component at_key
  render_named queries name m = elim (at_key name queries) [
    | none ↦ panic
    | some c ↦ ok (render_component c m)
  ]

  unfoldable pub render_cpu_utilization : CompositeQuery → Labels → Result String
  unfolding render_named
  render_cpu_utilization queries m = do
    utilization ← render_named queries "cpu_utilization_metric" m
    owner ← render_named queries "pod_owner_metric" m
    ok (
        concat (
          "sum(" ∷ utilization ∷ " * on (namespace,pod) group_left(workload, workload_type)" ∷ owner
          ∷ ") by(namespace, workload, workload_type)" ∷ []))

  unfoldable pub render_cpu_utilization_breach : CompositeQuery → String → Labels → Result String
  unfolding render_named
  render_cpu_utilization_breach queries red_line m = do
    utilization ← render_named queries "cpu_utilization_metric" m
    owner ← render_named queries "pod_owner_metric" m
    limit ← render_named queries "resource_limit_metric" m
    ready ← render_named queries "ready_replicas_metric" m
    replica_set ← render_named queries "replicaset_owner_metric" m
    max_replicas ← render_named queries "hpa_max_replicas_metric" m
    hpa ← render_named queries "hpa_owner_info_metric" m
    ok (
        concat (
          "(sum(" ∷ utilization ∷ " * on(namespace,pod) group_left(workload, workload_type) "
          ∷ owner
          ∷ ") by (namespace, workload, workload_type)/ on (namespace, workload, workload_type) group_left sum("
          ∷ limit ∷ " * on(namespace,pod) group_left(workload, workload_type)" ∷ owner
          ∷ ") by (namespace, workload, workload_type) > " ∷ red_line
          ∷ ") and on(namespace, workload) label_replace(sum(" ∷ ready
          ∷ " * on(replicaset) group_left(namespace, owner_kind, owner_name) " ∷ replica_set
          ∷ ") by (namespace, owner_kind, owner_name) < on(namespace, owner_kind, owner_name) ("
          ∷ max_replicas
          ∷ " * on(namespace, horizontalpodautoscaler) group_left(owner_kind, owner_name) label_replace(label_replace("
          ∷ hpa
          ∷ ",\"owner_kind\", \"$1\", \"scaletargetref_kind\", \"(.*)\"), \"owner_name\", \"$1\", \"scaletargetref_name\", \"(.*)\")),\"workload\", \"$1\", \"owner_name\", \"(.*)\")"
          ∷ []))

  unfoldable pub render_pod_ready_latency : CompositeQuery → Labels → Result String
  unfolding render_named
  render_pod_ready_latency queries m = do
    ready ← render_named queries "pod_ready_time_metric" m
    created ← render_named queries "pod_created_time_metric" m
    owner ← render_named queries "pod_owner_metric" m
    ok (
        concat (
          "quantile(0.5,(" ∷ ready ∷ " - on (namespace,pod) (" ∷ created
          ∷ ")) * on (namespace,pod) group_left(workload, workload_type)(" ∷ owner ∷ "))" ∷ []))

abbrev pub component : String → List String → QueryComponent
component metric label_keys = record { metric = metric; label_keys = label_keys }

unfoldable pub prometheus_queries : CompositeQuery
unfolding with_query
prometheus_queries =
    with_query "hpa_owner_info_metric"
      (component "kube_horizontalpodautoscaler_info"
        ("namespace" ∷ "scaletargetref_kind" ∷ "scaletargetref_name" ∷ []))
      (with_query "hpa_max_replicas_metric"
        (component "kube_horizontalpodautoscaler_spec_max_replicas" ("namespace" ∷ []))
        (with_query "replicaset_owner_metric"
          (component "kube_replicaset_owner" ("namespace" ∷ "owner_kind" ∷ "owner_name" ∷ []))
          (with_query "ready_replicas_metric"
            (component "kube_replicaset_status_ready_replicas" ("namespace" ∷ []))
            (with_query "resource_limit_metric"
              (component "cluster:namespace:pod_cpu:active:kube_pod_container_resource_limits"
                ("namespace" ∷ []))
              (with_query "cpu_utilization_metric"
                (component
                  "node_namespace_pod_container:container_cpu_usage_seconds_total:sum_irate"
                  ("namespace" ∷ []))
                (with_query "pod_owner_metric"
                  (component "namespace_workload_pod:kube_pod_owner:relabel"
                    ("namespace" ∷ "workload" ∷ "workload_type" ∷ []))
                  (with_query "pod_created_time_metric"
                    (component "kube_pod_created" ("namespace" ∷ []))
                    (with_query "pod_ready_time_metric"
                      (component "kube_pod_status_ready_time" ("namespace" ∷ [])) []))))))))

-- The code points of a text. A Go string ranges over them as runes.
abbrev pub codes : String → List ℕ
codes String.[] = []
codes (String.◌∷◌ c s) = code c ∷ codes s

pop : ℕ → List ℕ → Option (List ℕ)
pop open_bracket [] = none
pop open_bracket (top ∷ stack) = if top == open_bracket then some stack else none

-- One round of the loop in `ValidateQuery`; the head of the list is the top of the stack.
unfoldable pub next_stack : List ℕ → ℕ → Option (List ℕ)
unfolding pop
next_stack stack c =
    if c == b'(' || c == b'{'
    then some (c ∷ stack)
    else if c == b')'
    then pop b'(' stack
    else if c == b'}'
    then pop b'{' stack
    else some stack

unfoldable pub validate_from : List ℕ → List ℕ → Bool
unfolding next_stack
validate_from [] [] = true
validate_from (open_bracket ∷ stack) [] = false
validate_from stack (c ∷ rest) = elim (next_stack stack c) [
  | none ↦ false
  | some later ↦ validate_from later rest
]

unfoldable pub validate_query : String → Bool
unfolding validate_from
validate_query query = validate_from [] (codes query)
