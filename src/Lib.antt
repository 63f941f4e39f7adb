-- ===== src/Lib.antt =====
-- A model of ottoscalr, the controller that recommends and enforces autoscaling configurations for
-- the workloads of a Kubernetes cluster, and the theorems about it.
--
-- The parts and how they interact. A recommendation (`PolicyRecommendation`) is queued by the
-- trigger: by the monitors, on a breach or at a fixed interval. The recommendation controller then
-- runs the workflow, which asks the recommender for a target configuration and the policy iterators
-- for a policy, and applies the safer of the two; it records the result in the recommendation. The
-- HPA enforcement controller turns a recorded configuration into an autoscaler object, or removes
-- the autoscaler that it made. Policies are ordered by their risk in the policy store. The registrar
-- creates the recommendation of a workload and registers its monitor; the policy watcher keeps the
-- default policy unique and requeues the recommendations of a changed policy, and the deployment
-- trigger requeues one when the annotation of its workload changes. The recommender reads the CPU
-- utilization through the metrics scraper, from which the outlier transformer removes events.
--
-- Which file models which part:
--   Api           api/v1alpha1: Policy, PolicyRecommendation and their parts
--   Store         pkg/policy/store.go: the policy store; the methods have the source's names
--   Workflow      pkg/reco/workflow.go: Execute and its helpers; Workflow/Builder the builder, with
--                 NewPolicyRecommendationReconciler of
--                 pkg/controller/policyrecommendation_controller.go
--   Iterators     pkg/reco/policyiterators.go and pkg/reco/breach_analyzer.go
--   Recommender   pkg/reco/reco.go: Simulation (simulateHPA, hasNoBreachOccurred), Optimum
--                 (findOptimalHPAConfigurations, calculateSavings), Recommend (Recommend, getMaxPods)
--   Metrics       pkg/metrics/scraper.go: Series (aggregateMetrics,
--                 interpolateMissingDataPoints), Ranges (QueryRangeByInterval, mergeMatrices),
--                 Scraper (the queries of the instances); Queries: pkg/metrics/queries.go
--   Transformer   pkg/transformer/metrics_transformer.go: Transform and its helpers
--   Conditions    pkg/controller/policyrecommendation_util.go, with isInitialized and
--                 isRecoGenerated of pkg/controller/hpaenforcement_controller.go
--   Enforcer      pkg/controller/hpaenforcement_controller.go: Reconcile,
--                 deleteControllerManagedAutoscaler, isWhitelistedNamespace; Watches: the
--                 watches of SetupWithManager
--   Reconciler    pkg/controller/policyrecommendation_controller.go: Reconcile, its helpers and the
--                 predicate that queues updates
--   Trigger       pkg/trigger: Handler (trigger_handler.go), Breach (a round of monitor.go),
--                 Manager (the monitors of monitor.go as a state machine)
--   Registrar     pkg/controller/policyrecommendation_registrar.go: Reconcile, its helpers and
--                 predicates
--   Watcher       pkg/controller/policy_controller.go: Reconcile and its helpers
--   DeploymentTrigger   pkg/controller/deployment_trigger_controller.go
--   Autoscaler    pkg/autoscaler: Keda (scaledobject_client.go), Hpa (hpa_client.go), HpaV2
--                 (hpa_client_v2.go)
--   Integration   pkg/integration/custom_event_integration.go: GetDesiredEvents, formatTime
--   Workloads     pkg/registry: Deployment (deployment_client.go), Rollout (rollout_client.go)
--   Calls         how a handler runs: its state is the list of the writes it has made
--   Prelude, Result, Float   shared types: Go's int, results with errors and panics, float64
--   Examples      the theorems at concrete inputs
--
-- State. The services that the code calls answer through parameters: the API server, Prometheus, the
-- registered clients, the clock, `sort.Slice` and `sort.SliceStable` (with their documented behaviour,
-- `Sorts` and `SortsStably`), the order in which a map or a channel gives its items, float64 (with no
-- law but those of `math.Max` in `MaximumLaws` and the transitivity of `>=`, where a theorem needs
-- them) and `math.Ceil` on an integer (`CeilIsExact`, where a theorem needs it). A handler of a
-- controller returns its result and the writes that it made, the last one first; the answer to a
-- write may depend on the writes before it. Go's `int` is an integer; where an overflow could matter
-- the conversion is written out (`wrap 32`, `wrap 64`).
--
-- Bounds and fuel. The search over targets has as fuel the number of targets in its range, and the
-- range splitter the number of time units from start to end; the theorems on them show that this is
-- enough. All other loops are by recursion on a list.
--
-- Not modelled: logs, events, gauges and counters, but for the histogram of the recommendation
-- controller and the gauge of the registrar; the watches that start a handler, but for those
-- of the enforcement controller and the predicates of the recommendation controller, the registrar and
-- the deployment trigger; start-up. A time is a natural number, 0 the
-- zero time; in Integration it is an integer of nanoseconds.
mod Prelude
pub mod Result
pub mod Api
pub mod Store
pub mod Workflow
pub mod Iterators
pub mod Float
pub mod Recommender
pub mod Metrics
pub mod Calls
pub mod Conditions
pub mod Enforcer
pub mod Reconciler
pub mod Trigger
pub mod Registrar
pub mod Watcher
pub mod Transformer
pub mod DeploymentTrigger
pub mod Autoscaler
pub mod Integration
pub mod Workloads
mod Examples
