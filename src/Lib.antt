-- ===== src/Lib.antt =====
-- kube-throttler: a scheduler plugin that keeps pods back while a `Throttle` (of one namespace) or
-- a `ClusterThrottle` (of all of them) that selects them has no room left.
--
-- The scheduler asks the plugin (pkg/scheduler_plugin) about a pod: `PreFilter` checks it against
-- every throttle that selects it, and `Reserve` and `Unreserve` note what the scheduler has let
-- through and given up. Each of the two controllers (pkg/controllers) keeps, beside these
-- reservations, the status of its throttles: `reconcile` sums up what their running pods use, finds
-- the threshold that the temporary overrides call for, updates the status and releases the
-- reservations of the pods that the status now counts. Event handlers put throttles into the
-- controller's work queue.
--
-- Files, and what they model:
--   Prelude: Booleans, Go's integers, maps and lists, as all the other files use them.
--   Quantity: `resource.Quantity`, a parameter `Q` with its operations and their documented laws.
--   Pod: pods, and pkg/controllers/pod_util.go.
--   ResourceList: pkg/resourcelist/resourcelist.go. A Go map is a list of pairs whose keys are to be
--     distinct (`IsMap`); a loop over it takes one order.
--   ResourceAmount: pkg/apis/schedule/v1alpha1/resource_amount.go. The pod count is a 64-bit integer,
--     its wrap-around written out. `Add` works on a fresh map at every call that the program makes,
--     so it is a function here.
--   Errors: Go's errors, and results that may be one.
--   Throttle: throttle_types.go, clusterthrottle_types.go, calculated_threshold.go in the same
--     directory: the resources, and `CheckThrottledFor`.
--   ThrottleSpec: `NextOverrideHappensIn` and `CalculateThreshold` of throttle_types.go, and
--     temporary_threshold_override.go. Times and durations are nanoseconds; `time.Parse` is a
--     parameter.
--   Selector: throttle_selector.go and clusterthrottle_selector.go.
--   NamespacedName: `types.NamespacedName`.
--   Reserved: pkg/controllers/reserved_resource_amounts.go, each method one step on the cache. Ledger
--     has the abstract view of it, which pod holds what on which throttle, and the cache's operations
--     in that view; Budget has what is used and reserved of a resource, together.
--   Slices: Go's slices as arrays on a heap, where two of them can share cells.
--   Controller: pkg/controllers/controller.go, with a log of the calls on the work queue. Worker has
--     the worker's loop over what the queue gives it.
--   ThrottleController: pkg/controllers/throttle_controller.go; Reconcile has `reconcile`, Handlers
--     the event handlers. The informer's cache, the client, the clock and the keys are parameters
--     (`Environment`), as is `DeepEqual`. A state holds the informer's cache, the reservations, the
--     log, the throttles whose metrics were recorded and the status updates sent. Construct has
--     `NewThrottleController`, and Events the step relation of all that happens to a controller: calls
--     of the plugin, event handlers, rounds of workers, and writes of the informer to its cache. What the
--     lister of pods and the client answer may change from one event to the next.
--   ClusterThrottleController: pkg/controllers/clusterthrottle_controller.go, in the same way.
--   Metrics: metrics_recorder.go, throttle_metrics.go and clusterthrottle_metrics.go of
--     pkg/controllers. Prometheus is a parameter: a vector of gauges, with its series by labels.
--   ApiGroup: register.go of pkg/apis/schedule and of its directory v1alpha1.
--   Plugin: plugin.go and plugin_args.go of pkg/scheduler_plugin. Start has `NewPlugin`. Scheduling
--     has the scheduler's cycles as a step relation: `PreFilter`, then `Reserve` or none, with
--     `Unreserve` and the events of pods in between. In those steps the throttles and their statuses
--     stay, no worker runs, and pods that are updated keep their labels: the handler of an update that
--     changes them reserves the pod on other throttles without a check.
--   Tests: concrete pods, throttles and libraries, and the theorems at them.
--
-- All loops run over lists, so that no function needs fuel: a worker's loop runs over what the queue
-- gives it.
--
-- Not modelled: logging, the locks of the reservations, `wait.Until`, that a panic ends the process
-- where a gauge's name is registered twice, the commands of cmd (wiring of a command line) and
-- generated code. The panics on a nil pointer, of `NewForConfigOrDie` and of the type assertion on a
-- deleted object that an informer has missed are errors, `nil_dereference` and `panic`. What event
-- handlers do before `NewPlugin` returns comes after it.
pub mod Prelude
pub mod Quantity
pub mod Pod
pub mod ResourceList
pub mod ResourceAmount
pub mod Errors
pub mod Throttle
pub mod ThrottleSpec
pub mod NamespacedName
pub mod Reserved
pub mod Slices
pub mod Selector
pub mod Controller
pub mod ThrottleController
pub mod ClusterThrottleController
pub mod Plugin
pub mod Metrics
pub mod ApiGroup
mod Tests
