-- ===== src/Plugin/Start.antt =====
-- `NewPlugin`, `Name`, `PreFilterExtensions` and `EventsToRegister` of
-- pkg/scheduler_plugin/plugin.go: how the plugin starts. The clients, the informers and the
-- framework are parameters. The state of a controller is the one that it is made with: what event
-- handlers do to it between the start of the informers and the return of `NewPlugin` comes after, as
-- steps of the controller (Events of each controller).
pub mod Started
use kube_throttler.Prelude.{
  String, Bool, true, false, not, Option, none, List, [], ◌∷◌, ◌++◌, if◌then◌else◌,
}
use kube_throttler.Prelude.Int.{ℤ}
use kube_throttler.Errors.{Error, message, Result, ok, err, or_die, ◌>>=◌}
use kube_throttler.ApiGroup.{GroupVersion, scheme_group_version}
use kube_throttler.Controller.{ControllerBase, start}
use kube_throttler.Metrics.{Prometheus}
use kube_throttler.ThrottleController.{Environment}
use kube_throttler.ThrottleController.Construct.{ThrottleController, new_throttle_controller}
use kube_throttler.ClusterThrottleController.{ClusterEnvironment}
use kube_throttler.ClusterThrottleController.Construct.{
  ClusterThrottleController, new_cluster_throttle_controller,
}
use kube_throttler.Plugin.{KubeThrottler, KubeThrottlerPluginArgs, decode_plugin_args}

abbrev pub plugin_name : String
plugin_name = "kube-throttler"

-- What `NewPlugin` calls. A `C` is a client configuration; the libraries that are made of it, and
-- what its informers hold at the start, depend on it.
pub record Host (Q L Store ClusterStore G F C : Type 0) : Type 0 where
  pub num_cpu : ℤ
  pub build_config_from_flags : String → String → Result C
  -- `NewForConfig` of the client set of the throttles and of that of Kubernetes, by its error
  pub schedule_client : C → Result (Unit {0})
  pub kubernetes_client : C → Result (Unit {0})
  pub libraries : C → Environment Q L Store
  pub cluster_libraries : C → ClusterEnvironment Q L ClusterStore
  pub store : C → Store
  pub cluster_store : C → ClusterStore
  -- what the two calls of `WaitForCacheSync` return: an informer, and whether its cache has synced
  pub schedule_caches : C → List (String × Bool)
  pub core_caches : C → List (String × Bool)
  pub prometheus : Prometheus G F Q

-- The plugin that runs, with its workers and what its controllers were made with.
pub record Running (Q L Store ClusterStore G : Type 0) : Type 0 where
  pub throttle_controller : ThrottleController Q L Store G
  pub cluster_throttle_controller : ClusterThrottleController Q L ClusterStore G
  pub plugin : KubeThrottler Q L Store ClusterStore
  pub gauges : List G
  pub workers : List ControllerBase

-- `for informer, ok := range syncResults { … }`
unfoldable pub check_synced : List (String × Bool) → Result (Unit {0})
check_synced [] = ok tt
check_synced ((informer, synced) ∷ rest) =
    if not synced then err (message "failed to wait for caches to sync") else check_synced rest

-- A Go function with an error as its second result, and the workers that it has started.
abbrev pub and_start :
    {A : Type 0}
    → Result (Unit {0}) × List ControllerBase
    → (List ControllerBase → Result A)
    → Result A
and_start (ok u, workers) f = f workers
and_start (err e, workers) f = err e

-- the last part of `NewPlugin`
unfoldable pub start_controllers :
    {Q L Store ClusterStore G : Type 0}
    → ThrottleController Q L Store G
    → ClusterThrottleController Q L ClusterStore G
    → List G
    → Result (Running Q L Store ClusterStore G)
unfolding start
start_controllers throttle_controller cluster_throttle_controller gauges =
    and_start (start throttle_controller.base []) λ workers.
      and_start (start cluster_throttle_controller.base workers) λ workers'. ok (record {
        throttle_controller = throttle_controller;
        cluster_throttle_controller = cluster_throttle_controller;
        plugin = record {
          throttle_ctr = throttle_controller.state;
          cluster_throttle_ctr = cluster_throttle_controller.state;
          events = [];
        };
        gauges = gauges;
        workers = workers';
      })

module _ {Q L Store ClusterStore G F C : Type 0} (host : Host Q L Store ClusterStore G F C) where
  -- both controllers, and the gauges that they have registered
  unfoldable pub new_controllers :
      KubeThrottlerPluginArgs
      → C
      → ThrottleController Q L Store G × ClusterThrottleController Q L ClusterStore G × List G
  unfolding new_throttle_controller new_cluster_throttle_controller
  new_controllers args rest_config =
      let (throttle_controller, gauges) =
        new_throttle_controller host.prometheus args.name args.target_scheduler_name
          args.reconcile_temporary_threshold_interval (host.libraries rest_config)
          (host.store rest_config) args.controller_threadiness args.num_key_mutex [] in
      let (cluster_throttle_controller, gauges') =
        new_cluster_throttle_controller host.prometheus args.name args.target_scheduler_name
          args.reconcile_temporary_threshold_interval (host.cluster_libraries rest_config)
          (host.cluster_store rest_config) args.controller_threadiness args.num_key_mutex gauges in
      (throttle_controller, cluster_throttle_controller, gauges')

  unfoldable pub new_plugin :
      Result KubeThrottlerPluginArgs → Result (Running Q L Store ClusterStore G)
  unfolding decode_plugin_args new_controllers check_synced start_controllers
  new_plugin configuration = do
    args ← decode_plugin_args host.num_cpu configuration
    rest_config ← host.build_config_from_flags "" args.kube_config
    _ ← or_die (host.schedule_client rest_config)
    _ ← or_die (host.kubernetes_client rest_config)
    let (throttle_controller, cluster_throttle_controller, gauges) =
        new_controllers args rest_config
    _ ← check_synced (host.schedule_caches rest_config)
    _ ← check_synced (host.core_caches rest_config)
    start_controllers throttle_controller cluster_throttle_controller gauges

-- `nil`: there are no extensions
abbrev pub pre_filter_extensions : Option String
pre_filter_extensions = none

-- `framework.GVK`s, with `framework.All` as the action; `gvk` is `fmt.Sprintf("%v.%v.%v", …)`.
pub data EventResource : Type 0 where
  node : EventResource
  pod : EventResource
  gvk : String → GroupVersion → EventResource

unfoldable pub events_to_register : List EventResource
events_to_register =
    node
    ∷ pod
    ∷ gvk "throttles" scheme_group_version
    ∷ gvk "clusterthrottles" scheme_group_version
    ∷ []
