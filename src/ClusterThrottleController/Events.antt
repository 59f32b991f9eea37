-- ===== src/ClusterThrottleController/Events.antt =====
-- All that happens to a controller of clusterthrottle_controller.go: the calls of the plugin, the
-- handlers that the informers call, the rounds of its workers, and what the informers write to the
-- store that its lister reads.
pub mod Reached
use kube_throttler.Prelude.{Bool, Option}
use kube_throttler.Quantity.{Quantity}
use kube_throttler.Pod.{Pod}
use kube_throttler.Throttle.{ClusterThrottle, Time}
use kube_throttler.Controller.{Item, Log}
use kube_throttler.Controller.Worker.{process_next_work_item}
use kube_throttler.ClusterThrottleController.{ClusterEnvironment, ClusterState, reserve, un_reserve}
use kube_throttler.ClusterThrottleController.Reconcile.{reconcile}
use kube_throttler.ClusterThrottleController.Handlers.{
  on_throttle_event, on_pod_add, on_pod_update, on_pod_delete,
}

abbrev pub on_log :
    {Q L Store : Type 0} → (Log → Log) → ClusterState Q L Store → ClusterState Q L Store
on_log f s = record s { log = f s.log }

module _ {Q L Store : Type 0} ⦃q : Quantity Q⦄ (env : ClusterEnvironment Q L Store) where
  -- a worker's round, with the item that the queue gives it
  abbrev pub work : Time → Option Item → ClusterState Q L Store → Bool × ClusterState Q L Store
  work now = process_next_work_item (reconcile env now) on_log

-- The libraries may answer otherwise at each event: the pod lister reads what is new, and the client
-- may fail.
pub data Event {Q L Store : Type 0} ⦃q : Quantity Q⦄
    : ClusterState Q L Store → ClusterState Q L Store → Type 0 where
  reserved :
      (env : ClusterEnvironment Q L Store) (pod : Pod Q) (s : ClusterState Q L Store)
      → Event s (reserve env pod s).1
  unreserved :
      (env : ClusterEnvironment Q L Store) (pod : Pod Q) (s : ClusterState Q L Store)
      → Event s (un_reserve env pod s).1
  pod_added :
      (env : ClusterEnvironment Q L Store) (pod : Pod Q) (s : ClusterState Q L Store)
      → Event s (on_pod_add env pod s)
  pod_updated :
      (env : ClusterEnvironment Q L Store) (old_pod new_pod : Pod Q) (s : ClusterState Q L Store)
      → Event s (on_pod_update env old_pod new_pod s)
  pod_deleted :
      (env : ClusterEnvironment Q L Store) (pod : Pod Q) (s : ClusterState Q L Store)
      → Event s (on_pod_delete env pod s)
  throttle_changed :
      (env : ClusterEnvironment Q L Store) (thr : ClusterThrottle Q L) (s : ClusterState Q L Store)
      → Event s (on_throttle_event env thr s)
  worked :
      (env : ClusterEnvironment Q L Store) (now : Time) (obj : Option Item)
      (s : ClusterState Q L Store)
      → Event s (work env now obj s).1
  informed : (store : Store) (s : ClusterState Q L Store) → Event s (record s { throttles = store })
