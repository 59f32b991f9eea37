-- ===== src/Plugin/Scheduling.antt =====
-- The order in which the scheduler's framework and the informers call the plugin of plugin.go. One
-- pod at a time is in its scheduling cycle: `PreFilter`, and `Reserve` when neither it nor another
-- plugin refuses the pod. `Unreserve` and the handlers of pod events may run between the two. The
-- throttles and their statuses stay as they are, so there is no round of a worker, and pods that are
-- updated keep their labels: the handler of an update that changes them reserves the pod on the
-- throttles that now concern it without a check.
pub mod Verdicts
pub mod Budget
pub mod ClusterBudget
use kube_throttler.Prelude.{String, Option, none, some, ◌≡◌}
use kube_throttler.Quantity.{Quantity}
use kube_throttler.Pod.{Pod}
use kube_throttler.ThrottleController.{Environment}
use kube_throttler.ThrottleController.Handlers
use kube_throttler.ClusterThrottleController.{ClusterEnvironment}
use kube_throttler.ClusterThrottleController.Handlers as ClusterHandlers
use kube_throttler.Plugin.{KubeThrottler, success, pre_filter, reserve, unreserve}

-- The plugin, and the pod that `PreFilter` has let through and that waits for its `Reserve`.
pub record Scheduler (Q L Store ClusterStore : Type 0) : Type 0 where
  pub waiting : Option (Pod Q)
  pub plugin : KubeThrottler Q L Store ClusterStore

module _ {Q L Store ClusterStore : Type 0} ⦃q : Quantity Q⦄ (env : Environment Q L Store)
    (cluster_env : ClusterEnvironment Q L ClusterStore) where
  -- both controllers get the event
  abbrev pub pod_added :
      Pod Q → KubeThrottler Q L Store ClusterStore → KubeThrottler Q L Store ClusterStore
  pod_added pod pl = record pl {
    throttle_ctr = Handlers.on_pod_add env pod pl.throttle_ctr;
    cluster_throttle_ctr = ClusterHandlers.on_pod_add cluster_env pod pl.cluster_throttle_ctr;
  }

  abbrev pub pod_deleted :
      Pod Q → KubeThrottler Q L Store ClusterStore → KubeThrottler Q L Store ClusterStore
  pod_deleted pod pl = record pl {
    throttle_ctr = Handlers.on_pod_delete env pod pl.throttle_ctr;
    cluster_throttle_ctr = ClusterHandlers.on_pod_delete cluster_env pod pl.cluster_throttle_ctr;
  }

  abbrev pub pod_updated :
      Pod Q → Pod Q → KubeThrottler Q L Store ClusterStore → KubeThrottler Q L Store ClusterStore
  pod_updated old_pod new_pod pl = record pl {
    throttle_ctr = Handlers.on_pod_update env old_pod new_pod pl.throttle_ctr;
    cluster_throttle_ctr =
        ClusterHandlers.on_pod_update cluster_env old_pod new_pod pl.cluster_throttle_ctr;
  }

  -- A step. `Admitted` says which pods the API server lets in.
  pub data Cycle (Admitted : Pod Q → Type 0)
      : Scheduler Q L Store ClusterStore → Scheduler Q L Store ClusterStore → Type 0 where
    let_through :
        (pod : Pod Q) (pl : KubeThrottler Q L Store ClusterStore)
        → Admitted pod
        → (pre_filter env cluster_env pod pl).0 ≡ success
        → Cycle Admitted
            (record { waiting = none; plugin = pl })
            (record { waiting = some pod; plugin = (pre_filter env cluster_env pod pl).1 })
    refuse :
        (pod : Pod Q) (pl : KubeThrottler Q L Store ClusterStore)
        → Cycle Admitted
            (record { waiting = none; plugin = pl })
            (record { waiting = none; plugin = (pre_filter env cluster_env pod pl).1 })
    give_up :
        (pod : Pod Q) (pl : KubeThrottler Q L Store ClusterStore)
        → Cycle Admitted
            (record { waiting = some pod; plugin = pl })
            (record { waiting = none; plugin = pl })
    take :
        (pod : Pod Q) (pl : KubeThrottler Q L Store ClusterStore)
        → Cycle Admitted
            (record { waiting = some pod; plugin = pl })
            (record { waiting = none; plugin = (reserve env cluster_env pod pl).1 })
    release :
        (w : Option (Pod Q)) (pod : Pod Q) (pl : KubeThrottler Q L Store ClusterStore)
        → Cycle Admitted
            (record { waiting = w; plugin = pl })
            (record { waiting = w; plugin = unreserve env cluster_env pod pl })
    add :
        (w : Option (Pod Q)) (pod : Pod Q) (pl : KubeThrottler Q L Store ClusterStore)
        → Cycle Admitted
            (record { waiting = w; plugin = pl })
            (record { waiting = w; plugin = pod_added pod pl })
    update :
        (w : Option (Pod Q)) (old_pod new_pod : Pod Q) (pl : KubeThrottler Q L Store ClusterStore)
        → old_pod.labels ≡ new_pod.labels
        → old_pod.namespace ≡ new_pod.namespace
        → Cycle Admitted
            (record { waiting = w; plugin = pl })
            (record { waiting = w; plugin = pod_updated old_pod new_pod pl })
    delete :
        (w : Option (Pod Q)) (pod : Pod Q) (pl : KubeThrottler Q L Store ClusterStore)
        → Cycle Admitted
            (record { waiting = w; plugin = pl })
            (record { waiting = w; plugin = pod_deleted pod pl })
