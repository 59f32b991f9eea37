-- ===== src/Plugin/RoundTrip.antt =====
-- `Reserve` and `Unreserve` of plugin.go, over both controllers.
use kube_throttler.Prelude.{string_eq, ◌≡◌, ◌∙◌, ap, none, List, arith}
use kube_throttler.Prelude.Lists.{All}
use kube_throttler.Quantity.{Quantity}
use kube_throttler.Errors.{ok}
use kube_throttler.Pod.{Pod}
use kube_throttler.NamespacedName.{NamespacedName, nn_eq, nn_of_pod}
use kube_throttler.Throttle.{Throttle, ClusterThrottle}
use kube_throttler.Reserved.Ledger.{entry}
use kube_throttler.ThrottleController
use kube_throttler.ThrottleController.{Environment, affected_throttles}
use kube_throttler.ThrottleController.Reservations.{un_reserve-reserve, entry-reserve}
use kube_throttler.ClusterThrottleController
use kube_throttler.ClusterThrottleController.{ClusterEnvironment, affected_cluster_throttles}
use kube_throttler.ClusterThrottleController.Reservations.{
  cluster_un_reserve-reserve, cluster_entry-reserve,
}
use kube_throttler.Plugin.{KubeThrottler, success, reserve, unreserve}
use kube_throttler.Plugin.Scheduling.Verdicts.{unreserve-caches}

module _ {Q L Store ClusterStore : Type 0} ⦃q : Quantity Q⦄ (env : Environment Q L Store)
    (cluster_env : ClusterEnvironment Q L ClusterStore) (pod : Pod Q)
    (pl : KubeThrottler Q L Store ClusterStore) where
  -- If the throttles and the cluster throttles that concern a pod are found, and nothing is reserved
  -- for it on them, then `Reserve` returns success and `Unreserve` takes back what it has done: in
  -- both controllers every entry is as it was before.
  pub unreserve-reserve :
      (throttles : List (Throttle Q L)) (cluster_throttles : List (ClusterThrottle Q L))
      (pod_nn nn : NamespacedName)
      → affected_throttles env pl.throttle_ctr.throttles pod ≡ ok throttles
      → affected_cluster_throttles cluster_env pl.cluster_throttle_ctr.throttles pod
        ≡ ok cluster_throttles
      → All
          (λ thr. entry (nn_of_pod pod) (ThrottleController.nn_of thr) pl.throttle_ctr.cache ≡ none)
          throttles
      → All
          (λ thr.
            entry
              (nn_of_pod pod)
              (ClusterThrottleController.nn_of thr)
              pl.cluster_throttle_ctr.cache
            ≡ none)
          cluster_throttles
      → let pl' = (reserve env cluster_env pod pl).1 in
        let pl'' = unreserve env cluster_env pod pl' in
        ((reserve env cluster_env pod pl).0 ≡ success)
        × (entry pod_nn nn pl''.throttle_ctr.cache ≡ entry pod_nn nn pl.throttle_ctr.cache)
        × (entry pod_nn nn pl''.cluster_throttle_ctr.cache
            ≡ entry pod_nn nn pl.cluster_throttle_ctr.cache)
  unfolding reserve
  unreserve-reserve throttles cluster_throttles pod_nn nn found cluster_found free cluster_free =
      let back = unreserve-caches env cluster_env pod (reserve env cluster_env pod pl).1 in
      (
        ground (
          arith,
          (entry-reserve env pod pl.throttle_ctr throttles pod_nn nn found).0,
          (cluster_entry-reserve cluster_env pod pl.cluster_throttle_ctr cluster_throttles pod_nn nn
              cluster_found).0,
        ),
        ap (entry pod_nn nn) back.0
            ∙ un_reserve-reserve env pod pl.throttle_ctr throttles pod_nn nn found free,
        ap (entry pod_nn nn) back.1
            ∙ cluster_un_reserve-reserve cluster_env pod pl.cluster_throttle_ctr cluster_throttles
                pod_nn nn cluster_found cluster_free,
      )
