-- ===== src/Plugin/Scheduling/Verdicts.antt =====
-- What the calls of plugin.go leave of the two controllers.
use kube_throttler.Prelude.{◌≡◌, arith, inl, inr, List}
use kube_throttler.Quantity.{Quantity}
use kube_throttler.Errors.{ok, Result-cases}
use kube_throttler.Pod.{Pod}
use kube_throttler.Throttle.{Throttle, ClusterThrottle}
use kube_throttler.ThrottleController
use kube_throttler.ThrottleController.{Environment, State, Checked, affected_throttles}
use kube_throttler.ClusterThrottleController
use kube_throttler.ClusterThrottleController.{
  ClusterEnvironment, ClusterState, ClusterChecked, affected_cluster_throttles,
}
use kube_throttler.Plugin.{KubeThrottler, success, judge, pre_filter, unreserve}

module _ {Q L Store ClusterStore : Type 0} ⦃q : Quantity Q⦄ (env : Environment Q L Store)
    (cluster_env : ClusterEnvironment Q L ClusterStore) (pod : Pod Q)
    (pl : KubeThrottler Q L Store ClusterStore) where
  -- `PreFilter` changes neither controller.
  pub pre_filter-controllers :
      ((pre_filter env cluster_env pod pl).1.throttle_ctr ≡ pl.throttle_ctr)
      × ((pre_filter env cluster_env pod pl).1.cluster_throttle_ctr ≡ pl.cluster_throttle_ctr)
  unfolding pre_filter judge
  pre_filter-controllers = (ground arith, ground arith)

  -- `PreFilter` lets a pod through only if both controllers have found what concerns it.
  pub pre_filter-found :
      (pre_filter env cluster_env pod pl).0 ≡ success
      → ((throttles : List (Throttle Q L)) × (affected_throttles env pl.throttle_ctr.throttles pod
            ≡ ok throttles))
        × ((cluster_throttles : List (ClusterThrottle Q L)) × (affected_cluster_throttles
                cluster_env pl.cluster_throttle_ctr.throttles pod
              ≡ ok cluster_throttles))
  unfolding pre_filter ThrottleController.check_throttled ClusterThrottleController.check_throttled
  pre_filter-found h = elim (Result-cases (affected_throttles env pl.throttle_ctr.throttles pod)) [
    | inr (e, failed) ↦ absurd (ground arith)
    | inl found ↦
        elim (Result-cases
          (affected_cluster_throttles cluster_env pl.cluster_throttle_ctr.throttles pod)) [
            | inr (e, failed) ↦ absurd (ground arith)
            | inl cluster_found ↦ (found, cluster_found)
          ]
  ]

  -- `Unreserve` leaves in each cache what the controller's `UnReserve` leaves there.
  pub unreserve-caches :
      ((unreserve env cluster_env pod pl).throttle_ctr.cache
        ≡ (ThrottleController.un_reserve env pod pl.throttle_ctr).1.cache)
      × ((unreserve env cluster_env pod pl).cluster_throttle_ctr.cache
          ≡ (ClusterThrottleController.un_reserve cluster_env pod pl.cluster_throttle_ctr).1.cache)
  unfolding unreserve
  unreserve-caches = (ground arith, ground arith)
