-- ===== src/ClusterThrottleController/Handlers/Kept.antt =====
-- What the handlers of clusterthrottle_controller.go do to the cache of reserved amounts.
use kube_throttler.Prelude.{◌≡◌, arith, if◌then◌else◌}
use kube_throttler.Quantity.{Quantity}
use kube_throttler.Pod.{Pod, is_scheduled}
use kube_throttler.Throttle.{ClusterThrottle}
use kube_throttler.ClusterThrottleController.{
  ClusterEnvironment, ClusterState, should_count_in, reserve, un_reserve,
}
use kube_throttler.ClusterThrottleController.Handlers.{
  enqueue_affected, on_throttle_event, on_pod_add, on_pod_delete, release_deleted,
}

module _ {Q L Store : Type 0} ⦃q : Quantity Q⦄ (env : ClusterEnvironment Q L Store) where
  enqueue_affected-kept :
      (pod : Pod Q) (s : ClusterState Q L Store)
      → ((enqueue_affected env pod s).cache ≡ s.cache)
        × ((enqueue_affected env pod s).throttles ≡ s.throttles)
  unfolding enqueue_affected
  enqueue_affected-kept pod s = (ground arith, ground arith)

  pub reserve-throttles :
      (pod : Pod Q) (s : ClusterState Q L Store) → (reserve env pod s).1.throttles ≡ s.throttles
  unfolding reserve
  reserve-throttles pod s = ground arith

  pub un_reserve-throttles :
      (pod : Pod Q) (s : ClusterState Q L Store) → (un_reserve env pod s).1.throttles ≡ s.throttles
  unfolding un_reserve
  un_reserve-throttles pod s = ground arith

  pub on_throttle_event-kept :
      (thr : ClusterThrottle Q L) (s : ClusterState Q L Store)
      → ((on_throttle_event env thr s).cache ≡ s.cache)
        × ((on_throttle_event env thr s).throttles ≡ s.throttles)
  unfolding on_throttle_event
  on_throttle_event-kept thr s = (ground arith, ground arith)

  pub on_pod_add-kept :
      (pod : Pod Q) (s : ClusterState Q L Store)
      → ((on_pod_add env pod s).cache ≡ s.cache) × ((on_pod_add env pod s).throttles ≡ s.throttles)
  unfolding on_pod_add
  on_pod_add-kept pod s = (
    ground (arith, (enqueue_affected-kept pod s).0),
    ground (arith, (enqueue_affected-kept pod s).1),
  )

  release_deleted-kept :
      (pod : Pod Q) (s : ClusterState Q L Store)
      → ((release_deleted env pod s).cache
          ≡ (if is_scheduled pod then (un_reserve env pod s).1.cache else s.cache))
        × ((release_deleted env pod s).throttles ≡ s.throttles)
  unfolding release_deleted
  release_deleted-kept pod s = (ground arith, ground (arith, un_reserve-throttles pod s))

  -- The deletion of a pod that counts releases its reservations, and that of any other does nothing
  -- to the cache.
  pub on_pod_delete-kept :
      (pod : Pod Q) (s : ClusterState Q L Store)
      → ((on_pod_delete env pod s).cache
          ≡ (if should_count_in env pod then (un_reserve env pod s).1.cache else s.cache))
        × ((on_pod_delete env pod s).throttles ≡ s.throttles)
  unfolding on_pod_delete should_count_in
  on_pod_delete-kept pod s =
      let r = release_deleted-kept pod s in
      let k = enqueue_affected-kept pod (release_deleted env pod s) in
      (ground (arith, r.0, k.0), ground (arith, r.1, k.1))
