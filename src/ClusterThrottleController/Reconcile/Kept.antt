-- ===== src/ClusterThrottleController/Reconcile/Kept.antt =====
-- What `reconcile` of clusterthrottle_controller.go can do to the cache of reserved amounts.
use kube_throttler.Prelude.{String, ◌≡◌, sym, subst, List, ◌++◌, arith, Bool-cases, inl, inr}
use kube_throttler.Prelude.Lists.{for_each_inv}
use kube_throttler.Quantity.{Quantity}
use kube_throttler.Errors.{Result-cases}
use kube_throttler.Pod.{Pod}
use kube_throttler.Throttle.{ClusterThrottle, Time}
use kube_throttler.Reserved.{ReservedResourceAmounts}
use kube_throttler.Reserved.Moves.{IsWellFormed, remove_pod-IsWellFormed}
use kube_throttler.ClusterThrottleController.{
  ClusterEnvironment, ClusterState, nn_of, affected_pods, un_reserve_on_cluster_throttle,
}
use kube_throttler.ThrottleController.Reconcile.{is_not_found}
use kube_throttler.ClusterThrottleController.Reconcile.{
  new_status, unreserve_affected_pods, wake_up, update_changed, keep_unchanged, reconcile_throttle,
  reconcile,
}

module _ {Q L Store : Type 0} ⦃q : Quantity Q⦄ (env : ClusterEnvironment Q L Store) where
  pub wake_up-cache :
      (now : Time) (thr : ClusterThrottle Q L) (s : ClusterState Q L Store)
      → (wake_up env now thr s).1.cache ≡ s.cache
  unfolding wake_up
  wake_up-cache now thr s = ground arith

  unreserve_affected_pods-IsWellFormed :
      (thr : ClusterThrottle Q L) (pods : List (Pod Q)) (c : ReservedResourceAmounts Q)
      → IsWellFormed c
      → IsWellFormed (unreserve_affected_pods env thr pods c)
  unfolding unreserve_affected_pods un_reserve_on_cluster_throttle
  unreserve_affected_pods-IsWellFormed thr =
      for_each_inv IsWellFormed (λ p c'. (un_reserve_on_cluster_throttle env p thr c').0)
        (λ p c. remove_pod-IsWellFormed c (nn_of thr) p)

  update_changed-IsWellFormed :
      (now : Time) (thr : ClusterThrottle Q L) (pods : List (Pod Q)) (s : ClusterState Q L Store)
      → IsWellFormed s.cache
      → IsWellFormed (update_changed env now thr pods s).1.cache
  unfolding update_changed
  update_changed-IsWellFormed now thr pods s w = elim (Result-cases (env.update_status thr)) [
    | inr (e, failed) ↦ rw (failed, update_changed) w
    | inl (updated, sent) ↦
        rw (sent, update_changed)
          (subst IsWellFormed (sym (wake_up-cache now updated _))
            (unreserve_affected_pods-IsWellFormed updated pods s.cache w))
  ]

  reconcile_throttle-IsWellFormed :
      (now : Time) (thr : ClusterThrottle Q L) (pods : List (Pod Q) × List (Pod Q))
      (s : ClusterState Q L Store)
      → IsWellFormed s.cache
      → IsWellFormed (reconcile_throttle env now thr pods s).1.cache
  unfolding reconcile_throttle keep_unchanged
  reconcile_throttle-IsWellFormed now thr pods s w =
      elim (Bool-cases (env.same_status thr.status (new_status env now thr pods.0))) [
        | inl same ↦
            rw (same, reconcile_throttle)
              (subst IsWellFormed (sym (wake_up-cache now thr _))
                (unreserve_affected_pods-IsWellFormed thr (pods.0 ++ pods.1) s.cache w))
        | inr differs ↦
            rw (differs, reconcile_throttle)
              (update_changed-IsWellFormed now
                (record thr { status = new_status env now thr pods.0 }) (pods.0 ++ pods.1) s w)
      ]

  pub reconcile-IsWellFormed :
      (now : Time) (key : String) (s : ClusterState Q L Store)
      → IsWellFormed s.cache
      → IsWellFormed (reconcile env now key s).1.cache
  unfolding reconcile
  reconcile-IsWellFormed now key s w = elim (Result-cases (env.split_key key)) [
    | inr (e, bad) ↦ rw (bad, reconcile) w
    | inl ((_, name), split) ↦ elim (Result-cases (env.get_throttle s.throttles name)) [
      | inr (e, missing) ↦ elim (Bool-cases (is_not_found e)) [
        | inl gone ↦ rw (split, missing, gone, reconcile) w
        | inr failed ↦ rw (split, missing, failed, reconcile) w
      ]
      | inl (thr, there) ↦ elim (Result-cases (affected_pods env thr)) [
        | inr (e, failed) ↦ rw (split, there, failed, reconcile) w
        | inl (pods, found) ↦
            rw (split, there, found, reconcile) (reconcile_throttle-IsWellFormed now thr pods s w)
      ]
    ]
  ]
