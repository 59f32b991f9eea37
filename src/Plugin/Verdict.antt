-- ===== src/Plugin/Verdict.antt =====
-- The verdict of the plugin on a pod, `PreFilter` of plugin.go, by what each throttle says.
use kube_throttler.Prelude.{
  false, List, [], ◌∷◌, ◌+◌, ◌≡◌, refl, sym, ◌∙◌, ap, ◌⊎◌, inl, inr, ◌↔◌, arith,
}
use kube_throttler.Prelude.Lists.{length, All}
use kube_throttler.Quantity.{Quantity}
use kube_throttler.Errors.{Error, ok, err}
use kube_throttler.Pod.{Pod}
use kube_throttler.Throttle.{Throttle, ClusterThrottle, not_throttled}
use kube_throttler.ThrottleController
use kube_throttler.ThrottleController.{Environment, Checked, affected_throttles}
use kube_throttler.ThrottleController.Checks.{check_throttled_lem, none_refused}
use kube_throttler.ClusterThrottleController
use kube_throttler.ClusterThrottleController.{
  ClusterEnvironment, ClusterChecked, affected_cluster_throttles,
}
use kube_throttler.ClusterThrottleController.Checks.{cluster_check_throttled_lem}
use kube_throttler.Plugin.{KubeThrottler, Status, success, error, judge, pre_filter}

module _ {Q L Store ClusterStore : Type 0} ⦃q : Quantity Q⦄ (env : Environment Q L Store)
    (cluster_env : ClusterEnvironment Q L ClusterStore) (pod : Pod Q)
    (pl : KubeThrottler Q L Store ClusterStore) where
  judge-success :
      (thr : Checked Q L) (clthr : ClusterChecked Q L)
      → ((judge env cluster_env pod thr clthr pl).0 ≡ success) ↔ (
          (length thr.already_throttled + length thr.insufficient_ones + length thr.exceeding ≡ 0)
          × (length clthr.already_throttled
                + length clthr.insufficient_ones
                + length clthr.exceeding
              ≡ 0))
  unfolding judge
  judge-success thr clthr = ground arith

  pre_filter-judge :
      (thr : Checked Q L) (clthr : ClusterChecked Q L)
      → ThrottleController.check_throttled env pl.throttle_ctr pod false ≡ ok thr
      → ClusterThrottleController.check_throttled cluster_env pl.cluster_throttle_ctr pod false
        ≡ ok clthr
      → pre_filter env cluster_env pod pl ≡ judge env cluster_env pod thr clthr pl
  unfolding pre_filter
  pre_filter-judge thr clthr e ce = rw (e, ce, pre_filter) refl

  -- If the throttles and the cluster throttles that concern a pod are found, then `PreFilter`
  -- returns success if and only if every one of them, with what is reserved on it, says that it
  -- does not throttle the pod.
  pub pre_filter-success_iff :
      (throttles : List (Throttle Q L)) (cluster_throttles : List (ClusterThrottle Q L))
      → affected_throttles env pl.throttle_ctr.throttles pod ≡ ok throttles
      → affected_cluster_throttles cluster_env pl.cluster_throttle_ctr.throttles pod
        ≡ ok cluster_throttles
      → ((pre_filter env cluster_env pod pl).0 ≡ success) ↔ (
          All
            (λ thr.
              ThrottleController.check_on env pl.throttle_ctr.cache pod false thr ≡ not_throttled)
            throttles
          × All
              (λ thr.
                ClusterThrottleController.check_on cluster_env pl.cluster_throttle_ctr.cache pod
                  false thr
                ≡ not_throttled)
              cluster_throttles)
  pre_filter-success_iff throttles cluster_throttles found cluster_found =
      let n =
        none_refused (ThrottleController.check_on env pl.throttle_ctr.cache pod false) throttles in
      let m =
        none_refused
          (ClusterThrottleController.check_on cluster_env pl.cluster_throttle_ctr.cache pod false)
          cluster_throttles in
      let e = check_throttled_lem env pl.throttle_ctr pod false throttles found in
      let ce =
        cluster_check_throttled_lem cluster_env pl.cluster_throttle_ctr pod false cluster_throttles
          cluster_found in
      let verdict =
        ap (λ (r : Status × KubeThrottler Q L Store ClusterStore). r.0)
          (pre_filter-judge _ _ e ce) in
      let j = judge-success _ _ in
      (
        (λ h. (let (a, b) = j.0 (sym verdict ∙ h) in (n.0 a, m.0 b))),
        λ h. verdict ∙ j.1 (n.1 h.0, m.1 h.1),
      )

  -- If one of the two controllers cannot check the pod, `PreFilter` returns an error status with
  -- that error, the throttle controller's before the other's, and records no event.
  pub pre_filter-error :
      (e : Error)
      → (ThrottleController.check_throttled env pl.throttle_ctr pod false ≡ err e)
        ⊎ ((thr : Checked Q L) × (ThrottleController.check_throttled env pl.throttle_ctr pod false
              ≡ ok thr)
            × (ClusterThrottleController.check_throttled cluster_env pl.cluster_throttle_ctr pod
                  false
                ≡ err e))
      → pre_filter env cluster_env pod pl ≡ (error (e ∷ []), pl)
  unfolding pre_filter
  pre_filter-error e (inl h) = rw (h, pre_filter) refl
  pre_filter-error e (inr (thr, t, h)) = rw (t, h, pre_filter) refl
