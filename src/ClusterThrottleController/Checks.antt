-- ===== src/ClusterThrottleController/Checks.antt =====
-- What `CheckThrottled` of clusterthrottle_controller.go returns.
use kube_throttler.Prelude.{Bool, List, [], ◌∷◌, ◌++◌, ◌≡◌, refl, ◌∙◌, ap, if◌then◌else◌}
use mathlib.Core.List.{append_assoc, append-nil}
use kube_throttler.Prelude.Lists.{for_each, select}
use kube_throttler.Quantity.{Quantity}
use kube_throttler.Errors.{ok, ◌>>=◌}
use kube_throttler.Pod.{Pod}
use kube_throttler.Throttle.{
  ClusterThrottle, CheckThrottleStatus, not_throttled, active, insufficient,
  pod_requests_exceeds_threshold,
}
use kube_throttler.Reserved.{ReservedResourceAmounts}
use kube_throttler.ThrottleController.Checks.{is_status}
use kube_throttler.ClusterThrottleController.{
  ClusterEnvironment, ClusterState, ClusterChecked, affected_cluster_throttles, check_on, place,
  check_one, check_throttled,
}

module _ {Q L Store : Type 0} ⦃q : Quantity Q⦄ (env : ClusterEnvironment Q L Store)
    (c : ReservedResourceAmounts Q) (pod : Pod Q) (on_equal : Bool) where
  abbrev pub says : CheckThrottleStatus → ClusterThrottle Q L → Bool
  says status thr = is_status status (check_on env c pod on_equal thr)

  -- the throttles sorted by what they say of the pod, after what there is
  abbrev pub sorted_after : List (ClusterThrottle Q L) → ClusterChecked Q L → ClusterChecked Q L
  sorted_after throttles r = record {
    already_throttled = r.already_throttled ++ select (says active) throttles;
    insufficient_ones = r.insufficient_ones ++ select (says insufficient) throttles;
    exceeding = r.exceeding ++ select (says pod_requests_exceeds_threshold) throttles;
    affected = r.affected ++ throttles;
  }

  sorted_after-place :
      (thr : ClusterThrottle Q L) (throttles : List (ClusterThrottle Q L)) (r : ClusterChecked Q L)
      (s : CheckThrottleStatus)
      → let picked : CheckThrottleStatus → List (ClusterThrottle Q L) = λ status.
        if is_status status s
        then thr ∷ select (says status) throttles
        else select (says status) throttles in
        sorted_after throttles (place thr (record r { affected = r.affected ++ thr ∷ [] }) s)
        ≡ record {
          already_throttled = r.already_throttled ++ picked active;
          insufficient_ones = r.insufficient_ones ++ picked insufficient;
          exceeding = r.exceeding ++ picked pod_requests_exceeds_threshold;
          affected = r.affected ++ thr ∷ throttles;
        }
  unfolding place
  sorted_after-place thr throttles r active =
      rw
        (
          append_assoc r.affected (thr ∷ []) throttles,
          append_assoc r.already_throttled (thr ∷ []) (select (says active) throttles),
        )
        refl
  sorted_after-place thr throttles r insufficient =
      rw
        (
          append_assoc r.affected (thr ∷ []) throttles,
          append_assoc r.insufficient_ones (thr ∷ []) (select (says insufficient) throttles),
        )
        refl
  sorted_after-place thr throttles r pod_requests_exceeds_threshold =
      rw
        (
          append_assoc r.affected (thr ∷ []) throttles,
          append_assoc r.exceeding (thr ∷ [])
              (select (says pod_requests_exceeds_threshold) throttles),
        )
        refl
  sorted_after-place thr throttles r not_throttled =
      rw (append_assoc r.affected (thr ∷ []) throttles) refl

  check_one-for_each :
      (throttles : List (ClusterThrottle Q L)) (r : ClusterChecked Q L)
      → for_each throttles r (check_one env c pod on_equal) ≡ sorted_after throttles r
  unfolding for_each select check_one
  check_one-for_each [] r =
      rw
        (
          append-nil r.affected,
          append-nil r.already_throttled,
          append-nil r.insufficient_ones,
          append-nil r.exceeding,
        )
        refl
  check_one-for_each (thr ∷ throttles) r =
      check_one-for_each throttles (check_one env c pod on_equal thr r)
      ∙ sorted_after-place thr throttles r (check_on env c pod on_equal thr)

module _ {Q L Store : Type 0} ⦃q : Quantity Q⦄ (env : ClusterEnvironment Q L Store) where
  -- If the cluster throttles that concern a pod are found, then `CheckThrottled` returns all of them, and,
  -- each in the order in which they were found, those that say `active`, those that say
  -- `insufficient` and those that say that the pod exceeds their threshold.
  pub cluster_check_throttled_lem :
      (s : ClusterState Q L Store) (pod : Pod Q) (on_equal : Bool)
      (throttles : List (ClusterThrottle Q L))
      → affected_cluster_throttles env s.throttles pod ≡ ok throttles
      → check_throttled env s pod on_equal
        ≡ ok (record {
          already_throttled = select (says env s.cache pod on_equal active) throttles;
          insufficient_ones = select (says env s.cache pod on_equal insufficient) throttles;
          exceeding =
              select (says env s.cache pod on_equal pod_requests_exceeds_threshold) throttles;
          affected = throttles;
        })
  unfolding check_throttled
  cluster_check_throttled_lem s pod on_equal throttles found =
      rw (found, ◌>>=◌)
        (ap ok (
          check_one-for_each env s.cache pod on_equal throttles (record {
            already_throttled = [];
            insufficient_ones = [];
            exceeding = [];
            affected = [];
          })))
