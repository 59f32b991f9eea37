-- ===== src/ThrottleController/Reconcile/Status.antt =====
-- The status that `reconcile` of throttle_controller.go computes, by the pods that it counts.
use kube_throttler.Prelude.{
  string_eq, ℕ, suc, ◌+◌, ◌<◌, ◌^◌, String, ◌≡◌, refl, ◌∙◌, ap, true, Option, none, List, [], ◌∷◌,
  arith,
}
use mathlib.Core.Path.{ap₂}
use kube_throttler.Prelude.Int.{ℤ, ◌+ℤ◌}
use kube_throttler.Prelude.GoMap.{get, IsMap}
use kube_throttler.Prelude.Lists.{length, for_each}
use kube_throttler.Quantity.{Quantity}
use kube_throttler.Pod.{Pod}
use kube_throttler.ResourceList.Entries.{amount_of, join}
use kube_throttler.ResourceAmount.{
  ResourceAmount, no_amount, add, resource_amount_of_pod, is_throttled,
}
use kube_throttler.ResourceAmount.Throttled.{
  count_of, count_exceeded, exceeded, flag_at, flag-is_throttled,
}
use kube_throttler.ResourceAmount.Amounts.{add64, count-add, request-add, request_of_pod-IsMap}
use kube_throttler.Reserved.Total.{number, number_step, pod_amount}
use kube_throttler.Throttle.{Throttle, Time}
use kube_throttler.ThrottleController.{Environment}
use kube_throttler.ThrottleController.Reconcile.{used_by, new_status}

module _ {Q : Type 0} ⦃q : Quantity Q⦄ where
  -- What a row of pods asks for, on top of `o`; nothing where no pod names the resource.
  abbrev pub sum_asked : String → Option ℤ → List (Pod Q) → Option ℤ
  sum_asked name o [] = o
  sum_asked name o (pod ∷ pods) =
      sum_asked name (join ◌+ℤ◌ o (amount_of name (resource_amount_of_pod pod).resource_requests))
        pods

  abbrev count_in : Pod Q → ResourceAmount Q → ResourceAmount Q
  count_in pod used = add used (resource_amount_of_pod pod)

  used_loop :
      (name : String) (pods : List (Pod Q)) (used : ResourceAmount Q)
      → amount_of name (for_each pods used count_in).resource_requests
        ≡ sum_asked name (amount_of name used.resource_requests) pods
  unfolding for_each
  used_loop name [] used = refl
  used_loop name (pod ∷ pods) used =
      used_loop name pods (count_in pod used)
      ∙ ap (λ o. sum_asked name o pods)
          (request-add used (resource_amount_of_pod pod) name (request_of_pod-IsMap pod))

  count_in-number :
      (pod : Pod Q) (used : ResourceAmount Q) (k : ℕ)
      → suc k < 2 ^ 63
      → count_of used.resource_counts ≡ number k
      → count_of (count_in pod used).resource_counts ≡ number (suc k)
  count_in-number pod used k lt e =
      count-add used (resource_amount_of_pod pod)
      ∙ ap₂ (join add64) e (ap count_of (pod_amount pod).1)
      ∙ number_step k lt

  count_loop :
      (pods : List (Pod Q)) (used : ResourceAmount Q) (k : ℕ)
      → length pods + k < 2 ^ 63
      → count_of used.resource_counts ≡ number k
      → count_of (for_each pods used count_in).resource_counts ≡ number (length pods + k)
  unfolding for_each
  count_loop [] used k lt e = e ∙ ap number (omega arith)
  count_loop (pod ∷ pods) used k lt e =
      count_loop pods (count_in pod used) (suc k) (omega arith)
        (count_in-number pod used k (omega arith) e)
      ∙ ap number (omega arith)

module _ {Q L Store : Type 0} ⦃q : Quantity Q⦄ (env : Environment Q L Store) where
  used_by-requests :
      (pods : List (Pod Q)) (name : String)
      → amount_of name (used_by env pods).resource_requests ≡ sum_asked name none pods
  unfolding used_by get
  used_by-requests pods name = used_loop name pods no_amount

  used_by-count :
      (pods : List (Pod Q))
      → length pods < 2 ^ 63
      → count_of (used_by env pods).resource_counts ≡ number (length pods)
  unfolding used_by
  used_by-count pods lt = count_loop pods no_amount 0 (omega arith) refl ∙ ap number (omega arith)

  -- The status that `reconcile` computes uses of each resource the sum of what the counted pods
  -- ask for, and as many pods as there are, but no count where there is no pod. It flags a resource
  -- exactly where a pod asks for it, the status's threshold names it, and the sum has reached the
  -- threshold. It flags the pods exactly where there is a pod, the threshold has a count, and the
  -- number of pods has reached it: with no pod they are not flagged, even by a count of 0. The pods
  -- are fewer than 2^63, and the requests of the threshold are a map.
  pub new_status_lem :
      (now : Time) (thr : Throttle Q L) (pods : List (Pod Q)) (name : String)
      → length pods < 2 ^ 63
      → IsMap (new_status env now thr pods).calculated_threshold.threshold.resource_requests
      → let status = new_status env now thr pods in
        let threshold = status.calculated_threshold.threshold in
        (amount_of name status.used.resource_requests ≡ sum_asked name none pods)
        × (count_of status.used.resource_counts ≡ number (length pods))
        × (flag_at name status.throttled.resource_requests
            ≡ exceeded true (sum_asked name none pods) (amount_of name threshold.resource_requests))
        × (status.throttled.resource_counts.pod
            ≡ exceeded true (number (length pods)) (count_of threshold.resource_counts))
  unfolding new_status
  new_status_lem now thr pods name few d =
      let threshold : ResourceAmount Q =
        (new_status env now thr pods).calculated_threshold.threshold in
      let asked = used_by-requests pods name in
      let counted = used_by-count pods few in
      (
        asked,
        counted,
        flag-is_throttled threshold (used_by env pods) true name d
            ∙ ap (λ u. exceeded true u (amount_of name threshold.resource_requests)) asked,
        unfold is_throttled in
            count_exceeded true threshold.resource_counts (used_by env pods).resource_counts
            ∙ ap (λ u. exceeded true u (count_of threshold.resource_counts)) counted,
      )
