-- ===== src/ThrottleController/Reservations.antt =====
-- Which pods are reserved on which throttles after `Reserve`, `UnReserve` and the clean-up of
-- `reconcile` in throttle_controller.go.
use kube_throttler.Prelude.{
  string_eq, ◌==◌, ◌≡◌, refl, sym, ◌∙◌, ap, ◌&&◌, none, some, List, if◌then◌else◌, Bool-cases, inl,
  inr,
}
use kube_throttler.Prelude.Lists.{All, any}
use kube_throttler.Quantity.{Quantity}
use kube_throttler.Errors.{ok}
use kube_throttler.Pod.{Pod}
use kube_throttler.NamespacedName.{NamespacedName, nn_eq, nn_of_pod}
use kube_throttler.ResourceAmount.{resource_amount_of_pod}
use kube_throttler.Throttle.{Throttle}
use kube_throttler.Reserved.Ledger.{
  entry, entry_if, entry-add_pod, entry-remove_pod, entry-for_each, entry-free,
}
use kube_throttler.Reserved.{ReservedResourceAmounts}
use kube_throttler.ThrottleController.{
  Environment, State, nn_of, affected_throttles, reserve_on_throttle, un_reserve_on_throttle,
  reserve, un_reserve,
}
use kube_throttler.ThrottleController.Reconcile.{unreserve_affected_pods}
use kube_throttler.ThrottleController.Handlers.Kept.{reserve-throttles}

module _ {Q L Store : Type 0} ⦃q : Quantity Q⦄ (env : Environment Q L Store) where
  -- If the throttles that concern a pod are found, then `Reserve` returns no error; afterwards the
  -- pod is reserved with its amount on each of them, and every other entry is as it was.
  pub entry-reserve :
      (pod : Pod Q) (s : State Q L Store) (throttles : List (Throttle Q L))
      (pod_nn nn : NamespacedName)
      → affected_throttles env s.throttles pod ≡ ok throttles
      → ((reserve env pod s).0 ≡ ok tt)
        × (entry pod_nn nn (reserve env pod s).1.cache ≡ (
            if any (λ thr. (nn_of thr == nn) && (nn_of_pod pod == pod_nn)) throttles
            then some (resource_amount_of_pod pod)
            else entry pod_nn nn s.cache))
  unfolding reserve reserve_on_throttle
  entry-reserve pod s throttles pod_nn nn found = (
    rw (found, reserve) refl,
    rw (found, reserve)
        (entry-for_each (λ thr c. (reserve_on_throttle env pod thr c).0)
          (λ thr. (nn_of thr == nn) && (nn_of_pod pod == pod_nn))
          (some (resource_amount_of_pod pod)) pod_nn nn
          (λ thr c. entry-add_pod c (nn_of thr) pod pod_nn nn) throttles s.cache),
  )

  -- If the throttles that concern a pod are found, then `UnReserve` returns no error; afterwards
  -- the pod is reserved on none of them, and every other entry is as it was.
  pub entry-un_reserve :
      (pod : Pod Q) (s : State Q L Store) (throttles : List (Throttle Q L))
      (pod_nn nn : NamespacedName)
      → affected_throttles env s.throttles pod ≡ ok throttles
      → ((un_reserve env pod s).0 ≡ ok tt)
        × (entry pod_nn nn (un_reserve env pod s).1.cache ≡ (
            if any (λ thr. (nn_of thr == nn) && (nn_of_pod pod == pod_nn)) throttles
            then none
            else entry pod_nn nn s.cache))
  unfolding un_reserve un_reserve_on_throttle
  entry-un_reserve pod s throttles pod_nn nn found = (
    rw (found, un_reserve) refl,
    rw (found, un_reserve)
        (entry-for_each (λ thr c. (un_reserve_on_throttle env pod thr c).0)
          (λ thr. (nn_of thr == nn) && (nn_of_pod pod == pod_nn)) none pod_nn nn
          (λ thr c. entry-remove_pod c (nn_of thr) pod pod_nn nn) throttles s.cache),
  )

  -- After `reconcile` has released the pods of a throttle, none of them is reserved on it, and
  -- every other entry is as it was.
  pub entry-unreserve_affected_pods :
      (thr : Throttle Q L) (pods : List (Pod Q)) (c : ReservedResourceAmounts Q)
      (pod_nn nn : NamespacedName)
      → entry pod_nn nn (unreserve_affected_pods env thr pods c) ≡ (
          if any (λ pod. (nn_of thr == nn) && (nn_of_pod pod == pod_nn)) pods
          then none
          else entry pod_nn nn c)
  unfolding unreserve_affected_pods un_reserve_on_throttle
  entry-unreserve_affected_pods thr pods c pod_nn nn =
      entry-for_each (λ pod c'. (un_reserve_on_throttle env pod thr c').0)
        (λ pod. (nn_of thr == nn) && (nn_of_pod pod == pod_nn)) none pod_nn nn
        (λ pod c'. entry-remove_pod c' (nn_of thr) pod pod_nn nn) pods c

  -- If the throttles that concern a pod are found and nothing is reserved for it on them, then
  -- `UnReserve` takes back what `Reserve` has done: every entry is as it was before.
  pub un_reserve-reserve :
      (pod : Pod Q) (s : State Q L Store) (throttles : List (Throttle Q L))
      (pod_nn nn : NamespacedName)
      → affected_throttles env s.throttles pod ≡ ok throttles
      → All (λ thr. entry (nn_of_pod pod) (nn_of thr) s.cache ≡ none) throttles
      → entry pod_nn nn (un_reserve env pod (reserve env pod s).1).1.cache ≡ entry pod_nn nn s.cache
  un_reserve-reserve pod s throttles pod_nn nn found free =
      let s' : State Q L Store = (reserve env pod s).1 in
      let found' = ap (λ st. affected_throttles env st pod) (reserve-throttles env pod s) ∙ found in
      let reserved = (entry-reserve pod s throttles pod_nn nn found).1 in
      let released = (entry-un_reserve pod s' throttles pod_nn nn found').1 in
      elim (Bool-cases (any (λ thr. (nn_of thr == nn) && (nn_of_pod pod == pod_nn)) throttles)) [
        | inl t ↦
            released
            ∙ ap (λ b. entry_if b none (entry pod_nn nn s'.cache)) t
            ∙ sym (entry-free nn_of s.cache (nn_of_pod pod) pod_nn nn throttles free t)
        | inr f ↦
            released
            ∙ ap (λ b. entry_if b none (entry pod_nn nn s'.cache)) f
            ∙ reserved
            ∙ ap (λ b. entry_if b (some (resource_amount_of_pod pod)) (entry pod_nn nn s.cache)) f
      ]
