-- ===== src/ThrottleController/Budget.antt =====
-- What `Reserve` and `UnReserve` of throttle_controller.go leave of a throttle's threshold.
use kube_throttler.Prelude.{string_eq, ◌==◌, String, ◌≡◌, subst, true, false, some, List, inl, inr}
use kube_throttler.Prelude.Int.{ℤ, ◌+ℤ◌, ◌≤ℤ◌}
use kube_throttler.Prelude.GoMap.{IsMap}
use kube_throttler.Prelude.Lists.{All, any, any-In, All-lookup}
use kube_throttler.Quantity.{Quantity}
use kube_throttler.Errors.{ok, Result-cases}
use kube_throttler.Pod.{Pod}
use kube_throttler.NamespacedName.{nn_eq}
use kube_throttler.ResourceAmount.{resource_amount_of_pod}
use kube_throttler.ResourceList.Entries.{amount_of}
use kube_throttler.Throttle.{Throttle, not_throttled, effective_threshold}
use kube_throttler.Throttle.Room.{used_of, asked, throttle_room}
use kube_throttler.Reserved.{ReservedResourceAmounts, reserved_resource_amount}
use kube_throttler.Reserved.Moves.{reserved-IsMap}
use kube_throttler.Reserved.Budget.{
  NonNegativeAt, reserved_at, InBudget, InBudget-add_all, InBudget-remove_all,
}
use kube_throttler.ThrottleController.{
  Environment, State, nn_of, affected_throttles, reserve, reserve_on_throttle, un_reserve,
  un_reserve_on_throttle, check_on,
}

module _ {Q L Store : Type 0} ⦃q : Quantity Q⦄ (env : Environment Q L Store) (thr : Throttle Q L)
    (name : String) (t : ℤ) where
  -- Whatever of the throttle's name is listed is the throttle.
  abbrev pub IsThe : Throttle Q L → Type 0
  IsThe other = nn_of other ≡ nn_of thr → other ≡ thr

  reserve_room :
      (c : ReservedResourceAmounts Q) (pod : Pod Q)
      → IsMap (effective_threshold thr.spec.base thr.status).resource_requests
      → IsMap thr.status.used.resource_requests
      → amount_of name (effective_threshold thr.spec.base thr.status).resource_requests ≡ some t
      → InBudget (nn_of thr) name (used_of name thr.status) t c
      → check_on env c pod false thr ≡ not_throttled
      → (used_of name thr.status +ℤ asked name pod) +ℤ reserved_at (nn_of thr) name c ≤ℤ t
  unfolding check_on
  reserve_room c pod m u e b passed =
      throttle_room pod (reserved_resource_amount c (nn_of thr)).0 name t thr m u
        (reserved-IsMap c (nn_of thr)) e b.within passed

  -- If every throttle found lets the pod through, and the throttle is what its name finds, then
  -- there is room for the pod on it if it is among those found.
  pub found-room :
      (c : ReservedResourceAmounts Q) (pod : Pod Q) (throttles : List (Throttle Q L))
      → IsMap (effective_threshold thr.spec.base thr.status).resource_requests
      → IsMap thr.status.used.resource_requests
      → amount_of name (effective_threshold thr.spec.base thr.status).resource_requests ≡ some t
      → InBudget (nn_of thr) name (used_of name thr.status) t c
      → All IsThe throttles
      → All (λ x. check_on env c pod false x ≡ not_throttled) throttles
      → any (λ x. nn_of x == nn_of thr) throttles ≡ true
      → (used_of name thr.status +ℤ asked name pod) +ℤ reserved_at (nn_of thr) name c ≤ℤ t
  found-room c pod throttles m u e b the passed here =
      let (x, among, named) = any-In (λ x. nn_of x == nn_of thr) throttles here in
      let x_is : x ≡ thr =
        All-lookup IsThe throttles x the among ((nn_eq.beq_iff (nn_of x) (nn_of thr)).0 named) in
      reserve_room c pod m u e b (
        subst (λ y. check_on env c pod false y ≡ not_throttled) x_is
          (All-lookup (λ y. check_on env c pod false y ≡ not_throttled) throttles x passed among))

  pub reserve-InBudget :
      (pod : Pod Q) (s : State Q L Store) (throttles : List (Throttle Q L))
      → affected_throttles env s.throttles pod ≡ ok throttles
      → (any (λ x. nn_of x == nn_of thr) throttles ≡ true
          → (used_of name thr.status +ℤ asked name pod) +ℤ reserved_at (nn_of thr) name s.cache
            ≤ℤ t)
      → NonNegativeAt name (resource_amount_of_pod pod)
      → InBudget (nn_of thr) name (used_of name thr.status) t s.cache
      → InBudget (nn_of thr) name (used_of name thr.status) t (reserve env pod s).1.cache
  unfolding reserve reserve_on_throttle
  reserve-InBudget pod s throttles found room n b =
      rw (found, reserve)
        (InBudget-add_all (nn_of thr) name (used_of name thr.status) t nn_of pod throttles s.cache
          room n b)

  pub un_reserve-InBudget :
      (used : ℤ) (pod : Pod Q) (s : State Q L Store)
      → InBudget (nn_of thr) name used t s.cache
      → InBudget (nn_of thr) name used t (un_reserve env pod s).1.cache
  unfolding un_reserve un_reserve_on_throttle
  un_reserve-InBudget used pod s b = elim (Result-cases (affected_throttles env s.throttles pod)) [
    | inr (e, failed) ↦ rw (failed, un_reserve) b
    | inl (throttles, found) ↦
        rw (found, un_reserve)
          (InBudget-remove_all (nn_of thr) name used t nn_of pod throttles s.cache b)
  ]
