-- ===== src/ThrottleController/Reconcile/Done.antt =====
-- What a `reconcile` of throttle_controller.go that returns no error has done.
use kube_throttler.Prelude.{
  string_eq, ◌==◌, String, ◌≡◌, refl, ◌∙◌, ap, ◌&&◌, none, List, [], ◌∷◌, ◌++◌, arith,
  if◌then◌else◌, Bool-cases, inl, inr,
}
use kube_throttler.Prelude.Lists.{any}
use kube_throttler.Quantity.{Quantity}
use kube_throttler.Errors.{ok, Result-cases}
use kube_throttler.Pod.{Pod}
use kube_throttler.NamespacedName.{NamespacedName, nn_eq, nn_of_pod}
use kube_throttler.Throttle.{Throttle, Time}
use kube_throttler.Reserved.Ledger.{entry, entry_if}
use kube_throttler.ThrottleController.{Environment, State, nn_of, affected_pods}
use kube_throttler.ThrottleController.Reconcile.{
  new_status, unreserve_affected_pods, update_changed, keep_unchanged, reconcile_throttle,
  reconcile,
}
use kube_throttler.ThrottleController.Reconcile.Kept.{wake_up-cache}
use kube_throttler.ThrottleController.Reconcile.Outcome.{wake_up-updates}
use kube_throttler.ThrottleController.Reservations.{entry-unreserve_affected_pods}

module _ {Q L Store : Type 0} ⦃q : Quantity Q⦄ (env : Environment Q L Store) where
  released :
      (thr updated : Throttle Q L) (pods : List (Pod Q)) (s s' : State Q L Store)
      (pod_nn nn : NamespacedName)
      → nn_of updated ≡ nn_of thr
      → s'.cache ≡ unreserve_affected_pods env updated pods s.cache
      → entry pod_nn nn s'.cache ≡ (
          if any (λ pod. (nn_of thr == nn) && (nn_of_pod pod == pod_nn)) pods
          then none
          else entry pod_nn nn s.cache)
  released thr updated pods s s' pod_nn nn named e =
      ap (entry pod_nn nn) e
      ∙ entry-unreserve_affected_pods env updated pods s.cache pod_nn nn
      ∙ ap
          (λ thr_nn.
            entry_if (any (λ pod. (thr_nn == nn) && (nn_of_pod pod == pod_nn)) pods) none
              (entry pod_nn nn s.cache))
          named

  -- Say that `reconcile` finds a throttle, `affectedPods` returns two lists for it, and `reconcile`
  -- returns no error. Then it has sent the new status if the old one differs from it, and nothing
  -- otherwise. Exactly the pods in the two lists are no longer reserved on the throttle, and every
  -- other entry is as it was: a terminated pod that `affectedPods` has lost from its second list
  -- keeps what it had reserved. The client returns the throttle with its name when it updates it.
  pub reconcile_done :
      (now : Time) (key namespace name : String) (thr : Throttle Q L)
      (pods : List (Pod Q) × List (Pod Q)) (s : State Q L Store) (pod_nn nn : NamespacedName)
      → env.split_key key ≡ ok (namespace, name)
      → env.get_throttle s.throttles namespace name ≡ ok thr
      → affected_pods env thr ≡ ok pods
      → ((t updated : Throttle Q L) → env.update_status t ≡ ok updated → nn_of updated ≡ nn_of t)
      → (reconcile env now key s).0 ≡ ok tt
      → let status = new_status env now thr pods.0 in
        let s' = (reconcile env now key s).1 in
        (s'.updates ≡ (
          if env.same_status thr.status status
          then s.updates
          else s.updates ++ record thr { status = status } ∷ []))
        × (entry pod_nn nn s'.cache ≡ (
            if any (λ pod. (nn_of thr == nn) && (nn_of_pod pod == pod_nn)) (pods.0 ++ pods.1)
            then none
            else entry pod_nn nn s.cache))
  unfolding reconcile reconcile_throttle update_changed keep_unchanged
  reconcile_done now key namespace name thr pods s pod_nn nn k g a named h =
      let status = new_status env now thr pods.0 in
      let written : Throttle Q L = record thr { status = status } in
      let s' : State Q L Store = (reconcile env now key s).1 in
      let all : List (Pod Q) = pods.0 ++ pods.1 in
      elim (Bool-cases (env.same_status thr.status status)) [
        | inl same ↦ (
          rw (k, g, a, same, reconcile) (wake_up-updates env now thr _),
          released thr thr all s s' pod_nn nn refl
              (rw (k, g, a, same, reconcile) (wake_up-cache env now thr _)),
        )
        | inr differs ↦ elim (Result-cases (env.update_status written)) [
          | inr (e, failed) ↦
              absurd (ground (arith, rw (k, g, a, differs, failed, reconcile, update_changed) at h))
          | inl (updated, sent) ↦ (
            rw (k, g, a, differs, sent, reconcile, update_changed)
                (wake_up-updates env now updated _),
            released thr updated all s s' pod_nn nn (named written updated sent) (
                rw (k, g, a, differs, sent, reconcile, update_changed)
                  (wake_up-cache env now updated _)),
          )
        ]
      ]
