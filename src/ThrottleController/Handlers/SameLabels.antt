-- ===== src/ThrottleController/Handlers/SameLabels.antt =====
-- A pod update of throttle_controller.go that leaves the pod's labels as they are.
use kube_throttler.Prelude.{
  string_eq, ◌≡◌, refl, ◌∙◌, not, ◌&&◌, List, [], ◌∷◌, arith, if◌then◌else◌, Bool-cases, inl, inr,
}
use mathlib.Core.Path.{ap₂}
use kube_throttler.Prelude.Lists.{any}
use kube_throttler.Quantity.{Quantity}
use kube_throttler.Errors.{Result, ok, Result-cases, ◌>>=◌}
use kube_throttler.Pod.{Pod}
use kube_throttler.NamespacedName.{NamespacedName, nn_eq}
use kube_throttler.Selector.{matches_to_pod, any_term}
use kube_throttler.Throttle.{Throttle}
use kube_throttler.Reserved.Entries.{pods_of}
use kube_throttler.ThrottleController.{
  Environment, State, is_responsible_for, affecting, affected_throttles, should_count_in,
}
use kube_throttler.ThrottleController.Handlers.{reassign, on_pod_update}
use kube_throttler.ThrottleController.Handlers.Assignment.{is_name, pods_of-reassign}

module _ {Q L Store : Type 0} ⦃q : Quantity Q⦄ (env : Environment Q L Store)
    (old_pod new_pod : Pod Q) (labels : old_pod.labels ≡ new_pod.labels) where
  affecting-same :
      (throttles : List (Throttle Q L))
      → affecting env old_pod throttles ≡ affecting env new_pod throttles
  unfolding affecting matches_to_pod
  affecting-same [] = refl
  affecting-same (thr ∷ throttles) =
      ap₂
        (λ ls (rest : Result (List (Throttle Q L))).
          if not (is_responsible_for env thr) then rest else do
            match ←
                any_term (λ sel. do selector ← env.as_selector sel.pod_selector; ok (selector ls))
                  thr.spec.selector.selector_terms
            if match then (do others ← rest; ok (thr ∷ others)) else rest)
        labels (affecting-same throttles)

  -- The same throttles concern the pod as before.
  pub affected_throttles-same :
      (store : Store)
      → old_pod.namespace ≡ new_pod.namespace
      → affected_throttles env store old_pod ≡ affected_throttles env store new_pod
  unfolding affected_throttles
  affected_throttles-same store namespace =
      ap₂
        (λ ns (f : List (Throttle Q L) → Result (List (Throttle Q L))).
          env.list_throttles store ns >>= f)
        namespace (λ i throttles. affecting-same throttles i)

  pub on_pod_update-pods_of :
      (s : State Q L Store) (nn : NamespacedName)
      → old_pod.namespace ≡ new_pod.namespace
      → pods_of nn (on_pod_update env old_pod new_pod s).cache ≡ pods_of nn s.cache
  unfolding on_pod_update
  on_pod_update-pods_of s nn namespace =
      elim (Bool-cases (not (should_count_in env old_pod) && not (should_count_in env new_pod))) [
        | inl skipped ↦ rw (skipped, on_pod_update) refl
        | inr seen ↦ elim (Result-cases (affected_throttles env s.throttles new_pod)) [
          | inr (e, failed) ↦
              rw (seen, affected_throttles-same s.throttles namespace ∙ failed, on_pod_update) refl
          | inl (throttles, found) ↦
              rw (seen, affected_throttles-same s.throttles namespace ∙ found, found, on_pod_update)
                (pods_of-reassign env new_pod throttles throttles s nn
                  ∙ ground (arith, Bool-cases (any (is_name nn) throttles)))
        ]
      ]

-- The handler leaves the store of the throttles as it is.
pub on_pod_update-throttles :
    {Q L Store : Type 0} ⦃q : Quantity Q⦄ (env : Environment Q L Store) (old_pod new_pod : Pod Q)
    (s : State Q L Store)
    → (on_pod_update env old_pod new_pod s).throttles ≡ s.throttles
unfolding on_pod_update reassign
on_pod_update-throttles env old_pod new_pod s = ground arith
