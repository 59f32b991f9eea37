-- ===== src/ClusterThrottleController/Handlers/SameLabels.antt =====
-- A pod update of clusterthrottle_controller.go that leaves the pod's labels as they are.
use kube_throttler.Prelude.{
  string_eq, ◌≡◌, refl, ◌∙◌, true, false, not, ◌&&◌, List, [], ◌∷◌, arith, if◌then◌else◌, some,
  Bool-cases, inl, inr,
}
use mathlib.Core.Path.{ap₂}
use kube_throttler.Prelude.Lists.{any}
use kube_throttler.Quantity.{Quantity}
use kube_throttler.Errors.{Result, ok, err, Result-cases, ◌>>=◌}
use kube_throttler.Pod.{Pod}
use kube_throttler.NamespacedName.{NamespacedName, nn_eq}
use kube_throttler.Selector.{
  Namespace, any_term, term_matches_to_pod, term_matches_to_namespace, cluster_term_matches_to_pod,
  cluster_matches_to_pod,
}
use kube_throttler.Throttle.{ClusterThrottle, ClusterThrottleSelectorTerm}
use kube_throttler.Reserved.Entries.{pods_of}
use kube_throttler.ClusterThrottleController.{
  ClusterEnvironment, ClusterState, is_responsible_for, affecting, affected_cluster_throttles,
  should_count_in,
}
use kube_throttler.ClusterThrottleController.Handlers.{reassign, on_pod_update}
use kube_throttler.ClusterThrottleController.Handlers.Assignment.{is_name, cluster_pods_of-reassign}

module _ {Q L Store : Type 0} ⦃q : Quantity Q⦄ (env : ClusterEnvironment Q L Store)
    (old_pod new_pod : Pod Q) (labels : old_pod.labels ≡ new_pod.labels) where
  affecting-same :
      (ns : Namespace) (throttles : List (ClusterThrottle Q L))
      → affecting env ns old_pod throttles ≡ affecting env ns new_pod throttles
  unfolding affecting cluster_matches_to_pod cluster_term_matches_to_pod term_matches_to_pod
  affecting-same ns [] = refl
  affecting-same ns (thr ∷ throttles) =
      ap₂
        (λ ls (rest : Result (List (ClusterThrottle Q L))).
          if not (is_responsible_for env thr) then rest else do
            match ←
                any_term
                  (λ (sel : ClusterThrottleSelectorTerm L).
                    elim (term_matches_to_namespace env.as_selector sel (some ns)) [
                      | err nil ↦ err nil
                      | ok match_ns ↦ elim match_ns [
                        | false ↦ ok false
                        | true ↦ do
                          selector ← env.as_selector sel.throttle_selector_term.pod_selector
                          ok (selector ls)
                      ]
                    ])
                  thr.spec.selector.selector_terms
            if match then (do others ← rest; ok (thr ∷ others)) else rest)
        labels (affecting-same ns throttles)

  -- The same throttles concern the pod as before.
  pub affected_cluster_throttles-same :
      (store : Store)
      → old_pod.namespace ≡ new_pod.namespace
      → affected_cluster_throttles env store old_pod ≡ affected_cluster_throttles env store new_pod
  unfolding affected_cluster_throttles
  affected_cluster_throttles-same store namespace =
      ap₂
        (λ name (f : Namespace → List (ClusterThrottle Q L) → Result (List (ClusterThrottle Q L))).
          do ns ← env.get_namespace name; throttles ← env.list_throttles store; f ns throttles)
        namespace (λ i ns throttles. affecting-same ns throttles i)

  pub on_pod_update-pods_of :
      (s : ClusterState Q L Store) (nn : NamespacedName)
      → old_pod.namespace ≡ new_pod.namespace
      → pods_of nn (on_pod_update env old_pod new_pod s).cache ≡ pods_of nn s.cache
  unfolding on_pod_update
  on_pod_update-pods_of s nn namespace =
      elim (Bool-cases (not (should_count_in env old_pod) && not (should_count_in env new_pod))) [
        | inl skipped ↦ rw (skipped, on_pod_update) refl
        | inr seen ↦ elim (Result-cases (affected_cluster_throttles env s.throttles new_pod)) [
          | inr (e, failed) ↦
              rw
                (
                  seen,
                  affected_cluster_throttles-same s.throttles namespace ∙ failed,
                  on_pod_update,
                )
                refl
          | inl (throttles, found) ↦
              rw
                (
                  seen,
                  affected_cluster_throttles-same s.throttles namespace ∙ found,
                  found,
                  on_pod_update,
                )
                (cluster_pods_of-reassign env new_pod throttles throttles s nn
                  ∙ ground (arith, Bool-cases (any (is_name nn) throttles)))
        ]
      ]

-- The handler leaves the store of the throttles as it is.
pub on_pod_update-throttles :
    {Q L Store : Type 0} ⦃q : Quantity Q⦄ (env : ClusterEnvironment Q L Store)
    (old_pod new_pod : Pod Q) (s : ClusterState Q L Store)
    → (on_pod_update env old_pod new_pod s).throttles ≡ s.throttles
unfolding on_pod_update reassign
on_pod_update-throttles env old_pod new_pod s = ground arith
