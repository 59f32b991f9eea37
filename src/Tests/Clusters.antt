-- ===== src/Tests/Clusters.antt =====
-- Theorems on cluster throttles, applied.
use kube_throttler.Prelude.{string_eq, ◌≡◌, refl, false, [], ◌∷◌, ◌&&◌, not, if◌then◌else◌, arith}
use kube_throttler.Prelude.Int.{ℤ, pos}
use kube_throttler.Prelude.GoMap.{get, has, put, delete}
use kube_throttler.Prelude.Lists.{any, select, for_each}
use kube_throttler.Errors.{external, ok, err}
use kube_throttler.Pod.{is_not_finished}
use kube_throttler.NamespacedName.{nn_eq, nn_of_pod}
use kube_throttler.ResourceAmount.{resource_amount_of_pod}
use kube_throttler.Reserved.Entries.{pods_of}
use kube_throttler.Selector.{Namespace, cluster_matches_to_pod}
use kube_throttler.Throttle.{ClusterThrottle}
use kube_throttler.ThrottleSpec.{calculate_threshold}
use kube_throttler.ClusterThrottleController
use kube_throttler.ClusterThrottleController.{ClusterEnvironment}
use kube_throttler.ClusterThrottleController.Affected as Cluster
use kube_throttler.ClusterThrottleController.Affected.{cluster_affected_pods_lem}
use kube_throttler.ClusterThrottleController.Handlers.{reassign}
use kube_throttler.ClusterThrottleController.Handlers.Assignment.{is_name, cluster_pods_of-reassign}
use kube_throttler.ClusterThrottleController.Reconcile.{new_status, reconcile}
use kube_throttler.ClusterThrottleController.Reconcile.Outcome.{
  IsReflexive, cluster_failed_update-dropped,
}
use kube_throttler.Tests.{
  ints, Sel, web, finished, cluster, default_ns, env, cluster_env, cluster_state, cluster_nn,
}

-- A second namespace, which the throttle below does not take.
abbrev other_ns : Namespace
other_ns = record { name = "other"; labels = ("team", "b") ∷ [] }

abbrev selective : ClusterThrottle ℤ Sel
selective = record cluster {
  spec = record cluster.spec {
    selector = record {
      selector_terms =
          record {
            throttle_selector_term = record { pod_selector = λ ls. has "app" ls };
            namespace_selector = λ ls. not (has "team" ls);
          }
          ∷ [];
    };
  };
}

abbrev two_namespaces : ClusterEnvironment ℤ Sel (ClusterThrottle ℤ Sel)
two_namespaces = record cluster_env { list_namespaces = ok (other_ns ∷ default_ns ∷ []) }

cluster_listed_pods :
    ClusterThrottleController.affected_pods two_namespaces selective ≡ ok (web ∷ [], finished ∷ [])
unfolding ClusterThrottleController.affected_pods kube_throttler.Selector.matches_to_namespace
    cluster_matches_to_pod get put
cluster_listed_pods = refl

cluster_affected_pods_lem_example :
    let nss = Cluster.taken two_namespaces selective (other_ns ∷ default_ns ∷ []) in
    let ns_map = Cluster.by_name two_namespaces selective nss [] in
    let pods = Cluster.all_pods two_namespaces selective nss in
    (web ∷ []
      ≡ select (λ p. Cluster.concerns two_namespaces selective ns_map p && is_not_finished p) pods)
    × (finished ∷ []
        ≡ select
            (λ p. Cluster.concerns two_namespaces selective ns_map p && not (is_not_finished p))
            pods)
cluster_affected_pods_lem_example =
    cluster_affected_pods_lem two_namespaces selective (other_ns ∷ default_ns ∷ []) (web ∷ [])
      (finished ∷ []) refl cluster_listed_pods

-- A client that fails to update, and pods that have finished.
abbrev failing : ClusterEnvironment ℤ Sel (ClusterThrottle ℤ Sel)
failing = record cluster_env {
  list_pods = λ _. ok (finished ∷ []);
  update_status = λ t. err (external "conflict");
  same_status = env.same_status;
}

failing_pods : ClusterThrottleController.affected_pods failing cluster ≡ ok ([], finished ∷ [])
unfolding ClusterThrottleController.affected_pods kube_throttler.Selector.matches_to_namespace
    cluster_matches_to_pod get put
failing_pods = refl

failing-IsReflexive : IsReflexive failing
failing-IsReflexive = record {
  amount = λ a. refl;
  messages = λ m. refl;
  status = λ s. ground arith;
}

cluster_status_differs :
    failing.same_status cluster.status (new_status failing (pos 5) cluster []) ≡ false
unfolding new_status for_each
cluster_status_differs = refl

cluster_failed_update-dropped_example :
    ((reconcile failing (pos 5) "limit" cluster_state).0 ≡ err (external "conflict"))
    × ((reconcile failing
          (pos 7)
          "limit"
          (reconcile failing (pos 5) "limit" cluster_state).1).1.updates
        ≡ (reconcile failing (pos 5) "limit" cluster_state).1.updates)
unfolding calculate_threshold
cluster_failed_update-dropped_example =
    cluster_failed_update-dropped failing (pos 5) (pos 7) "limit" "" "limit" cluster
      ([], finished ∷ []) cluster_state (external "conflict") refl refl (λ t. refl) failing_pods
      cluster_status_differs refl failing-IsReflexive refl refl

cluster_pods_of-reassign_example :
    pods_of cluster_nn (reassign cluster_env web [] (cluster ∷ []) cluster_state).cache ≡ (
      if any (is_name cluster_nn) (cluster ∷ [])
        && not (any (is_name {Q = ℤ} {L = Sel} cluster_nn) [])
      then put (nn_of_pod web) (resource_amount_of_pod web) (pods_of cluster_nn cluster_state.cache)
      else if any (is_name {Q = ℤ} {L = Sel} cluster_nn) []
          && not (any (is_name cluster_nn) (cluster ∷ []))
      then delete (nn_of_pod web) (pods_of cluster_nn cluster_state.cache)
      else pods_of cluster_nn cluster_state.cache)
cluster_pods_of-reassign_example =
    cluster_pods_of-reassign cluster_env web [] (cluster ∷ []) cluster_state cluster_nn
