-- ===== src/Tests/Scheduling.antt =====
-- Theorems on the scheduler's cycles and on all events of a controller, applied.
use kube_throttler.Prelude.{
  string_eq, ◌==◌, ◌≡◌, refl, sym, ◌∙◌, String, Bool, true, false, Option, none, some, List, [],
  ◌∷◌, ◌++◌, if◌then◌else◌, ◌&&◌, not, arith, Bool-cases, inl, inr, ◌<◌, ◌^◌,
}
use kube_throttler.Prelude.Int.{ℤ, pos, ◌+ℤ◌, ◌≤ℤ◌}
use kube_throttler.Prelude.GoMap.{get, has, put, delete, for_range}
use kube_throttler.Prelude.Lists.{All, for_each}
use kube_throttler.Prelude.Steps.{Run, here, then_}
use kube_throttler.Errors.{ok, ok-subst}
use kube_throttler.Pod.{Pod}
use kube_throttler.NamespacedName.{nn_eq}
use kube_throttler.ResourceAmount.{resource_amount_of_pod}
use kube_throttler.ResourceList.Entries.{amount_of}
use kube_throttler.Throttle.{Throttle, ClusterThrottle, effective_threshold}
use kube_throttler.Throttle.Room.{used_of}
use kube_throttler.Selector.{matches_to_pod, cluster_matches_to_pod}
use kube_throttler.Reserved.{reserved_resource_amount}
use kube_throttler.Reserved.Budget.{NonNegativeAt, reserved_at, InBudget}
use kube_throttler.ThrottleController
use kube_throttler.ThrottleController.{State, nn_of, affected_throttles}
use kube_throttler.ClusterThrottleController
use kube_throttler.ClusterThrottleController.{ClusterState, affected_cluster_throttles}
use kube_throttler.Plugin.{KubeThrottler, success, pre_filter, reserve}
use kube_throttler.Plugin.Scheduling.{Scheduler, Cycle, let_through, take, update, pod_updated}
use kube_throttler.Plugin.Scheduling.Budget.{never_over_committed}
use kube_throttler.Plugin.Scheduling.ClusterBudget.{cluster_never_over_committed}
use kube_throttler.Tests.{
  ints, Sel, web, thr, cluster, env, cluster_env, cluster_nn, plugin, limit-IsMap, nothing_reserved,
}

-- What an API server admits: here, pods that do not ask for a negative amount of cpu.
abbrev Admitted : Pod ℤ → Type 0
Admitted pod = NonNegativeAt "cpu" (resource_amount_of_pod pod)

web_asks : NonNegativeAt "cpu" (resource_amount_of_pod web)
unfolding resource_amount_of_pod kube_throttler.ResourceList.pod_request_resource_list get put
    delete for_each for_range kube_throttler.ResourceList.set_max
    kube_throttler.ResourceList.quantity_max kube_throttler.ResourceList.add ◌+ℤ◌
web_asks = ground arith

web_let_through : (pre_filter env cluster_env web plugin).0 ≡ success
unfolding pre_filter ThrottleController.check_throttled ClusterThrottleController.check_throttled
    get put delete for_each for_range kube_throttler.ResourceAmount.is_throttled_for
    kube_throttler.ResourceAmount.is_throttled resource_amount_of_pod
    kube_throttler.ResourceList.pod_request_resource_list ◌+ℤ◌ kube_throttler.ResourceAmount.add
    kube_throttler.Prelude.Int.wrap64 matches_to_pod cluster_matches_to_pod
    kube_throttler.Throttle.check_throttled_for reserved_resource_amount
    kube_throttler.Throttle.cluster_check_throttled_for
web_let_through = refl

abbrev before : Scheduler ℤ Sel (Throttle ℤ Sel) (ClusterThrottle ℤ Sel)
before = record { waiting = none; plugin = plugin }

abbrev taken : KubeThrottler ℤ Sel (Throttle ℤ Sel) (ClusterThrottle ℤ Sel)
taken = (reserve env cluster_env web (pre_filter env cluster_env web plugin).1).1

abbrev updated : KubeThrottler ℤ Sel (Throttle ℤ Sel) (ClusterThrottle ℤ Sel)
updated = pod_updated env cluster_env web web taken

one_cycle :
    Run
      (Cycle env cluster_env Admitted)
      before
      (record { waiting = none; plugin = pod_updated env cluster_env web web taken })
one_cycle =
    then_
      (then_ (then_ here (let_through web plugin web_asks web_let_through))
        (take web (pre_filter env cluster_env web plugin).1))
      (update none web web taken refl refl)

only_thr :
    (pod : Pod ℤ) (throttles : List (Throttle ℤ Sel))
    → affected_throttles env thr pod ≡ ok throttles
    → All (λ other. nn_of other ≡ nn_of thr → other ≡ thr) throttles
unfolding affected_throttles matches_to_pod
only_thr pod throttles found = elim (Bool-cases (has "app" pod.labels)) [
  | inl labelled ↦
      ok-subst (All (λ other. nn_of other ≡ nn_of thr → other ≡ thr)) {a = thr ∷ []}
        (ground (arith, labelled, found)) (λ e. refl, tt)
  | inr bare ↦
      ok-subst (All (λ other. nn_of other ≡ nn_of thr → other ≡ thr)) {a = []}
        (ground (arith, bare, found)) tt
]

thr_fits : InBudget (nn_of thr) "cpu" (used_of "cpu" thr.status) (pos 10) plugin.throttle_ctr.cache
unfolding get ◌+ℤ◌ reserved_resource_amount
thr_fits = record { formed = nothing_reserved; counted = tt; within = omega arith }

thr_cpu :
    amount_of "cpu" (effective_threshold thr.spec.base thr.status).resource_requests ≡ some (pos 10)
unfolding effective_threshold get
thr_cpu = refl

never_over_committed_example :
    used_of "cpu" thr.status +ℤ reserved_at (nn_of thr) "cpu" updated.throttle_ctr.cache ≤ℤ pos 10
unfolding get
never_over_committed_example =
    never_over_committed env cluster_env thr "cpu" (pos 10) thr Admitted plugin limit-IsMap
      (refl, tt) thr_cpu only_thr (λ pod n. n) refl thr_fits
      (record { waiting = none; plugin = updated }) one_cycle

only_cluster :
    (pod : Pod ℤ) (throttles : List (ClusterThrottle ℤ Sel))
    → affected_cluster_throttles cluster_env cluster pod ≡ ok throttles
    → All (λ other. ClusterThrottleController.nn_of other ≡ cluster_nn → other ≡ cluster) throttles
unfolding affected_cluster_throttles cluster_matches_to_pod
only_cluster pod throttles found = elim (Bool-cases (has "app" pod.labels)) [
  | inl labelled ↦
      ok-subst (All (λ other. ClusterThrottleController.nn_of other ≡ cluster_nn → other ≡ cluster))
        {a = cluster ∷ []} (ground (arith, labelled, found)) (λ e. refl, tt)
  | inr bare ↦
      ok-subst (All (λ other. ClusterThrottleController.nn_of other ≡ cluster_nn → other ≡ cluster))
        {a = []} (ground (arith, bare, found)) tt
]

cluster_fits :
    InBudget cluster_nn "cpu"
      (used_of "cpu" cluster.status)
      (pos 10)
      plugin.cluster_throttle_ctr.cache
unfolding get ◌+ℤ◌ reserved_resource_amount
cluster_fits = record { formed = nothing_reserved; counted = tt; within = omega arith }

cluster_never_over_committed_example :
    used_of "cpu" cluster.status +ℤ reserved_at cluster_nn "cpu" updated.cluster_throttle_ctr.cache
    ≤ℤ pos 10
unfolding get
cluster_never_over_committed_example =
    cluster_never_over_committed env cluster_env cluster "cpu" (pos 10) cluster Admitted plugin
      limit-IsMap (refl, tt) thr_cpu only_cluster (λ pod n. n) refl cluster_fits
      (record { waiting = none; plugin = updated }) one_cycle
