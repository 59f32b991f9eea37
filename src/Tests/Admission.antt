-- ===== src/Tests/Admission.antt =====
-- Theorems on the check of a pod and the verdict of the plugin, applied.
use kube_throttler.Prelude.{
  string_eq, ◌==◌, ◌≡◌, refl, String, Bool, true, false, Option, none, some, List, [], ◌∷◌, ℕ, ◌+◌,
  if◌then◌else◌, ◌↔◌, inl, inr, ◌&&◌, not, arith,
}
use kube_throttler.Prelude.Int.{ℤ, pos, ◌+ℤ◌, ◌-ℤ◌, compare_ℤ, beq_ℤ, ◌≤ℤ◌}
use kube_throttler.Prelude.GoMap.{IsMap, get, put, delete, for_range}
use kube_throttler.Prelude.Lists.{All, for_each}
use kube_throttler.ResourceAmount.{
  ResourceAmount, no_amount, resource_amount_of_pod, is_throttled, is_throttled_for,
}
use kube_throttler.Throttle.{not_throttled}
use kube_throttler.NamespacedName.{nn_eq}
use kube_throttler.ResourceList.Entries.{amount_of}
use kube_throttler.ResourceList
use kube_throttler.ResourceList.{
  pod_request_resource_list, set_max, set_max_entry, quantity_max, set_min, greater_or_equal,
  equal_to,
}
use kube_throttler.Throttle.{effective_threshold, check_throttled_for, cluster_check_throttled_for}
use kube_throttler.Throttle.Decision.{
  InForce, calculated, HasRoomFor, lets_through_iff, cluster_lets_through_iff,
}
use kube_throttler.Throttle.Within.{total_request, total_count}
use kube_throttler.Throttle.Admission.{admitted_requests, admitted_count}
use kube_throttler.Throttle.Agreement.{checks_agree}
use kube_throttler.ThrottleController
use kube_throttler.ThrottleController.{Environment, State, nn_of, affected_throttles}
use kube_throttler.ClusterThrottleController
use kube_throttler.ClusterThrottleController.{
  ClusterEnvironment, ClusterState, affected_cluster_throttles,
}
use kube_throttler.ThrottleController.{
  reserve, un_reserve, affected_pods, should_count_in, check_throttled,
}
use kube_throttler.ClusterThrottleController.{Found, find_pods}
use kube_throttler.Plugin.{success, pre_filter}
use kube_throttler.Plugin.Verdict.{pre_filter-success_iff}
use kube_throttler.Tests.{
  ints, web, thr, cluster, env, cluster_env, plugin, found_throttles, found_cluster_throttles,
  limit-IsMap, limit, status,
}

pre_filter-success_iff_example : ((pre_filter env cluster_env web plugin).0 ≡ success) ↔ (
    All
      (λ t. ThrottleController.check_on env plugin.throttle_ctr.cache web false t ≡ not_throttled)
      (thr ∷ [])
    × All
        (λ t.
          ClusterThrottleController.check_on cluster_env plugin.cluster_throttle_ctr.cache web false
            t
          ≡ not_throttled)
        (cluster ∷ []))
pre_filter-success_iff_example =
    pre_filter-success_iff env cluster_env web plugin (thr ∷ []) (cluster ∷ []) found_throttles
      found_cluster_throttles

status_calculated : InForce thr.spec.base status limit
status_calculated = calculated λ e. absurd (cc)

limit_requests-IsMap : IsMap limit.resource_requests
unfolding get
limit_requests-IsMap = (refl, tt)

used_requests-IsMap : IsMap status.used.resource_requests
unfolding get
used_requests-IsMap = (refl, tt)

lets_through_iff_example :
    (check_throttled_for thr web limit false ≡ not_throttled)
    ↔ HasRoomFor true false limit thr.status web limit
lets_through_iff_example =
    lets_through_iff thr web limit limit false status_calculated limit_requests-IsMap
      used_requests-IsMap limit_requests-IsMap

cluster_lets_through_iff_example :
    (cluster_check_throttled_for cluster web limit false ≡ not_throttled)
    ↔ HasRoomFor false false limit cluster.status web limit
cluster_lets_through_iff_example =
    cluster_lets_through_iff cluster web limit limit false status_calculated limit_requests-IsMap
      used_requests-IsMap limit_requests-IsMap

web_requests :
    (name : String) (x : ℤ)
    → get name (resource_amount_of_pod web).resource_requests ≡ some x
    → pos 0 ≤ℤ x
unfolding resource_amount_of_pod pod_request_resource_list get put delete for_each set_max
    quantity_max for_range ResourceList.add ◌+ℤ◌
web_requests name x e = ground arith

web_cpu : get "cpu" (resource_amount_of_pod web).resource_requests ≡ some (pos 3)
unfolding resource_amount_of_pod get pod_request_resource_list for_range for_each put ◌+ℤ◌
web_cpu = refl

limit_cpu :
    amount_of "cpu" (effective_threshold thr.spec.base thr.status).resource_requests ≡ some (pos 10)
unfolding effective_threshold get
limit_cpu = refl

checks_agree_example :
    (check_throttled_for thr web no_amount false ≡ not_throttled)
    ↔ (cluster_check_throttled_for cluster web no_amount false ≡ not_throttled)
unfolding get ◌+ℤ◌
checks_agree_example =
    checks_agree thr cluster refl refl web no_amount limit-IsMap (refl, tt) tt web_requests
      (record { next = omega arith; all = omega arith; now = omega arith })

web_passes : check_throttled_for thr web no_amount false ≡ not_throttled
unfolding check_throttled_for kube_throttler.ResourceAmount.is_throttled_for
    kube_throttler.ResourceAmount.is_throttled resource_amount_of_pod pod_request_resource_list
    for_range for_each get put ◌+ℤ◌ kube_throttler.ResourceAmount.add
    kube_throttler.Prelude.Int.wrap64
web_passes = refl

admitted_requests_example : total_request thr.status web no_amount "cpu" ≤ℤ pos 10
unfolding get
admitted_requests_example =
    admitted_requests thr web no_amount limit-IsMap (refl, tt) tt web_passes "cpu" (pos 3) (pos 10)
      web_cpu refl limit_cpu

admitted_count_example : total_count thr.status no_amount ≤ℤ pos 5
unfolding ◌+ℤ◌ effective_threshold get
admitted_count_example =
    admitted_count thr web no_amount limit-IsMap (refl, tt) tt web_passes (pos 5) refl (omega arith)
      (omega arith)
