-- ===== src/Tests/Handling.antt =====
-- Theorems on the handlers of pod events and on a `reconcile` that succeeds, applied.
use kube_throttler.Prelude.{
  string_eq, ◌==◌, ◌≡◌, refl, sym, ap, String, true, none, [], ◌∷◌, ◌++◌, arith, inl, ◌&&◌,
  if◌then◌else◌,
}
use kube_throttler.Prelude.Int.{ℤ, pos}
use kube_throttler.Prelude.GoMap.{get, IsMap}
use kube_throttler.Prelude.Lists.{any, In, for_each}
use kube_throttler.Errors.{external, ok, err, ok-injective}
use kube_throttler.NamespacedName.{NamespacedName, nn_eq, nn_of_pod}
use kube_throttler.ResourceAmount.Throttled.{count_of, exceeded, flag_at}
use kube_throttler.ResourceList.Entries.{amount_of}
use kube_throttler.Throttle.{Throttle}
use kube_throttler.ThrottleSpec.{next_override_happens_in}
use kube_throttler.Reserved.Total.{number}
use kube_throttler.Reserved.Ledger.{entry}
use kube_throttler.Controller.{add, object, explicit}
use kube_throttler.Controller.Queue.{adds}
use kube_throttler.ThrottleController.{
  Environment, State, nn_of, affected_pods, affected_throttles, should_count_in, reserve,
}
use kube_throttler.ThrottleController.Handlers.{on_pod_add, on_pod_update, on_pod_delete}
use kube_throttler.ThrottleController.Handlers.Enqueued.{pod_event-enqueued, pod_update-enqueued}
use kube_throttler.ThrottleController.Reconcile.{new_status, reconcile}
use kube_throttler.ThrottleController.Reconcile.Done.{reconcile_done}
use kube_throttler.ThrottleController.Reconcile.Status.{sum_asked, new_status_lem}
use kube_throttler.Tests.{ints, Sel, web, finished, failed, thr, env, state}

abbrev key_for : NamespacedName → String
key_for nn = if nn.name == "limit" then "default/limit" else nn.name

-- The keys of named objects, and none for an object without a namespace.
abbrev keyed : Environment ℤ Sel (Throttle ℤ Sel)
keyed = record env {
  key_of = λ e. elim e [
    | object nn ↦ if nn.namespace == "" then err (external "no namespace") else ok (key_for nn)
    | explicit nn ↦ ok (if nn.namespace == "" then "/" else key_for nn)
  ];
}

keyed_throttles : affected_throttles keyed thr web ≡ ok (thr ∷ [])
unfolding affected_throttles kube_throttler.Selector.matches_to_pod get
keyed_throttles = refl

web_counts : should_count_in keyed web ≡ true
unfolding should_count_in kube_throttler.Pod.is_scheduled
web_counts = refl

pod_event-enqueued_example :
    ((on_pod_add keyed web state).log
      ≡ record state.log { queue = state.log.queue ++ adds key_for nn_of (thr ∷ []) })
    × ((on_pod_delete keyed web state).log
        ≡ record state.log { queue = state.log.queue ++ adds key_for nn_of (thr ∷ []) })
pod_event-enqueued_example =
    pod_event-enqueued keyed key_for web state (thr ∷ []) (refl, tt) web_counts keyed_throttles

pod_update-enqueued_example : In (add "default/limit") (on_pod_update keyed web web state).log.queue
unfolding should_count_in kube_throttler.Pod.is_scheduled
pod_update-enqueued_example =
    pod_update-enqueued keyed web web state (thr ∷ []) (thr ∷ []) thr "default/limit" refl refl
      keyed_throttles keyed_throttles (inl (inl refl))

-- Two terminated pods that are still reserved.
abbrev reserved_before : State ℤ Sel (Throttle ℤ Sel)
reserved_before = (reserve env finished (reserve env failed state).1).1

-- A client that accepts every update.
abbrev accepting : Environment ℤ Sel (Throttle ℤ Sel)
accepting = record env { update_status = ok }

accepting_pods : affected_pods accepting thr ≡ ok ([], failed ∷ [])
unfolding affected_pods kube_throttler.Selector.matches_to_pod get kube_throttler.Slices.elements
    kube_throttler.Slices.make_empty kube_throttler.Slices.append
accepting_pods = refl

accepted : (reconcile accepting (pos 5) "default/limit" reserved_before).0 ≡ ok tt
unfolding reserve reconcile affected_pods new_status next_override_happens_in
    kube_throttler.Selector.matches_to_pod get for_each kube_throttler.Slices.elements
    kube_throttler.Slices.make_empty
accepted = refl

reconcile_done_example :
    let status = new_status accepting (pos 5) thr [] in
    let s' = (reconcile accepting (pos 5) "default/limit" reserved_before).1 in
    (s'.updates ≡ (
      if accepting.same_status thr.status status
      then reserved_before.updates
      else reserved_before.updates ++ record thr { status = status } ∷ []))
    × (entry (nn_of_pod failed) (nn_of thr) s'.cache ≡ (
        if any
          (λ pod. (nn_of thr == nn_of thr) && (nn_of_pod pod == nn_of_pod failed))
          ([] ++ failed ∷ [])
        then none
        else entry (nn_of_pod failed) (nn_of thr) reserved_before.cache))
unfolding reserve kube_throttler.Selector.matches_to_pod get
reconcile_done_example =
    reconcile_done accepting (pos 5) "default/limit" "default" "default/limit" thr ([], failed ∷ [])
      reserved_before (nn_of_pod failed) (nn_of thr) refl refl accepting_pods
      (λ t updated e. ap (λ (x : Throttle ℤ Sel). nn_of x) (sym (ok-injective e))) accepted

threshold-IsMap :
    IsMap (new_status env (pos 5) thr (web ∷ [])).calculated_threshold.threshold.resource_requests
unfolding new_status get
threshold-IsMap = (refl, tt)

new_status_lem_example :
    let status = new_status env (pos 5) thr (web ∷ []) in
    let threshold = status.calculated_threshold.threshold in
    (amount_of "cpu" status.used.resource_requests ≡ sum_asked "cpu" none (web ∷ []))
    × (count_of status.used.resource_counts ≡ number 1)
    × (flag_at "cpu" status.throttled.resource_requests
        ≡ exceeded true
            (sum_asked "cpu" none (web ∷ []))
            (amount_of "cpu" threshold.resource_requests))
    × (status.throttled.resource_counts.pod
        ≡ exceeded true (number 1) (count_of threshold.resource_counts))
new_status_lem_example =
    new_status_lem env (pos 5) thr (web ∷ []) "cpu" (omega arith) threshold-IsMap
