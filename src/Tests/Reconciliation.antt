-- ===== src/Tests/Reconciliation.antt =====
-- Theorems on `affectedPods` and `reconcile`, applied.
use kube_throttler.Prelude.{string_eq, ◌≡◌, refl, true, false, some, [], ◌∷◌, ◌++◌, arith}
use kube_throttler.Prelude.Int.{ℤ, pos}
use kube_throttler.Prelude.GoMap.{get}
use kube_throttler.Prelude.Lists.{All, In, select, for_each}
use kube_throttler.Errors.{external, wrap, ok, err}
use kube_throttler.Pod.{is_scheduled, is_not_finished}
use kube_throttler.NamespacedName.{nn_eq}
use kube_throttler.Selector.{matches_to_pod}
use kube_throttler.ThrottleSpec.{calculate_threshold}
use kube_throttler.ThrottleController.{State, affected_pods, should_count_in}
use kube_throttler.ThrottleController.Affected.{
  concerns, is_running, affected_pods_lem, terminated_forgotten,
}
use kube_throttler.ThrottleController.Reconcile.{new_status, reconcile}
use kube_throttler.ThrottleController.Reconcile.Outcome.{IsReflexive, failed_update-dropped}
use kube_throttler.Throttle.{Throttle}
use kube_throttler.Controller.{key, add_rate_limited, done}
use kube_throttler.ThrottleController.Events.{work}
use kube_throttler.ThrottleController.Events.Retry.{retry_sends_nothing}
use kube_throttler.Tests.{ints, Sel, finished, failed, thr, env, state, listed_pods}

affected_pods_lem_example :
    ([] ≡ select (is_running env thr) (finished ∷ failed ∷ []))
    × All (λ p. In p (finished ∷ failed ∷ []) × (concerns env thr p ≡ true)) (failed ∷ [])
affected_pods_lem_example =
    affected_pods_lem env thr (finished ∷ failed ∷ []) [] (failed ∷ []) refl listed_pods

terminated_forgotten_example : affected_pods env thr ≡ ok ([], failed ∷ [])
unfolding should_count_in matches_to_pod is_not_finished is_scheduled get
terminated_forgotten_example =
    terminated_forgotten env thr finished failed refl refl refl refl refl refl refl

env-IsReflexive : IsReflexive env
env-IsReflexive = record { amount = λ a. refl; messages = λ m. refl; status = λ s. ground arith }

status_differs : env.same_status thr.status (new_status env (pos 5) thr []) ≡ false
unfolding new_status for_each
status_differs = refl

failed_update-dropped_example :
    ((reconcile env (pos 5) "default/limit" state).0 ≡ err (external "conflict"))
    × ((reconcile env
          (pos 7)
          "default/limit"
          (reconcile env (pos 5) "default/limit" state).1).1.updates
        ≡ (reconcile env (pos 5) "default/limit" state).1.updates)
unfolding calculate_threshold
failed_update-dropped_example =
    failed_update-dropped env (pos 5) (pos 7) "default/limit" "default" "default/limit" thr
      ([], failed ∷ []) state (external "conflict") refl refl (λ t. refl) listed_pods status_differs
      refl env-IsReflexive refl refl

abbrev after_round : State ℤ Sel (Throttle ℤ Sel)
after_round = (work env (pos 5) (some (key "default/limit")) state).1

retry_sends_nothing_example :
    ((work env (pos 5) (some (key "default/limit")) state).0 ≡ true)
    × (after_round.log.queue
        ≡ state.log.queue ++ add_rate_limited "default/limit" ∷ done (key "default/limit") ∷ [])
    × (after_round.log.handled
        ≡ state.log.handled
          ++ wrap "failed to update Throttle status" (external "conflict")
            ∷ wrap "error reconciling" (external "conflict")
            ∷ [])
    × ((work env (pos 7) (some (key "default/limit")) after_round).1.updates ≡ after_round.updates)
unfolding calculate_threshold
retry_sends_nothing_example =
    retry_sends_nothing env (pos 5) (pos 7) "default/limit" "default" "default/limit" thr
      ([], failed ∷ []) state (external "conflict") refl refl (λ t. refl) listed_pods status_differs
      refl env-IsReflexive refl refl
