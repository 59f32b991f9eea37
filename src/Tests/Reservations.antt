-- ===== src/Tests/Reservations.antt =====
-- Theorems on reservations and moves, applied.
use kube_throttler.Prelude.{string_eq, ◌==◌, ◌≡◌, refl, some, [], ◌∷◌, if◌then◌else◌, ◌&&◌, not}
use kube_throttler.Prelude.Int.{ℤ, ◌+ℤ◌}
use kube_throttler.Prelude.GoMap.{get, put, delete}
use kube_throttler.Errors.{ok}
use kube_throttler.ResourceAmount.{resource_amount_of_pod}
use kube_throttler.NamespacedName.{nn_eq, nn_of_pod}
use kube_throttler.Reserved.{add_pod, reserved_resource_amount}
use kube_throttler.Reserved.Moves.{reserved-add_pod}
use kube_throttler.ResourceList.Entries.{amount_of, join}
use kube_throttler.Reserved.Entries.{pods_of}
use kube_throttler.ThrottleController.{nn_of}
use kube_throttler.ThrottleController.Handlers.{reassign}
use kube_throttler.ThrottleController.Handlers.Assignment.{is_name, pods_of-reassign}
use kube_throttler.Reserved.Ledger.{entry}
use kube_throttler.ThrottleController.Reservations.{entry-reserve}
use kube_throttler.Prelude.Lists.{any}
use kube_throttler.ThrottleController.{reserve}
use kube_throttler.Tests.{ints, Sel, web, thr, env, state, found_throttles, nothing_reserved}

pods_of-reassign_example : pods_of (nn_of thr) (reassign env web [] (thr ∷ []) state).cache ≡ (
    if any (is_name (nn_of thr)) (thr ∷ []) && not (any (is_name {Q = ℤ} {L = Sel} (nn_of thr)) [])
    then put (nn_of_pod web) (resource_amount_of_pod web) (pods_of (nn_of thr) state.cache)
    else if any (is_name {Q = ℤ} {L = Sel} (nn_of thr)) []
        && not (any (is_name (nn_of thr)) (thr ∷ []))
    then delete (nn_of_pod web) (pods_of (nn_of thr) state.cache)
    else pods_of (nn_of thr) state.cache)
pods_of-reassign_example = pods_of-reassign env web [] (thr ∷ []) state (nn_of thr)

entry-reserve_example :
    ((reserve env web state).0 ≡ ok tt)
    × (entry (nn_of_pod web) (nn_of thr) (reserve env web state).1.cache ≡ (
        if any (λ t. (nn_of t == nn_of thr) && (nn_of_pod web == nn_of_pod web)) (thr ∷ [])
        then some (resource_amount_of_pod web)
        else entry (nn_of_pod web) (nn_of thr) state.cache))
entry-reserve_example =
    entry-reserve env web state (thr ∷ []) (nn_of_pod web) (nn_of thr) found_throttles

reserved-add_pod_example :
    amount_of "cpu"
      (reserved_resource_amount
        (add_pod state.cache (nn_of thr) web).0
        (nn_of thr)).0.resource_requests
    ≡ join ◌+ℤ◌
        (amount_of "cpu" (reserved_resource_amount state.cache (nn_of thr)).0.resource_requests)
        (amount_of "cpu" (resource_amount_of_pod web).resource_requests)
unfolding get
reserved-add_pod_example = reserved-add_pod state.cache (nn_of thr) web "cpu" nothing_reserved refl
