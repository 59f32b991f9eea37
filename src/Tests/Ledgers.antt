-- ===== src/Tests/Ledgers.antt =====
-- Theorems on the ledger that the cache of reservations stands for, applied.
use kube_throttler.Prelude.{
  string_eq, ◌==◌, ◌≡◌, refl, fun_ext, ◌<◌, ◌^◌, Bool, some, List, [], ◌∷◌, arith, if◌then◌else◌,
  ◌&&◌,
}
use kube_throttler.Prelude.Int.{ℤ}
use kube_throttler.Prelude.GoMap.{get, put}
use kube_throttler.Prelude.Lists.{for_each, length}
use kube_throttler.NamespacedName.{nn_eq, nn_of_pod}
use kube_throttler.ResourceAmount.{resource_amount_of_pod}
use kube_throttler.ResourceAmount.Throttled.{count_of}
use kube_throttler.ResourceList.Entries.{amount_of}
use kube_throttler.Reserved.{reserved_resource_amount}
use kube_throttler.Reserved.Entries.{pods_of}
use kube_throttler.Reserved.Ledger.Refinement.{
  Operation, adding, removing, moving, perform, account, ledger_of, ledger_refines, runs_agree,
}
use kube_throttler.ThrottleController.{nn_of}
use kube_throttler.Tests.{ints, web, finished, thr, state, cluster_nn, nothing_reserved}

abbrev moves : List (Operation ℤ)
moves =
    adding (nn_of thr) web
    ∷ moving web ((nn_of thr, tt) ∷ []) ((cluster_nn, tt) ∷ [])
    ∷ removing (nn_of thr) finished
    ∷ []

ledger_refines_example :
    ledger_of (for_each moves state.cache perform) ≡ for_each moves (ledger_of state.cache) account
unfolding get
ledger_refines_example = ledger_refines moves state.cache (tt, (((refl, tt), (refl, tt)), (tt, tt)))

abbrev one_way : List (Operation ℤ)
one_way = adding (nn_of thr) web ∷ adding cluster_nn web ∷ []

abbrev other_way : List (Operation ℤ)
other_way = adding cluster_nn web ∷ adding (nn_of thr) web ∷ []

either_first :
    {A : Type 0} (a b : Bool) (x y : A)
    → (if b then x else if a then x else y) ≡ (if a then x else if b then x else y)
either_first a b x y = ground arith

same_accounts :
    for_each one_way (ledger_of state.cache) account
    ≡ for_each other_way (ledger_of state.cache) account
unfolding for_each account
same_accounts = fun_ext λ nn. fun_ext λ pod_nn.
    either_first ((nn_of thr == nn) && (nn_of_pod web == pod_nn))
      ((cluster_nn == nn) && (nn_of_pod web == pod_nn)) (some (resource_amount_of_pod web))
      (ledger_of state.cache nn pod_nn)

few_pods : length (pods_of (nn_of thr) (for_each one_way state.cache perform)) < 2 ^ 63
unfolding for_each perform get put kube_throttler.Reserved.add_pod
few_pods = omega arith

runs_agree_example :
    (amount_of "cpu"
        (reserved_resource_amount
          (for_each one_way state.cache perform)
          (nn_of thr)).0.resource_requests
      ≡ amount_of "cpu"
          (reserved_resource_amount
            (for_each other_way state.cache perform)
            (nn_of thr)).0.resource_requests)
    × (count_of
          (reserved_resource_amount
            (for_each one_way state.cache perform)
            (nn_of thr)).0.resource_counts
        ≡ count_of
            (reserved_resource_amount
              (for_each other_way state.cache perform)
              (nn_of thr)).0.resource_counts)
runs_agree_example =
    runs_agree one_way other_way state.cache (nn_of thr) "cpu" (tt, (tt, tt)) (tt, (tt, tt))
      nothing_reserved same_accounts few_pods
