-- ===== src/ClusterThrottleController.antt =====
-- pkg/controllers/clusterthrottle_controller.go: the state of the controller of `ClusterThrottle`s,
-- the pods and throttles that concern one another, reservations, and the check of a pod. The child
-- modules have `reconcile` and the event handlers.
pub mod Reconcile
pub mod Handlers
pub mod Checks
pub mod Affected
pub mod Reservations
pub mod Budget
pub mod Construct
pub mod Events
use kube_throttler.Prelude.{
  string_eq, ◌==◌, ℕ, String, Bool, true, false, not, ◌&&◌, Option, none, some, List, [], ◌∷◌, ◌++◌,
  if◌then◌else◌,
}
use kube_throttler.Prelude.GoMap.{GoMap, get, put}
use kube_throttler.Prelude.Lists.{for_each}
use kube_throttler.Quantity.{Quantity}
use kube_throttler.Errors.{Error, Result, ok, err, ◌>>=◌}
use kube_throttler.Pod.{Pod, is_scheduled, is_not_finished}
use kube_throttler.ResourceAmount.{ResourceAmount}
use kube_throttler.Throttle.{
  Time, ClusterThrottle, ThrottleStatus, CheckThrottleStatus, not_throttled, active, insufficient,
  pod_requests_exceeds_threshold, cluster_check_throttled_for,
}
use kube_throttler.NamespacedName.{NamespacedName}
use kube_throttler.Selector.{Labels, Namespace, matches_to_namespace, cluster_matches_to_pod}
use kube_throttler.Reserved.{ReservedResourceAmounts, add_pod, remove_pod, reserved_resource_amount}
use kube_throttler.Controller.{Enqueued, Log}

-- The libraries that the controller calls, and its configuration. `Store` is the informer's cache
-- of throttles; the pointers that its lister returns lead into it.
pub record ClusterEnvironment (Q L Store : Type 0) : Type 0 where
  pub throttler_name : String
  pub target_scheduler_name : String
  pub list_throttles : Store → Result (List (ClusterThrottle Q L))
  pub get_throttle : Store → String → Result (ClusterThrottle Q L)
  -- what a write to `thr.Status` does, with `thr` from the lister
  pub write_status : Store → ClusterThrottle Q L → Store
  pub list_namespaces : Result (List Namespace)
  pub get_namespace : String → Result Namespace
  pub list_pods : String → Result (List (Pod Q))
  -- `UpdateStatus` of the client
  pub update_status : ClusterThrottle Q L → Result (ClusterThrottle Q L)
  pub split_key : String → Result (String × String)
  pub key_of : Enqueued → Result String
  pub parse : String → Result Time
  pub as_selector : L → Result (Labels → Bool)
  -- `apiequality.Semantic.DeepEqual`, at the three types that it is called at
  pub same_amount : ResourceAmount Q → ResourceAmount Q → Bool
  pub same_messages : List Error → List Error → Bool
  pub same_status : ThrottleStatus Q → ThrottleStatus Q → Bool

pub record ClusterState (Q L Store : Type 0) : Type 0 where
  pub throttles : Store
  pub cache : ReservedResourceAmounts Q
  pub log : Log
  -- the throttles whose metrics were recorded, and the status updates that were sent
  pub recorded : List (ClusterThrottle Q L)
  pub updates : List (ClusterThrottle Q L)

abbrev pub nn_of : {Q L : Type 0} → ClusterThrottle Q L → NamespacedName
nn_of thr = record { namespace = thr.namespace; name = thr.name }

-- What the loop over the namespaces changes: `pods` and `nsMap`.
pub record Found (Q : Type 0) : Type 0 where
  pub pods : List (Pod Q)
  pub ns_map : GoMap String Namespace

-- The four lists that `CheckThrottled` returns.
pub record ClusterChecked (Q L : Type 0) : Type 0 where
  pub already_throttled : List (ClusterThrottle Q L)
  pub insufficient_ones : List (ClusterThrottle Q L)
  pub exceeding : List (ClusterThrottle Q L)
  pub affected : List (ClusterThrottle Q L)

-- the `switch` of `CheckThrottled`
unfoldable pub place :
    {Q L : Type 0}
    → ClusterThrottle Q L
    → ClusterChecked Q L
    → CheckThrottleStatus
    → ClusterChecked Q L
place thr r active = record r { already_throttled = r.already_throttled ++ thr ∷ [] }
place thr r insufficient = record r { insufficient_ones = r.insufficient_ones ++ thr ∷ [] }
place thr r pod_requests_exceeds_threshold = record r { exceeding = r.exceeding ++ thr ∷ [] }
place thr r not_throttled = r

module _ {Q L Store : Type 0} ⦃q : Quantity Q⦄ (env : ClusterEnvironment Q L Store) where
  unfoldable pub is_responsible_for : ClusterThrottle Q L → Bool
  is_responsible_for thr = env.throttler_name == thr.spec.base.throttler_name

  unfoldable pub should_count_in : Pod Q → Bool
  unfolding is_scheduled
  should_count_in pod = (pod.scheduler_name == env.target_scheduler_name) && is_scheduled pod

  unfoldable pub find_pods : ClusterThrottle Q L → List Namespace → Found Q → Result (Found Q)
  find_pods thr [] f = ok f
  find_pods thr (ns ∷ nss) f =
      let skip = find_pods thr nss f in
      let take : Result (Found Q) = do
        pods_in_ns ← env.list_pods ns.name
        find_pods thr nss (record { pods = f.pods ++ pods_in_ns; ns_map = put ns.name ns f.ns_map })
      in do
        match ← matches_to_namespace env.as_selector thr.spec.selector (some ns)
        (if not match then skip else take)

  -- The slices have an array each, so they are lists: `nonterminatedPods` and `terminatedPods`.
  unfoldable pub sort_pods :
      ClusterThrottle Q L
      → GoMap String Namespace
      → List (Pod Q)
      → List (Pod Q) × List (Pod Q)
      → Result (List (Pod Q) × List (Pod Q))
  unfolding should_count_in is_not_finished
  sort_pods thr ns_map [] s = ok s
  sort_pods thr ns_map (pod ∷ pods) s =
      let skip = sort_pods thr ns_map pods s in
      let running = sort_pods thr ns_map pods (s.0 ++ pod ∷ [], s.1) in
      let finished = sort_pods thr ns_map pods (s.0, s.1 ++ pod ∷ []) in
      if not (should_count_in pod) then skip else do
        match ←
            cluster_matches_to_pod env.as_selector thr.spec.selector pod (get pod.namespace ns_map)
        if not match then skip else if is_not_finished pod then running else finished

  -- the pods that a throttle counts, and those that have terminated
  unfoldable pub affected_pods : ClusterThrottle Q L → Result (List (Pod Q) × List (Pod Q))
  unfolding find_pods sort_pods
  affected_pods thr = do
    nss ← env.list_namespaces
    f ← find_pods thr nss (record { pods = []; ns_map = [] })
    sort_pods thr f.ns_map f.pods ([], [])

  unfoldable pub affecting :
      Namespace → Pod Q → List (ClusterThrottle Q L) → Result (List (ClusterThrottle Q L))
  unfolding is_responsible_for
  affecting ns pod [] = ok []
  affecting ns pod (throttle ∷ throttles) =
      let rest = affecting ns pod throttles in
      if not (is_responsible_for throttle) then rest else do
        match ← cluster_matches_to_pod env.as_selector throttle.spec.selector pod (some ns)
        if match then (do others ← rest; ok (throttle ∷ others)) else rest

  unfoldable pub affected_cluster_throttles : Store → Pod Q → Result (List (ClusterThrottle Q L))
  unfolding affecting
  affected_cluster_throttles store pod = do
    ns ← env.get_namespace pod.namespace
    throttles ← env.list_throttles store
    affecting ns pod throttles

  unfoldable pub reserve_on_cluster_throttle :
      Pod Q → ClusterThrottle Q L → ReservedResourceAmounts Q → ReservedResourceAmounts Q × Bool
  reserve_on_cluster_throttle pod thr c = add_pod c (nn_of thr) pod

  unfoldable pub un_reserve_on_cluster_throttle :
      Pod Q → ClusterThrottle Q L → ReservedResourceAmounts Q → ReservedResourceAmounts Q × Bool
  un_reserve_on_cluster_throttle pod thr c = remove_pod c (nn_of thr) pod

  unfoldable pub reserve :
      Pod Q → ClusterState Q L Store → Result (Unit {0}) × ClusterState Q L Store
  unfolding affected_cluster_throttles reserve_on_cluster_throttle
  reserve pod s = elim (affected_cluster_throttles s.throttles pod) [
    | err e ↦ (err e, s)
    | ok throttles ↦ (
      ok tt,
      record s {
        cache = for_each throttles s.cache (λ thr c. (reserve_on_cluster_throttle pod thr c).0);
      },
    )
  ]

  unfoldable pub un_reserve :
      Pod Q → ClusterState Q L Store → Result (Unit {0}) × ClusterState Q L Store
  unfolding affected_cluster_throttles un_reserve_on_cluster_throttle
  un_reserve pod s = elim (affected_cluster_throttles s.throttles pod) [
    | err e ↦ (err e, s)
    | ok throttles ↦ (
      ok tt,
      record s {
        cache = for_each throttles s.cache (λ thr c. (un_reserve_on_cluster_throttle pod thr c).0);
      },
    )
  ]

  -- what a throttle says of a pod, with what is reserved on it
  unfoldable pub check_on :
      ReservedResourceAmounts Q → Pod Q → Bool → ClusterThrottle Q L → CheckThrottleStatus
  check_on c pod on_equal thr =
      cluster_check_throttled_for thr pod (reserved_resource_amount c (nn_of thr)).0 on_equal

  -- the round of the loop of `CheckThrottled`
  unfoldable pub check_one :
      ReservedResourceAmounts Q
      → Pod Q
      → Bool
      → ClusterThrottle Q L
      → ClusterChecked Q L
      → ClusterChecked Q L
  unfolding check_on place
  check_one c pod on_equal thr r =
      place thr (record r { affected = r.affected ++ thr ∷ [] }) (check_on c pod on_equal thr)

  unfoldable pub check_throttled :
      ClusterState Q L Store → Pod Q → Bool → Result (ClusterChecked Q L)
  unfolding affected_cluster_throttles check_one
  check_throttled s pod on_equal = do
    throttles ← affected_cluster_throttles s.throttles pod
    ok (
        for_each throttles
          (record { already_throttled = []; insufficient_ones = []; exceeding = []; affected = [] })
          (check_one s.cache pod on_equal))
