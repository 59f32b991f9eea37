-- ===== src/Tests.antt =====
-- Concrete quantities, pods, throttles and libraries; the child modules have the theorems at them.
mod Admission
mod Overrides
mod Reservations
mod Reconciliation
mod Amounts
mod Clusters
mod Scheduling
mod Gauges
mod Handling
mod Starting
mod Ledgers
use kube_throttler.Prelude.{
  string_eq, ◌==◌, ◌≡◌, refl, String, Bool, true, false, Option, none, some, List, [], ◌∷◌, ℕ, ◌+◌,
  if◌then◌else◌, ◌↔◌, inl, inr, ◌&&◌, not, arith,
}
use kube_throttler.Prelude.Int.{ℤ, pos, ◌+ℤ◌, ◌-ℤ◌, compare_ℤ, beq_ℤ, ◌≤ℤ◌}
use kube_throttler.Prelude.GoMap.{get, has, put, delete, IsMap, for_range}
use kube_throttler.Prelude.Lists.{any, All, In, select, for_each}
use kube_throttler.Quantity.{Quantity}
use kube_throttler.Errors.{external, ok, err}
use kube_throttler.Pod.{Pod, ResourceList, is_scheduled, is_not_finished}
use kube_throttler.ResourceAmount.{
  ResourceAmount, no_amount, resource_amount_of_pod, is_throttled, is_throttled_for,
}
use kube_throttler.Throttle.{
  Time, Throttle, ThrottleSelectorTerm, ClusterThrottle, ThrottleStatus, ThrottleSpecBase,
  TemporaryThresholdOverride, not_throttled, active, insufficient, pod_requests_exceeds_threshold,
}
use kube_throttler.NamespacedName.{NamespacedName, nn_eq, nn_of_pod}
use kube_throttler.Selector.{
  Labels, Namespace, matches_to_namespace, matches_to_pod, cluster_matches_to_pod,
}
use kube_throttler.Reserved.{
  ReservedResourceAmounts, PodResourceAmountMap, NameSet, add_pod, remove_pod,
  reserved_resource_amount, total_resource_amount, move_throttle_assignment_for_pods,
}
use kube_throttler.Reserved.Total.{IsTidy, pod_amount, count-total}
use kube_throttler.Reserved.Moves.{
  IsWellFormed, add_pod-IsWellFormed, reserved-add_pod, reserved-remove_pod, pods_of-move,
}
use kube_throttler.ResourceAmount.Throttled.{
  exceeded, flag_at, count_of, Fits, flag-is_throttled, not_throttled_iff,
}
use kube_throttler.ResourceList.PodRequest.{IsPod, requested, amount_of-pod_request}
use kube_throttler.ResourceList.Compare.{Covers, amount_at, greater_or_equal_iff, equal_to_iff}
use kube_throttler.Selector.Terms.{matches_to_pod_iff, cluster_matches-namespace}
use kube_throttler.Controller.{Log}
use kube_throttler.ResourceList.Entries.{
  amount_of, join, meet, max_ℤ, min_ℤ, get-add, get-set_max, get-set_min,
}
use kube_throttler.ResourceList
use kube_throttler.ResourceList.{
  pod_request_resource_list, set_max, set_max_entry, quantity_max, set_min, greater_or_equal,
  equal_to,
}
use kube_throttler.Throttle.{effective_threshold, check_throttled_for, cluster_check_throttled_for}
use kube_throttler.Throttle.Check.{
  Admissible, check_not_throttled_iff, cluster_check_not_throttled_iff,
}
use kube_throttler.Throttle.Within.{total_request, total_count}
use kube_throttler.Throttle.Admission.{admitted_requests, admitted_count}
use kube_throttler.ThrottleSpec.{
  is_active, begin_time, end_time, calculate_threshold, next_override_happens_in, merge_requests,
}
use kube_throttler.ThrottleSpec.Active.{InTerm, is_active_iff, end_instant_missed}
use kube_throttler.ThrottleSpec.Merge.{
  actives, unreadable, first_count_of, first_request_of, calculate_threshold-none,
  calculate_threshold-merged,
}
use kube_throttler.ThrottleSpec.Wakeup.{threshold_steady}
use kube_throttler.Throttle.Agreement.{checks_agree}
use kube_throttler.Reserved.Entries.{pods_of}
use kube_throttler.ThrottleController
use kube_throttler.ThrottleController.{Environment, State, nn_of, affected_throttles}
use kube_throttler.ThrottleController.Handlers.{reassign}
use kube_throttler.ThrottleController.Handlers.Assignment.{is_name, pods_of-reassign}
use kube_throttler.Reserved.Ledger.{entry}
use kube_throttler.ThrottleController.Reservations.{
  entry-reserve, entry-un_reserve, entry-unreserve_affected_pods, un_reserve-reserve,
}
use kube_throttler.ClusterThrottleController
use kube_throttler.ClusterThrottleController.{
  ClusterEnvironment, ClusterState, affected_cluster_throttles,
}
use kube_throttler.ThrottleController.{
  reserve, un_reserve, affected_pods, should_count_in, check_throttled,
}
use kube_throttler.ThrottleController.Checks.{says, check_throttled_lem}
use kube_throttler.ThrottleController.Affected.{
  concerns, is_running, affected_pods_lem, terminated_forgotten,
}
use kube_throttler.ThrottleController.Reconcile.{new_status, reconcile, unreserve_affected_pods}
use kube_throttler.ThrottleController.Reconcile.Outcome.{
  IsReflexive, new_status-new_status, failed_update-dropped,
}
use kube_throttler.ClusterThrottleController.{Found, find_pods}
use kube_throttler.ClusterThrottleController.Affected as Cluster
use kube_throttler.ClusterThrottleController.Affected.{cluster_affected_pods_lem}
use kube_throttler.ClusterThrottleController.Checks as ClusterChecks
use kube_throttler.ClusterThrottleController.Checks.{cluster_check_throttled_lem}
use kube_throttler.ClusterThrottleController.Reservations.{
  cluster_entry-reserve, cluster_un_reserve-reserve,
}
use kube_throttler.Plugin.{KubeThrottler, error, success, pre_filter}
use kube_throttler.Plugin.Verdict.{pre_filter-success_iff, pre_filter-error}

instance abbrev pub ints : Quantity ℤ
ints = record {
  amount = λ x. x;
  zero_quantity = pos 0;
  add = ◌+ℤ◌;
  sub = ◌-ℤ◌;
  cmp = compare_ℤ;
  is_zero = λ x. beq_ℤ x (pos 0);
  amount-zero = refl;
  amount-add = λ x y. refl;
  amount-sub = λ x y. refl;
  cmp_lem = λ x y. refl;
  is_zero_lem = λ x. refl;
}

abbrev pub Sel : Type 0
Sel = Labels → Bool

abbrev pub web : Pod ℤ
web = record {
  namespace = "default";
  name = "web";
  labels = ("app", "web") ∷ [];
  scheduler_name = "kube-throttler";
  node_name = "node-1";
  phase = "Running";
  init_containers = record { requests = ("cpu", pos 1) ∷ [] } ∷ [];
  containers =
      record { requests = ("cpu", pos 2) ∷ [] } ∷ record { requests = ("cpu", pos 1) ∷ [] } ∷ [];
  overhead = none;
}

abbrev pub finished : Pod ℤ
finished = record web { name = "finished"; phase = "Succeeded" }

abbrev pub failed : Pod ℤ
failed = record web { name = "failed"; phase = "Failed" }

abbrev pub limit : ResourceAmount ℤ
limit = record {
  resource_counts = some (record { pod = pos 5 });
  resource_requests = ("cpu", pos 10) ∷ [];
}

abbrev pub spec : ThrottleSpecBase ℤ
spec = record {
  throttler_name = "kube-throttler";
  threshold = limit;
  temporary_threshold_overrides = [];
}

abbrev pub status : ThrottleStatus ℤ
status = record {
  calculated_threshold = record { threshold = limit; calculated_at = pos 1; messages = [] };
  throttled = record { resource_counts = record { pod = false }; resource_requests = [] };
  used = record {
    resource_counts = some (record { pod = pos 1 });
    resource_requests = ("cpu", pos 2) ∷ [];
  };
}

abbrev pub thr : Throttle ℤ Sel
thr = record {
  namespace = "default";
  name = "limit";
  uid = "7c9e";
  spec = record {
    base = spec;
    selector = record { selector_terms = record { pod_selector = λ ls. has "app" ls } ∷ [] };
  };
  status = status;
}

abbrev pub cluster : ClusterThrottle ℤ Sel
cluster = record {
  namespace = "";
  name = "limit";
  uid = "1f3a";
  spec = record {
    base = spec;
    selector = record {
      selector_terms =
          record {
            throttle_selector_term = record { pod_selector = λ ls. has "app" ls };
            namespace_selector = λ ls. true;
          }
          ∷ [];
    };
  };
  status = status;
}

abbrev pub default_ns : Namespace
default_ns = record { name = "default"; labels = [] }

-- A client that fails to update, over a store of one throttle.
abbrev pub env : Environment ℤ Sel (Throttle ℤ Sel)
env = record {
  throttler_name = "kube-throttler";
  target_scheduler_name = "kube-throttler";
  list_throttles = λ store _. ok (store ∷ []);
  get_throttle = λ store _ _. ok store;
  write_status = λ store t. t;
  list_pods = λ _. ok (finished ∷ failed ∷ []);
  update_status = λ t. err (external "conflict");
  split_key = λ key. ok ("default", key);
  key_of = λ e. ok "key";
  parse = λ s. if s == "begin" then ok (pos 100) else ok (pos 200);
  as_selector = ok;
  same_amount = λ a b. true;
  same_messages = λ a b. true;
  same_status = λ a b. elim a.used.resource_counts [
    | none ↦ true
    | some c ↦ elim b.used.resource_counts [ none ↦ false | some d ↦ true ]
  ];
  grow = λ n. n + n;
}

abbrev pub cluster_env : ClusterEnvironment ℤ Sel (ClusterThrottle ℤ Sel)
cluster_env = record {
  throttler_name = "kube-throttler";
  target_scheduler_name = "kube-throttler";
  list_throttles = λ store. ok (store ∷ []);
  get_throttle = λ store _. ok store;
  write_status = λ store t. t;
  list_namespaces = ok (default_ns ∷ []);
  get_namespace = λ _. ok default_ns;
  list_pods = λ _. ok (web ∷ finished ∷ []);
  update_status = ok;
  split_key = λ key. ok ("", key);
  key_of = λ e. ok "key";
  parse = λ s. if s == "begin" then ok (pos 100) else ok (pos 200);
  as_selector = ok;
  same_amount = λ a b. true;
  same_messages = λ a b. true;
  same_status = λ a b. true;
}

abbrev pub no_log : Log
no_log = record { queue = []; handled = [] }

abbrev pub state : State ℤ Sel (Throttle ℤ Sel)
state = record {
  throttles = thr;
  cache = record { cache = [] };
  log = no_log;
  recorded = [];
  updates = [];
}

abbrev pub cluster_state : ClusterState ℤ Sel (ClusterThrottle ℤ Sel)
cluster_state = record {
  throttles = cluster;
  cache = record { cache = [] };
  log = no_log;
  recorded = [];
  updates = [];
}

abbrev pub cluster_nn : NamespacedName
cluster_nn = ClusterThrottleController.nn_of cluster

abbrev pub plugin : KubeThrottler ℤ Sel (Throttle ℤ Sel) (ClusterThrottle ℤ Sel)
plugin = record { throttle_ctr = state; cluster_throttle_ctr = cluster_state; events = [] }

pub found_throttles : affected_throttles env thr web ≡ ok (thr ∷ [])
unfolding affected_throttles get matches_to_pod
found_throttles = refl

pub found_cluster_throttles : affected_cluster_throttles cluster_env cluster web ≡ ok (cluster ∷ [])
unfolding affected_cluster_throttles get cluster_matches_to_pod
found_cluster_throttles = refl

pub limit-IsMap : IsMap (effective_threshold thr.spec.base thr.status).resource_requests
unfolding effective_threshold get
limit-IsMap = (refl, tt)

pub listed_pods : affected_pods env thr ≡ ok ([], failed ∷ [])
unfolding affected_pods matches_to_pod get kube_throttler.Slices.elements
    kube_throttler.Slices.make_empty kube_throttler.Slices.append
listed_pods = refl

pub nothing_reserved : IsWellFormed state.cache
unfolding get
nothing_reserved nn = (tt, tt)
