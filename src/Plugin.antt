-- ===== src/Plugin.antt =====
-- pkg/scheduler_plugin/plugin.go and plugin_args.go: the extension points of the scheduler's
-- framework, over the two controllers, and the plugin's arguments. Logging is left out, and the
-- text of a reason is a `Reason` with the names that it lists.
pub mod Verdict
pub mod Scheduling
pub mod RoundTrip
pub mod Start
use kube_throttler.Prelude.{
  ℕ, String, Bool, true, false, not, List, [], ◌∷◌, ◌++◌, ◌+◌, string_eq, ◌==◌, nat_beq, ltb,
  if◌then◌else◌,
}
use kube_throttler.Prelude.Int.{ℤ, pos, beq_ℤ}
use kube_throttler.Prelude.Lists.{length, for_each}
use kube_throttler.Quantity.{Quantity}
use kube_throttler.Errors.{Error, wrap, message, Result, ok, err, ◌>>=◌}
use kube_throttler.Pod.{Pod}
use kube_throttler.Throttle.{
  Throttle, ClusterThrottle, CheckThrottleStatus, active, insufficient,
  pod_requests_exceeds_threshold,
}
use kube_throttler.NamespacedName.{NamespacedName}
use kube_throttler.Controller.{handle_error}
use kube_throttler.ThrottleController
use kube_throttler.ThrottleController.{Environment, State, Checked}
use kube_throttler.ClusterThrottleController
use kube_throttler.ClusterThrottleController.{ClusterEnvironment, ClusterState, ClusterChecked}

-- `throttle[…]=…` and `clusterthrottle[…]=…`
pub data Reason : Type 0 where
  throttle_reason : CheckThrottleStatus → List NamespacedName → Reason
  clusterthrottle_reason : CheckThrottleStatus → List NamespacedName → Reason

-- The codes of `framework.Status` that the plugin uses, with its messages.
pub data Status : Type 0 where
  success : Status
  error : List Error → Status
  unschedulable_and_unresolvable : List Reason → Status

-- The plugin, with the events that it has recorded: a pod and the names in the note.
pub record KubeThrottler (Q L Store ClusterStore : Type 0) : Type 0 where
  pub throttle_ctr : State Q L Store
  pub cluster_throttle_ctr : ClusterState Q L ClusterStore
  pub events : List (Pod Q × List NamespacedName)

-- `if len(list) > 0 { reasons = append(reasons, …) }`
abbrev pub add_reason :
    List NamespacedName → (List NamespacedName → Reason) → List Reason → List Reason
add_reason names reason reasons =
    if ltb 0 (length names) then reasons ++ reason names ∷ [] else reasons

module _ {Q L : Type 0} where
  -- the loop of `throttleNames`
  unfoldable pub throttle_names : List (Throttle Q L) → List NamespacedName
  throttle_names [] = []
  throttle_names (obj ∷ objs) =
      record { namespace = obj.namespace; name = obj.name } ∷ throttle_names objs

  unfoldable pub cluster_throttle_names : List (ClusterThrottle Q L) → List NamespacedName
  cluster_throttle_names [] = []
  cluster_throttle_names (obj ∷ objs) =
      record { namespace = obj.namespace; name = obj.name } ∷ cluster_throttle_names objs

  -- the reasons of a refusal, in the order of the source
  unfoldable pub reasons_of : Checked Q L → ClusterChecked Q L → List Reason
  unfolding throttle_names cluster_throttle_names
  reasons_of thr clthr =
      add_reason (throttle_names thr.insufficient_ones) (throttle_reason insufficient) (
        add_reason (cluster_throttle_names clthr.insufficient_ones)
          (clusterthrottle_reason insufficient)
          (add_reason (throttle_names thr.already_throttled) (throttle_reason active) (
            add_reason (cluster_throttle_names clthr.already_throttled)
              (clusterthrottle_reason active)
              (add_reason (throttle_names thr.exceeding)
                (throttle_reason pod_requests_exceeds_threshold)
                (add_reason (cluster_throttle_names clthr.exceeding)
                  (clusterthrottle_reason pod_requests_exceeds_threshold) [])))))

-- `if err != nil { errs = append(errs, …) }`
abbrev pub add_error : String → Result (Unit {0}) → List Error → List Error
add_error text (ok u) errs = errs
add_error text (err e) errs = errs ++ wrap text e ∷ []

abbrev pub reserve_status : List Error → Status
reserve_status [] = success
reserve_status (e ∷ es) = error (e ∷ es)

module _ {Q L Store ClusterStore : Type 0} ⦃q : Quantity Q⦄ (env : Environment Q L Store)
    (cluster_env : ClusterEnvironment Q L ClusterStore) where
  -- what `PreFilter` does when both checks have returned
  unfoldable pub judge :
      Pod Q
      → Checked Q L
      → ClusterChecked Q L
      → KubeThrottler Q L Store ClusterStore
      → Status × KubeThrottler Q L Store ClusterStore
  unfolding reasons_of
  judge pod thr clthr pl =
      if nat_beq
        (length thr.already_throttled
          + length thr.insufficient_ones
          + length thr.exceeding
          + length clthr.already_throttled
          + length clthr.insufficient_ones
          + length clthr.exceeding)
        0
      then (success, pl)
      else (
        unschedulable_and_unresolvable (reasons_of thr clthr),
        (if ltb 0 (length clthr.exceeding + length thr.exceeding)
            then record pl {
              events =
                  pl.events
                  ++ (pod, cluster_throttle_names clthr.exceeding ++ throttle_names thr.exceeding)
                    ∷ [];
            }
            else pl),
      )

  unfoldable pub pre_filter :
      Pod Q → KubeThrottler Q L Store ClusterStore → Status × KubeThrottler Q L Store ClusterStore
  unfolding judge
  pre_filter pod pl = elim (ThrottleController.check_throttled env pl.throttle_ctr pod false) [
    | err e ↦ (error (e ∷ []), pl)
    | ok thr ↦
        elim (ClusterThrottleController.check_throttled cluster_env pl.cluster_throttle_ctr pod
          false) [ err e ↦ (error (e ∷ []), pl) | ok clthr ↦ judge pod thr clthr pl ]
  ]

  unfoldable pub reserve :
      Pod Q → KubeThrottler Q L Store ClusterStore → Status × KubeThrottler Q L Store ClusterStore
  unfolding ThrottleController.reserve ClusterThrottleController.reserve
  reserve pod pl =
      let (r, s) = ThrottleController.reserve env pod pl.throttle_ctr in
      let (r', s') = ClusterThrottleController.reserve cluster_env pod pl.cluster_throttle_ctr in
      (
        reserve_status (
            add_error "Failed to reserve pod in ClusterThrottleController" r'
              (add_error "Failed to reserve pod in ThrottleController" r [])),
        record pl { throttle_ctr = s; cluster_throttle_ctr = s' },
      )

  -- the handled errors of both calls stand in the log of the controller that they come from
  unfoldable pub unreserve :
      Pod Q → KubeThrottler Q L Store ClusterStore → KubeThrottler Q L Store ClusterStore
  unfolding ThrottleController.un_reserve ClusterThrottleController.un_reserve
  unreserve pod pl =
      let (r, s) = ThrottleController.un_reserve env pod pl.throttle_ctr in
      let (r', s') = ClusterThrottleController.un_reserve cluster_env pod pl.cluster_throttle_ctr in
      record pl {
        throttle_ctr = elim r [
          | ok u ↦ s
          | err e ↦ record s {
            log = handle_error (wrap "Failed to unreserve pod in ThrottleController" e) s.log;
          }
        ];
        cluster_throttle_ctr = elim r' [
          | ok u ↦ s'
          | err e ↦ record s' {
            log =
                handle_error (wrap "Failed to unreserve pod in ClusterThrottleController" e) s'.log;
          }
        ];
      }

pub record KubeThrottlerPluginArgs : Type 0 where
  pub name : String
  pub kube_config : String
  pub reconcile_temporary_threshold_interval : ℤ
  pub target_scheduler_name : String
  pub controller_threadiness : ℤ
  pub num_key_mutex : ℤ

-- `15 * time.Second`
abbrev pub default_reconcile_temporary_threshold_interval : ℤ
default_reconcile_temporary_threshold_interval = pos 15000000000

-- `decoded` is what the framework's `DecodeInto` returns, and `num_cpu` what `runtime.NumCPU` does.
unfoldable pub decode_plugin_args :
    ℤ → Result KubeThrottlerPluginArgs → Result KubeThrottlerPluginArgs
decode_plugin_args num_cpu (err e) = err (message "Failed to decode into PluginConfig")
decode_plugin_args num_cpu (ok args) =
    if args.name == ""
    then err (message "Name must not be empty")
    else if args.target_scheduler_name == ""
    then err (message "TargetSchedulerName must not be empty")
    else ok (record args {
      reconcile_temporary_threshold_interval =
          if beq_ℤ args.reconcile_temporary_threshold_interval (pos 0)
          then default_reconcile_temporary_threshold_interval
          else args.reconcile_temporary_threshold_interval;
      controller_threadiness =
          if beq_ℤ args.controller_threadiness (pos 0)
          then num_cpu
          else args.controller_threadiness;
    })
