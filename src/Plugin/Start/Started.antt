-- ===== src/Plugin/Start/Started.antt =====
-- When `NewPlugin` of plugin.go returns a plugin, and which.
use kube_throttler.Prelude.{
  string_eq, ◌==◌, ℕ, zero, suc, String, ◌≡◌, ◌≢◌, refl, sym, ◌∙◌, ap, subst, Bool, true, false,
  List, [], ◌∷◌, ◌++◌, arith, if◌then◌else◌, ◌↔◌, inl, inr, Bool-cases,
}
use mathlib.Core.List.{append_assoc, append-nil}
use kube_throttler.Prelude.Int.{ℤ, pos, negsuc, pos_part, beq_ℤ, beq_ℤ_iff}
use kube_throttler.Prelude.Lists.{All}
use kube_throttler.Errors.{Result, ok, err, ◌>>=◌, Result-cases, ok-injective, ok-subst}
use kube_throttler.Reserved.{new_reserved_resource_amounts}
use kube_throttler.Controller.{ControllerBase, launch, start}
use kube_throttler.Plugin.{
  KubeThrottlerPluginArgs, decode_plugin_args, default_reconcile_temporary_threshold_interval,
}
use kube_throttler.Plugin.Start.{
  Host, Running, check_synced, start_controllers, new_controllers, new_plugin,
}
use kube_throttler.ThrottleController.Construct.{new_throttle_controller}
use kube_throttler.ClusterThrottleController.Construct.{new_cluster_throttle_controller}

-- What the plugin needs of its arguments.
pub record IsValid (args : KubeThrottlerPluginArgs) : Type 0 where
  pub named : args.name ≢ ""
  pub scheduler_named : args.target_scheduler_name ≢ ""
  pub interval_set : args.reconcile_temporary_threshold_interval ≢ pos 0
  pub threadiness_set : args.controller_threadiness ≢ pos 0

-- So many workers of one controller.
abbrev pub workers_of : ControllerBase → ℕ → List ControllerBase
workers_of c zero = []
workers_of c (suc n) = c ∷ workers_of c n

launch_lem :
    (c : ControllerBase) (n : ℤ) (workers : List ControllerBase)
    → launch c n workers ≡ workers ++ workers_of c (pos_part n)
unfolding launch
launch_lem c (pos zero) workers = sym (append-nil workers)
launch_lem c (pos (suc n)) workers =
    launch_lem c (pos n) (workers ++ c ∷ []) ∙ append_assoc workers (c ∷ []) (workers_of c n)
launch_lem c (negsuc n) workers = sym (append-nil workers)

check_synced_iff :
    (caches : List (String × Bool)) → (check_synced caches ≡ ok tt) ↔ All (λ i. i.1 ≡ true) caches
unfolding check_synced
check_synced_iff [] = (λ _. tt, λ _. refl)
check_synced_iff ((informer, true) ∷ rest) =
    let h = check_synced_iff rest in (λ e. (refl, h.0 e), λ a. h.1 a.1)
check_synced_iff ((informer, false) ∷ rest) = (λ e. absurd (cc), λ a. absurd (cc))

-- A number that stands in for zero.
abbrev default_for : ℤ → ℤ → ℤ
default_for d x = if beq_ℤ x (pos 0) then d else x

default_for_ne : (d x : ℤ) → d ≢ pos 0 → default_for d x ≢ pos 0
default_for_ne d x ne e = elim (Bool-cases (beq_ℤ x (pos 0))) [
  | inl zero_ ↦ ne (sym (ap (λ b. if b then d else x) zero_) ∙ e)
  | inr other ↦
      let same : x ≡ pos 0 = sym (ap (λ b. if b then d else x) other) ∙ e in
      absurd (ground (arith, other, (beq_ℤ_iff x (pos 0)).1 same))
]

abbrev filled : ℤ → KubeThrottlerPluginArgs → KubeThrottlerPluginArgs
filled num_cpu args = record args {
  reconcile_temporary_threshold_interval =
      default_for default_reconcile_temporary_threshold_interval
        args.reconcile_temporary_threshold_interval;
  controller_threadiness = default_for num_cpu args.controller_threadiness;
}

not_empty : (s : String) → (s == "") ≡ false → s ≢ ""
not_empty s h e = absurd (ground (arith, h, (string_eq.beq_iff s "").1 e))

interval_ne : default_reconcile_temporary_threshold_interval ≢ pos 0
interval_ne e =
    absurd (ground (arith, (beq_ℤ_iff default_reconcile_temporary_threshold_interval (pos 0)).1 e))

-- If the host has a processor, then whatever `DecodePluginArgs` returns without an error names the
-- throttler and the scheduler, and has an interval and a number of workers other than zero.
pub decode_plugin_args-IsValid :
    (num_cpu : ℤ) (configuration : Result KubeThrottlerPluginArgs) (args : KubeThrottlerPluginArgs)
    → num_cpu ≢ pos 0
    → decode_plugin_args num_cpu configuration ≡ ok args
    → IsValid args
unfolding decode_plugin_args
decode_plugin_args-IsValid num_cpu (err e) args cpu h = absurd (cc)
decode_plugin_args-IsValid num_cpu (ok args') args cpu h = elim (Bool-cases (args'.name == "")) [
  | inl unnamed ↦ absurd (ground (arith, unnamed, h))
  | inr named ↦ elim (Bool-cases (args'.target_scheduler_name == "")) [
    | inl unnamed ↦ absurd (ground (arith, named, unnamed, h))
    | inr scheduler_named ↦
        ok-subst IsValid {a = filled num_cpu args'}
          (sym (rw (named, scheduler_named, decode_plugin_args) refl) ∙ h)
          (record {
            named = not_empty args'.name named;
            scheduler_named = not_empty args'.target_scheduler_name scheduler_named;
            interval_set =
                default_for_ne default_reconcile_temporary_threshold_interval
                  args'.reconcile_temporary_threshold_interval interval_ne;
            threadiness_set = default_for_ne num_cpu args'.controller_threadiness cpu;
          })
  ]
]

module _ {Q L Store ClusterStore G F C : Type 0} (host : Host Q L Store ClusterStore G F C)
    (configuration : Result KubeThrottlerPluginArgs) where
  -- What a plugin that starts with arguments `args` is like.
  pub record IsFresh (args : KubeThrottlerPluginArgs) (running : Running Q L Store ClusterStore G)
      : Type 0 where
    pub nothing_reserved : running.plugin.throttle_ctr.cache ≡ new_reserved_resource_amounts
    pub nothing_reserved_cluster :
        running.plugin.cluster_throttle_ctr.cache ≡ new_reserved_resource_amounts
    pub throttler : running.throttle_controller.env.throttler_name ≡ args.name
    pub cluster_throttler : running.cluster_throttle_controller.env.throttler_name ≡ args.name
    pub scheduler :
        running.throttle_controller.env.target_scheduler_name ≡ args.target_scheduler_name
    pub cluster_scheduler :
        running.cluster_throttle_controller.env.target_scheduler_name ≡ args.target_scheduler_name
    pub kind : running.throttle_controller.base.target_kind ≡ "Throttle"
    pub cluster_kind : running.cluster_throttle_controller.base.target_kind ≡ "ClusterThrottle"
    pub workers_started :
        running.workers
        ≡ workers_of running.throttle_controller.base (pos_part args.controller_threadiness)
          ++ workers_of running.cluster_throttle_controller.base
              (pos_part args.controller_threadiness)

  -- the plugin that `NewPlugin` returns
  abbrev made : KubeThrottlerPluginArgs → C → Running Q L Store ClusterStore G
  made args c =
      let (throttle_controller, cluster_throttle_controller, gauges) =
        new_controllers host args c in
      record {
        throttle_controller = throttle_controller;
        cluster_throttle_controller = cluster_throttle_controller;
        plugin = record {
          throttle_ctr = throttle_controller.state;
          cluster_throttle_ctr = cluster_throttle_controller.state;
          events = [];
        };
        gauges = gauges;
        workers =
            launch cluster_throttle_controller.base cluster_throttle_controller.base.threadiness
              (launch throttle_controller.base throttle_controller.base.threadiness []);
      }

  starts :
      (args : KubeThrottlerPluginArgs) (c : C)
      → decode_plugin_args host.num_cpu configuration ≡ ok args
      → host.build_config_from_flags "" args.kube_config ≡ ok c
      → host.schedule_client c ≡ ok tt
      → host.kubernetes_client c ≡ ok tt
      → check_synced (host.schedule_caches c) ≡ ok tt
      → check_synced (host.core_caches c) ≡ ok tt
      → new_plugin host configuration ≡ ok (made args c)
  unfolding new_plugin start_controllers start
  starts args c decoded built client client' synced synced' =
      rw (decoded, built, client, client', synced, synced', new_plugin, ◌>>=◌) refl

  made-IsFresh : (args : KubeThrottlerPluginArgs) (c : C) → IsFresh args (made args c)
  unfolding new_controllers new_throttle_controller new_cluster_throttle_controller
  made-IsFresh args c = record {
    nothing_reserved = refl;
    nothing_reserved_cluster = refl;
    throttler = refl;
    cluster_throttler = refl;
    scheduler = refl;
    cluster_scheduler = refl;
    kind = refl;
    cluster_kind = refl;
    workers_started =
        launch_lem (made args c).cluster_throttle_controller.base args.controller_threadiness _
        ∙ ap
            (λ w.
              w
              ++ workers_of (made args c).cluster_throttle_controller.base
                  (pos_part args.controller_threadiness))
            (launch_lem (made args c).throttle_controller.base args.controller_threadiness []);
  }

  abbrev Ready : Type 0
  Ready =
      (args : KubeThrottlerPluginArgs) × (c : C) × (decode_plugin_args host.num_cpu configuration
        ≡ ok args)
      × (host.build_config_from_flags "" args.kube_config ≡ ok c)
      × (host.schedule_client c ≡ ok tt)
      × (host.kubernetes_client c ≡ ok tt)
      × All (λ i. i.1 ≡ true) (host.schedule_caches c)
      × All (λ i. i.1 ≡ true) (host.core_caches c)

  synced_caches :
      (running : Running Q L Store ClusterStore G) (args : KubeThrottlerPluginArgs) (c : C)
      → decode_plugin_args host.num_cpu configuration ≡ ok args
      → host.build_config_from_flags "" args.kube_config ≡ ok c
      → host.schedule_client c ≡ ok tt
      → host.kubernetes_client c ≡ ok tt
      → new_plugin host configuration ≡ ok running
      → All (λ i. i.1 ≡ true) (host.schedule_caches c) × All (λ i. i.1 ≡ true) (host.core_caches c)
  unfolding new_plugin
  synced_caches running args c decoded built client client' h =
      elim (Result-cases (check_synced (host.schedule_caches c))) [
        | inr (e, failed) ↦ absurd (ground (arith, decoded, built, client, client', failed, h))
        | inl (tt, synced) ↦ elim (Result-cases (check_synced (host.core_caches c))) [
          | inr (e, failed) ↦
              absurd (ground (arith, decoded, built, client, client', synced, failed, h))
          | inl (tt, synced') ↦ (
            (check_synced_iff (host.schedule_caches c)).0 synced,
            (check_synced_iff (host.core_caches c)).0 synced',
          )
        ]
      ]

  ready :
      (running : Running Q L Store ClusterStore G)
      → new_plugin host configuration ≡ ok running
      → Ready
  unfolding new_plugin
  ready running h = elim (Result-cases (decode_plugin_args host.num_cpu configuration)) [
    | inr (e, failed) ↦ absurd (ground (arith, failed, h))
    | inl (args, decoded) ↦ elim (Result-cases (host.build_config_from_flags "" args.kube_config)) [
      | inr (e, failed) ↦ absurd (ground (arith, decoded, failed, h))
      | inl (c, built) ↦ elim (Result-cases (host.schedule_client c)) [
        | inr (e, failed) ↦ absurd (ground (arith, decoded, built, failed, h))
        | inl (tt, client) ↦ elim (Result-cases (host.kubernetes_client c)) [
          | inr (e, failed) ↦ absurd (ground (arith, decoded, built, client, failed, h))
          | inl (tt, client') ↦
              let (synced, synced') = synced_caches running args c decoded built client client' h in
              (args, c, decoded, built, client, client', synced, synced')
        ]
      ]
    ]
  ]

  pub new_plugin_iff :
      ((running : Running Q L Store ClusterStore G) × (new_plugin host configuration ≡ ok running))
      ↔ ((args : KubeThrottlerPluginArgs) × (c : C) × (decode_plugin_args host.num_cpu configuration
            ≡ ok args)
          × (host.build_config_from_flags "" args.kube_config ≡ ok c)
          × (host.schedule_client c ≡ ok tt)
          × (host.kubernetes_client c ≡ ok tt)
          × All (λ i. i.1 ≡ true) (host.schedule_caches c)
          × All (λ i. i.1 ≡ true) (host.core_caches c))
  new_plugin_iff = (
    λ h. ready h.0 h.1,
    λ (args, c, decoded, built, client, client', synced, synced'). (
      made args c,
      starts args c decoded built client client'
          ((check_synced_iff (host.schedule_caches c)).1 synced)
          ((check_synced_iff (host.core_caches c)).1 synced'),
    ),
  )

  -- A plugin that `NewPlugin` returns has a controller of throttles and one of cluster throttles,
  -- each made with the names of the arguments and with nothing reserved, and the workers that run
  -- are as many of the first as the arguments say, then as many of the second.
  pub new_plugin-IsFresh :
      (args : KubeThrottlerPluginArgs) (running : Running Q L Store ClusterStore G)
      → decode_plugin_args host.num_cpu configuration ≡ ok args
      → new_plugin host configuration ≡ ok running
      → IsFresh args running
  new_plugin-IsFresh args running decoded h =
      let (args', c, decoded', built, client, client', synced, synced') = ready running h in
      let same : args' ≡ args = ok-injective (sym decoded' ∙ decoded) in
      subst (λ a. IsFresh a running) same
        (ok-subst (IsFresh args')
          (sym (
              starts args' c decoded' built client client'
                ((check_synced_iff (host.schedule_caches c)).1 synced)
                ((check_synced_iff (host.core_caches c)).1 synced'))
            ∙ h)
          (made-IsFresh args' c))
