-- ===== src/Tests/Starting.antt =====
-- Theorems on the plugin's start, on its workers and on `Reserve` and `Unreserve`, applied.
use kube_throttler.Prelude.{string_eq, ◌≡◌, ◌≢◌, refl, String, true, List, [], ◌∷◌, ◌↔◌}
use kube_throttler.Prelude.Int.{ℤ, pos}
use kube_throttler.Prelude.GoMap.{get}
use kube_throttler.Prelude.Lists.{All}
use kube_throttler.Errors.{external, ok, err}
use kube_throttler.NamespacedName.{nn_eq, nn_of_pod}
use kube_throttler.Throttle.{Throttle, ClusterThrottle}
use kube_throttler.Reserved.Ledger.{entry}
use kube_throttler.Controller.{Item, key, other}
use kube_throttler.ThrottleController
use kube_throttler.ThrottleController.{Environment, nn_of}
use kube_throttler.ClusterThrottleController
use kube_throttler.Plugin.{KubeThrottlerPluginArgs, success, decode_plugin_args, reserve, unreserve}
use kube_throttler.Plugin.RoundTrip.{unreserve-reserve}
use kube_throttler.Plugin.Start.{Host, Running, new_plugin}
use kube_throttler.Plugin.Start.Started.{
  IsValid, IsFresh, decode_plugin_args-IsValid, new_plugin_iff, new_plugin-IsFresh,
}
use kube_throttler.Tests.{
  ints, Sel, web, thr, cluster, env, cluster_env, plugin, found_throttles, found_cluster_throttles,
}
use kube_throttler.Tests.Gauges.{Memory, memory}

abbrev items : List Item
items = key "default/limit" ∷ other ∷ []

abbrev args : KubeThrottlerPluginArgs
args = record {
  name = "kube-throttler";
  kube_config = "/etc/kubeconfig";
  reconcile_temporary_threshold_interval = pos 0;
  target_scheduler_name = "my-scheduler";
  controller_threadiness = pos 0;
  num_key_mutex = pos 0;
}

abbrev args_used : KubeThrottlerPluginArgs
args_used = record args {
  reconcile_temporary_threshold_interval = pos 15000000000;
  controller_threadiness = pos 4;
}

four_cpus : pos 4 ≢ pos 0
four_cpus e = absurd (cc)

decoded : decode_plugin_args (pos 4) (ok args) ≡ ok args_used
unfolding decode_plugin_args
decoded = refl

decode_plugin_args-IsValid_example : IsValid args_used
decode_plugin_args-IsValid_example =
    decode_plugin_args-IsValid (pos 4) (ok args) args_used four_cpus decoded

abbrev host : Host ℤ Sel (Throttle ℤ Sel) (ClusterThrottle ℤ Sel) Memory ℤ String
host = record {
  num_cpu = pos 4;
  build_config_from_flags = λ url path. ok path;
  schedule_client = λ c. ok tt;
  kubernetes_client = λ c. ok tt;
  libraries = λ c. env;
  cluster_libraries = λ c. cluster_env;
  store = λ c. thr;
  cluster_store = λ c. cluster;
  schedule_caches = λ c. ("throttles", true) ∷ ("clusterthrottles", true) ∷ [];
  core_caches = λ c. ("pods", true) ∷ ("namespaces", true) ∷ [];
  prometheus = memory;
}

abbrev RunningPlugin : Type 0
RunningPlugin = Running ℤ Sel (Throttle ℤ Sel) (ClusterThrottle ℤ Sel) Memory

new_plugin_iff_example : ((running : RunningPlugin) × (new_plugin host (ok args) ≡ ok running)) ↔ (
    (a : KubeThrottlerPluginArgs) × (c : String) × (decode_plugin_args (pos 4) (ok args) ≡ ok a)
    × (host.build_config_from_flags "" a.kube_config ≡ ok c)
    × (host.schedule_client c ≡ ok tt)
    × (host.kubernetes_client c ≡ ok tt)
    × All (λ i. i.1 ≡ true) (host.schedule_caches c)
    × All (λ i. i.1 ≡ true) (host.core_caches c))
new_plugin_iff_example = new_plugin_iff host (ok args)

started : (running : RunningPlugin) × (new_plugin host (ok args) ≡ ok running)
started = new_plugin_iff_example.1 (
  args_used,
  "/etc/kubeconfig",
  decoded,
  refl,
  refl,
  refl,
  (refl, (refl, tt)),
  (refl, (refl, tt)),
)

new_plugin-IsFresh_example : IsFresh host (ok args) args_used started.0
new_plugin-IsFresh_example = new_plugin-IsFresh host (ok args) args_used started.0 decoded started.1

unreserve-reserve_example :
    let pl' = (reserve env cluster_env web plugin).1 in
    let pl'' = unreserve env cluster_env web pl' in
    ((reserve env cluster_env web plugin).0 ≡ success)
    × (entry (nn_of_pod web) (nn_of thr) pl''.throttle_ctr.cache
        ≡ entry (nn_of_pod web) (nn_of thr) plugin.throttle_ctr.cache)
    × (entry (nn_of_pod web) (nn_of thr) pl''.cluster_throttle_ctr.cache
        ≡ entry (nn_of_pod web) (nn_of thr) plugin.cluster_throttle_ctr.cache)
unfolding get
unreserve-reserve_example =
    unreserve-reserve env cluster_env web plugin (thr ∷ []) (cluster ∷ []) (nn_of_pod web)
      (nn_of thr) found_throttles found_cluster_throttles (refl, tt) (refl, tt)

abbrev broken : Environment ℤ Sel (Throttle ℤ Sel)
broken = record env { list_throttles = λ store ns. err (external "unavailable") }
