-- ===== src/Metrics/Cluster.antt =====
-- pkg/controllers/clusterthrottle_metrics.go: what is recorded of a cluster throttle, which has no
-- namespace among its labels.
pub mod Shown
use kube_throttler.Prelude.{string_eq, String, List, [], ◌∷◌, ◌++◌}
use kube_throttler.Throttle.{ClusterThrottle}
use kube_throttler.Metrics.{
  Labels, Prometheus, record_resource_counts, record_resource_requests,
  record_is_resource_count_throttled, record_is_resource_requests_throttled,
}

-- `MetricsRecorder`, which it embeds, has no fields.
pub record ClusterThrottleMetricsRecorder (G : Type 0) : Type 0 where
  pub spec_threshold_resource_counts_gauge : G
  pub spec_threshold_resource_requests_gauge : G
  pub status_throttled_resource_counts_gauge : G
  pub status_throttled_resource_requests_gauge : G
  pub status_used_resource_counts_gauge : G
  pub status_used_resource_requests_gauge : G
  pub status_calculated_threshold_resource_counts_gauge : G
  pub status_calculated_threshold_resource_requests_gauge : G

-- the labels of every vector
abbrev clusterthrottle_label_names : List String
clusterthrottle_label_names = "name" ∷ "uid" ∷ "resource" ∷ []

module _ {G F Q : Type 0} (p : Prometheus G F Q) where
  unfoldable pub new_cluster_gauges : ClusterThrottleMetricsRecorder G
  new_cluster_gauges = record {
    spec_threshold_resource_counts_gauge = p.new_gauge_vec (record {
      name = "clusterthrottle_spec_threshold_resourceCounts";
      help = "threshold on specific resourceCounts of the throttle";
      labels = clusterthrottle_label_names;
    });
    spec_threshold_resource_requests_gauge = p.new_gauge_vec (record {
      name = "clusterthrottle_spec_threshold_resourceRequests";
      help = "threshold on specific resourceRequests of the throttle";
      labels = clusterthrottle_label_names;
    });
    status_throttled_resource_counts_gauge = p.new_gauge_vec (record {
      name = "clusterthrottle_status_throttled_resourceCounts";
      help =
          "resourceCounts of the throttle is throttled or not on specific resource (1=throttled, 0=not throttled)";
      labels = clusterthrottle_label_names;
    });
    status_throttled_resource_requests_gauge = p.new_gauge_vec (record {
      name = "clusterthrottle_status_throttled_resourceRequests";
      help =
          "resourceRequests of the throttle is throttled or not on specific resource (1=throttled, 0=not throttled)";
      labels = clusterthrottle_label_names;
    });
    status_used_resource_counts_gauge = p.new_gauge_vec (record {
      name = "clusterthrottle_status_used_resourceCounts";
      help = "used resource counts of the throttle";
      labels = clusterthrottle_label_names;
    });
    status_used_resource_requests_gauge = p.new_gauge_vec (record {
      name = "clusterthrottle_status_used_resourceRequests";
      help = "used amount of resource requests of the throttle";
      labels = clusterthrottle_label_names;
    });
    status_calculated_threshold_resource_counts_gauge = p.new_gauge_vec (record {
      name = "clusterthrottle_status_calculated_threshold_resourceCounts";
      help = "calculated threshold on specific resourceCounts of the throttle";
      labels = clusterthrottle_label_names;
    });
    status_calculated_threshold_resource_requests_gauge = p.new_gauge_vec (record {
      name = "clusterthrottle_status_calculated_threshold_resourceRequests";
      help = "calculated threshold on specific resourceRequests of the throttle";
      labels = clusterthrottle_label_names;
    });
  }

  -- with what `legacyregistry.MustRegister` has registered, of which no two have the same name
  unfoldable pub new_cluster_throttle_metrics_recorder :
      List G → ClusterThrottleMetricsRecorder G × List G
  unfolding new_cluster_gauges
  new_cluster_throttle_metrics_recorder registered =
      let r = new_cluster_gauges in
      (
        r,
        registered
            ++ r.spec_threshold_resource_counts_gauge ∷ r.spec_threshold_resource_requests_gauge
              ∷ r.status_throttled_resource_counts_gauge
              ∷ r.status_throttled_resource_requests_gauge ∷ r.status_used_resource_counts_gauge
              ∷ r.status_used_resource_requests_gauge
              ∷ r.status_calculated_threshold_resource_counts_gauge
              ∷ r.status_calculated_threshold_resource_requests_gauge ∷ [],
      )

  -- `labels` of `recordClusterThrottleMetrics`
  abbrev pub labels_of : {L : Type 0} → ClusterThrottle Q L → Labels
  labels_of thr = ("name", thr.name) ∷ ("uid", thr.uid) ∷ []

  unfoldable pub record_cluster_throttle_metrics :
      {L : Type 0}
      → ClusterThrottle Q L
      → ClusterThrottleMetricsRecorder G
      → ClusterThrottleMetricsRecorder G
  unfolding record_resource_counts record_resource_requests record_is_resource_count_throttled
      record_is_resource_requests_throttled
  record_cluster_throttle_metrics thr r =
      let labels = labels_of thr in
      let calculated = thr.status.calculated_threshold.threshold in
      record {
        spec_threshold_resource_counts_gauge =
            record_resource_counts p r.spec_threshold_resource_counts_gauge labels
              thr.spec.base.threshold.resource_counts;
        spec_threshold_resource_requests_gauge =
            record_resource_requests p r.spec_threshold_resource_requests_gauge labels
              thr.spec.base.threshold.resource_requests;
        status_throttled_resource_counts_gauge =
            record_is_resource_count_throttled p r.status_throttled_resource_counts_gauge labels
              thr.status.throttled.resource_counts;
        status_throttled_resource_requests_gauge =
            record_is_resource_requests_throttled p r.status_throttled_resource_requests_gauge
              labels thr.status.throttled.resource_requests;
        status_used_resource_counts_gauge =
            record_resource_counts p r.status_used_resource_counts_gauge labels
              thr.status.used.resource_counts;
        status_used_resource_requests_gauge =
            record_resource_requests p r.status_used_resource_requests_gauge labels
              thr.status.used.resource_requests;
        status_calculated_threshold_resource_counts_gauge =
            record_resource_counts p r.status_calculated_threshold_resource_counts_gauge labels
              calculated.resource_counts;
        status_calculated_threshold_resource_requests_gauge =
            record_resource_requests p r.status_calculated_threshold_resource_requests_gauge labels
              calculated.resource_requests;
      }
