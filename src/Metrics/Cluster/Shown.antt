-- ===== src/Metrics/Cluster/Shown.antt =====
-- What the gauges show of a cluster throttle after `recordClusterThrottleMetrics` of clusterthrottle_metrics.go.
use kube_throttler.Prelude.{string_eq, String, ◌≡◌, ◌≢◌, some}
use kube_throttler.Prelude.GoMap.{get, IsMap}
use kube_throttler.Throttle.{ClusterThrottle}
use kube_throttler.Metrics.{Labels, Prometheus, flag}
use kube_throttler.Metrics.Cluster.{
  ClusterThrottleMetricsRecorder, labels_of, record_cluster_throttle_metrics,
}
use kube_throttler.Metrics.Shown.{ShowsAmount, Same}
use kube_throttler.Metrics.Series.{
  shown, read-counts, read-counts_other, read-requests, read-requests_other, read-throttled_count,
  read-throttled_count_other, read-throttled_requests, read-throttled_requests_other,
}

module _ {G F Q L : Type 0} (p : Prometheus G F Q) (thr : ClusterThrottle Q L)
    (r : ClusterThrottleMetricsRecorder G) (resource : String) where
  -- After `recordClusterThrottleMetrics` the gauges of the threshold, of the use and of the calculated
  -- threshold show the cluster throttle's pods, or 0 where it has no count, and its amount of a resource, a
  -- CPU in thousandths; the gauges of what is throttled show 1 or 0. The series of a resource that
  -- the throttle no longer names shows what it showed before. The recorded amounts are maps.
  pub cluster_recorded_metrics :
      IsMap thr.spec.base.threshold.resource_requests
      → IsMap thr.status.throttled.resource_requests
      → IsMap thr.status.used.resource_requests
      → IsMap thr.status.calculated_threshold.threshold.resource_requests
      → let r' = record_cluster_throttle_metrics p thr r in
        let labels = labels_of p thr in
        ShowsAmount p labels resource thr.spec.base.threshold
          r'.spec_threshold_resource_counts_gauge r.spec_threshold_resource_requests_gauge
          r'.spec_threshold_resource_requests_gauge
        × (p.read r'.status_throttled_resource_counts_gauge labels "pod"
            ≡ some (flag p thr.status.throttled.resource_counts.pod))
        × (p.read r'.status_throttled_resource_requests_gauge labels resource
            ≡ shown
                (flag p)
                (get resource thr.status.throttled.resource_requests)
                (p.read r.status_throttled_resource_requests_gauge labels resource))
        × ShowsAmount p labels resource thr.status.used r'.status_used_resource_counts_gauge
            r.status_used_resource_requests_gauge r'.status_used_resource_requests_gauge
        × ShowsAmount p labels resource thr.status.calculated_threshold.threshold
            r'.status_calculated_threshold_resource_counts_gauge
            r.status_calculated_threshold_resource_requests_gauge
            r'.status_calculated_threshold_resource_requests_gauge
  unfolding record_cluster_throttle_metrics
  cluster_recorded_metrics spec throttled used calculated = (
    (read-counts p _ _ _, read-requests p _ _ _ resource spec),
    read-throttled_count p _ _ _,
    read-throttled_requests p _ _ _ resource throttled,
    (read-counts p _ _ _, read-requests p _ _ _ resource used),
    (read-counts p _ _ _, read-requests p _ _ _ resource calculated),
  )

  -- `recordClusterThrottleMetrics` changes no series of a cluster throttle with other labels, in any of the eight
  -- gauges.
  pub cluster_other_metrics :
      (labels' : Labels)
      → labels_of p thr ≢ labels'
      → let r' = record_cluster_throttle_metrics p thr r in
        Same p labels' resource r.spec_threshold_resource_counts_gauge
          r'.spec_threshold_resource_counts_gauge
        × Same p labels' resource r.spec_threshold_resource_requests_gauge
            r'.spec_threshold_resource_requests_gauge
        × Same p labels' resource r.status_throttled_resource_counts_gauge
            r'.status_throttled_resource_counts_gauge
        × Same p labels' resource r.status_throttled_resource_requests_gauge
            r'.status_throttled_resource_requests_gauge
        × Same p labels' resource r.status_used_resource_counts_gauge
            r'.status_used_resource_counts_gauge
        × Same p labels' resource r.status_used_resource_requests_gauge
            r'.status_used_resource_requests_gauge
        × Same p labels' resource r.status_calculated_threshold_resource_counts_gauge
            r'.status_calculated_threshold_resource_counts_gauge
        × Same p labels' resource r.status_calculated_threshold_resource_requests_gauge
            r'.status_calculated_threshold_resource_requests_gauge
  unfolding record_cluster_throttle_metrics
  cluster_other_metrics labels' ne = (
    read-counts_other p _ _ _ labels' resource ne,
    read-requests_other p _ _ _ labels' resource ne,
    read-throttled_count_other p _ _ _ labels' resource ne,
    read-throttled_requests_other p _ _ _ labels' resource ne,
    read-counts_other p _ _ _ labels' resource ne,
    read-requests_other p _ _ _ labels' resource ne,
    read-counts_other p _ _ _ labels' resource ne,
    read-requests_other p _ _ _ labels' resource ne,
  )
