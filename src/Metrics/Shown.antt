-- ===== src/Metrics/Shown.antt =====
-- What the gauges show of a throttle after `recordThrottleMetrics` of throttle_metrics.go.
use kube_throttler.Prelude.{string_eq, String, ◌≡◌, ◌≢◌, some}
use kube_throttler.Prelude.GoMap.{get}
use kube_throttler.ResourceAmount.{ResourceAmount}
use kube_throttler.Throttle.{Throttle}
use kube_throttler.Metrics.{
  Labels, Prometheus, ThrottleMetricsRecorder, reading, labels_of, record_throttle_metrics,
}
use kube_throttler.Metrics.Series.{
  shown, pods_or_zero, read-counts_other, read-requests_other, read-throttled_count_other,
  read-throttled_requests_other,
}

-- The two series of an amount and a resource, in the vectors before and after.
abbrev pub ShowsAmount :
    {G F Q : Type 0} → Prometheus G F Q → Labels → String → ResourceAmount Q → G → G → G → Type 0
ShowsAmount p labels resource ra counts' requests requests' =
    (p.read counts' labels "pod" ≡ some (p.float64_of (pods_or_zero ra.resource_counts)))
    × (p.read requests' labels resource
        ≡ shown (reading p resource) (get resource ra.resource_requests)
            (p.read requests labels resource))

-- A series that is as it was.
abbrev pub Same : {G F Q : Type 0} → Prometheus G F Q → Labels → String → G → G → Type 0
Same p labels resource g g' = p.read g' labels resource ≡ p.read g labels resource

module _ {G F Q L : Type 0} (p : Prometheus G F Q) (thr : Throttle Q L)
    (r : ThrottleMetricsRecorder G) (resource : String) where
  -- `recordThrottleMetrics` changes no series of a throttle with other labels, in any of the eight
  -- gauges.
  pub other_metrics :
      (labels' : Labels)
      → labels_of p thr ≢ labels'
      → let r' = record_throttle_metrics p thr r in
        Same p labels' resource r.spec_threshold_resource_counts_gauge
          r'.spec_threshold_resource_counts_gauge
        × Same p labels' resource r.spec_threshold_resource_requests_gauge
            r'.spec_threshold_resource_requests_gauge
        × Same p labels' resource r.status_throttled_resource_counts_gauge
            r'.status_throttled_resource_counts_gauge
        × Same p labels' resource r.status_throttled_resource_requests_gauge
            r'.status_throttled_resource_requests_gauge
        × Same p labels' resource r.status_used_resource_counts_gauge
            r'.status_used_resource_counts_gauge
        × Same p labels' resource r.status_used_resource_requests_gauge
            r'.status_used_resource_requests_gauge
        × Same p labels' resource r.status_calculated_threshold_resource_counts_gauge
            r'.status_calculated_threshold_resource_counts_gauge
        × Same p labels' resource r.status_calculated_threshold_resource_requests_gauge
            r'.status_calculated_threshold_resource_requests_gauge
  unfolding record_throttle_metrics
  other_metrics labels' ne = (
    read-counts_other p _ _ _ labels' resource ne,
    read-requests_other p _ _ _ labels' resource ne,
    read-throttled_count_other p _ _ _ labels' resource ne,
    read-throttled_requests_other p _ _ _ labels' resource ne,
    read-counts_other p _ _ _ labels' resource ne,
    read-requests_other p _ _ _ labels' resource ne,
    read-counts_other p _ _ _ labels' resource ne,
    read-requests_other p _ _ _ labels' resource ne,
  )
