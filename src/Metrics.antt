-- ===== src/Metrics.antt =====
-- pkg/controllers/metrics_recorder.go and throttle_metrics.go: what is recorded of a throttle in the
-- gauges of Prometheus. `G` is a vector of gauges and `F` the type of
-- its numbers; an update of a vector returns the vector that it leaves.
pub mod Cluster
pub mod Series
pub mod Shown
use kube_throttler.Prelude.{
  string_eq, ◌==◌, String, ◌≡◌, ◌≢◌, ◌⊎◌, Bool, true, false, Option, none, some, List, [], ◌∷◌,
  ◌++◌, if◌then◌else◌,
}
use kube_throttler.Prelude.Int.{ℤ, pos}
use kube_throttler.Prelude.GoMap.{GoMap, for_range}
use kube_throttler.Pod.{ResourceList}
use kube_throttler.ResourceAmount.{ResourceCounts, IsResourceCountThrottled}
use kube_throttler.Throttle.{Throttle}

-- `prometheus.Labels`: names and values
abbrev pub Labels : Type 0
Labels = List (String × String)

-- `metrics.GaugeOpts`, and the names of the vector's labels
pub record GaugeOpts : Type 0 where
  pub name : String
  pub help : String
  pub labels : List String

-- What the recorders use of `prometheus`, `component-base/metrics` and `resource.Quantity`. `set`
-- is `g.MustCurryWith(labels).WithLabelValues(resource).Set(x)`, and `read` what is then exposed.
pub record Prometheus (G F Q : Type 0) : Type 0 where
  pub new_gauge_vec : GaugeOpts → G
  pub set : G → Labels → String → F → G
  pub read : G → Labels → String → Option F
  pub float64_of : ℤ → F
  pub value : Q → ℤ
  pub milli_value : Q → ℤ
  pub read-set :
      (g : G) (labels : Labels) (resource : String) (x : F)
      → read (set g labels resource x) labels resource ≡ some x
  pub read-set_other :
      (g : G) (labels labels' : Labels) (resource resource' : String) (x : F)
      → (labels ≢ labels') ⊎ (resource ≢ resource')
      → read (set g labels resource x) labels' resource' ≡ read g labels' resource'

-- `MetricsRecorder`, which it embeds, has no fields.
pub record ThrottleMetricsRecorder (G : Type 0) : Type 0 where
  pub spec_threshold_resource_counts_gauge : G
  pub spec_threshold_resource_requests_gauge : G
  pub status_throttled_resource_counts_gauge : G
  pub status_throttled_resource_requests_gauge : G
  pub status_used_resource_counts_gauge : G
  pub status_used_resource_requests_gauge : G
  pub status_calculated_threshold_resource_counts_gauge : G
  pub status_calculated_threshold_resource_requests_gauge : G

-- the labels of every vector
abbrev throttle_label_names : List String
throttle_label_names = "namespace" ∷ "name" ∷ "uid" ∷ "resource" ∷ []

module _ {G F Q : Type 0} (p : Prometheus G F Q) where
  unfoldable pub record_resource_counts : G → Labels → Option ResourceCounts → G
  record_resource_counts g labels none = p.set g labels "pod" (p.float64_of (pos 0))
  record_resource_counts g labels (some rc) = p.set g labels "pod" (p.float64_of rc.pod)

  -- what is recorded of a quantity: a CPU in thousandths, all else in units
  unfoldable pub reading : String → Q → F
  reading r q = if r == "cpu" then p.float64_of (p.milli_value q) else p.float64_of (p.value q)

  unfoldable pub record_resource_requests : G → Labels → ResourceList Q → G
  unfolding reading
  record_resource_requests g labels rr = for_range rr g (λ r q g'. p.set g' labels r (reading r q))

  -- `if throttled { … Set(float64(1)) } else { … Set(float64(0)) }`
  unfoldable pub flag : Bool → F
  flag throttled = if throttled then p.float64_of (pos 1) else p.float64_of (pos 0)

  unfoldable pub record_is_resource_count_throttled : G → Labels → IsResourceCountThrottled → G
  unfolding flag
  record_is_resource_count_throttled g labels rc = p.set g labels "pod" (flag rc.pod)

  unfoldable pub record_is_resource_requests_throttled : G → Labels → GoMap String Bool → G
  unfolding flag
  record_is_resource_requests_throttled g labels rr =
      for_range rr g (λ r throttled g'. p.set g' labels r (flag throttled))

  unfoldable pub new_gauges : ThrottleMetricsRecorder G
  new_gauges = record {
    spec_threshold_resource_counts_gauge = p.new_gauge_vec (record {
      name = "throttle_spec_threshold_resourceCounts";
      help = "threshold on specific resourceCounts of the throttle";
      labels = throttle_label_names;
    });
    spec_threshold_resource_requests_gauge = p.new_gauge_vec (record {
      name = "throttle_spec_threshold_resourceRequests";
      help = "threshold on specific resourceRequests of the throttle";
      labels = throttle_label_names;
    });
    status_throttled_resource_counts_gauge = p.new_gauge_vec (record {
      name = "throttle_status_throttled_resourceCounts";
      help =
          "resourceCounts of the throttle is throttled or not on specific resource (1=throttled, 0=not throttled)";
      labels = throttle_label_names;
    });
    status_throttled_resource_requests_gauge = p.new_gauge_vec (record {
      name = "throttle_status_throttled_resourceRequests";
      help =
          "resourceRequests of the throttle is throttled or not on specific resource (1=throttled, 0=not throttled)";
      labels = throttle_label_names;
    });
    status_used_resource_counts_gauge = p.new_gauge_vec (record {
      name = "throttle_status_used_resourceCounts";
      help = "used resource counts of the throttle";
      labels = throttle_label_names;
    });
    status_used_resource_requests_gauge = p.new_gauge_vec (record {
      name = "throttle_status_used_resourceRequests";
      help = "used amount of resource requests of the throttle";
      labels = throttle_label_names;
    });
    status_calculated_threshold_resource_counts_gauge = p.new_gauge_vec (record {
      name = "throttle_status_calculated_threshold_resourceCounts";
      help = "calculated threshold on specific resourceCounts of the throttle";
      labels = throttle_label_names;
    });
    status_calculated_threshold_resource_requests_gauge = p.new_gauge_vec (record {
      name = "throttle_status_calculated_threshold_resourceRequests";
      help = "calculated threshold on specific resourceRequests of the throttle";
      labels = throttle_label_names;
    });
  }

  -- with what `legacyregistry.MustRegister` has registered, of which no two have the same name
  unfoldable pub new_throttle_metrics_recorder : List G → ThrottleMetricsRecorder G × List G
  unfolding new_gauges
  new_throttle_metrics_recorder registered =
      let r = new_gauges in
      (
        r,
        registered
            ++ r.spec_threshold_resource_counts_gauge ∷ r.spec_threshold_resource_requests_gauge
              ∷ r.status_throttled_resource_counts_gauge
              ∷ r.status_throttled_resource_requests_gauge ∷ r.status_used_resource_counts_gauge
              ∷ r.status_used_resource_requests_gauge
              ∷ r.status_calculated_threshold_resource_counts_gauge
              ∷ r.status_calculated_threshold_resource_requests_gauge ∷ [],
      )

  -- `labels` of `recordThrottleMetrics`
  abbrev pub labels_of : {L : Type 0} → Throttle Q L → Labels
  labels_of thr = ("namespace", thr.namespace) ∷ ("name", thr.name) ∷ ("uid", thr.uid) ∷ []

  unfoldable pub record_throttle_metrics :
      {L : Type 0} → Throttle Q L → ThrottleMetricsRecorder G → ThrottleMetricsRecorder G
  unfolding record_resource_counts record_resource_requests record_is_resource_count_throttled
      record_is_resource_requests_throttled
  record_throttle_metrics thr r =
      let labels = labels_of thr in
      let calculated = thr.status.calculated_threshold.threshold in
      record {
        spec_threshold_resource_counts_gauge =
            record_resource_counts r.spec_threshold_resource_counts_gauge labels
              thr.spec.base.threshold.resource_counts;
        spec_threshold_resource_requests_gauge =
            record_resource_requests r.spec_threshold_resource_requests_gauge labels
              thr.spec.base.threshold.resource_requests;
        status_throttled_resource_counts_gauge =
            record_is_resource_count_throttled r.status_throttled_resource_counts_gauge labels
              thr.status.throttled.resource_counts;
        status_throttled_resource_requests_gauge =
            record_is_resource_requests_throttled r.status_throttled_resource_requests_gauge labels
              thr.status.throttled.resource_requests;
        status_used_resource_counts_gauge =
            record_resource_counts r.status_used_resource_counts_gauge labels
              thr.status.used.resource_counts;
        status_used_resource_requests_gauge =
            record_resource_requests r.status_used_resource_requests_gauge labels
              thr.status.used.resource_requests;
        status_calculated_threshold_resource_counts_gauge =
            record_resource_counts r.status_calculated_threshold_resource_counts_gauge labels
              calculated.resource_counts;
        status_calculated_threshold_resource_requests_gauge =
            record_resource_requests r.status_calculated_threshold_resource_requests_gauge labels
              calculated.resource_requests;
      }
