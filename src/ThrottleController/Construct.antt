-- ===== src/ThrottleController/Construct.antt =====
-- `NewThrottleController` of throttle_controller.go.
use kube_throttler.Prelude.{String, List, []}
use kube_throttler.Prelude.Int.{ℤ}
use kube_throttler.ThrottleSpec.{Duration}
use kube_throttler.Reserved.{new_reserved_resource_amounts}
use kube_throttler.Controller.{ControllerBase}
use kube_throttler.Metrics.{Prometheus, ThrottleMetricsRecorder, new_throttle_metrics_recorder}
use kube_throttler.ThrottleController.{Environment, State}

-- What the constructor makes: the controller's configuration, the libraries that it calls with its
-- names, its state, and the recorder of its metrics.
pub record ThrottleController (Q L Store G : Type 0) : Type 0 where
  pub base : ControllerBase
  pub env : Environment Q L Store
  pub state : State Q L Store
  pub metrics_recorder : ThrottleMetricsRecorder G

module _ {Q L Store G F : Type 0} (p : Prometheus G F Q) where
  -- The controller, and the gauges registered. `libs` are the informers, the client and the clock,
  -- and `store` is what the throttle informer holds. The interval and the number of locks have no
  -- influence: the first is not read, and the second only sizes the hashed locks.
  unfoldable pub new_throttle_controller :
      String
      → String
      → Duration
      → Environment Q L Store
      → Store
      → ℤ
      → ℤ
      → List G
      → ThrottleController Q L Store G × List G
  unfolding new_throttle_metrics_recorder
  new_throttle_controller throttler_name target_scheduler_name interval libs store threadiness
        num_key_mutex registered =
      let (recorder, registered') = new_throttle_metrics_recorder p registered in
      (
        record {
          base = record {
            name = "ThrottleController";
            target_kind = "Throttle";
            throttler_name = throttler_name;
            target_scheduler_name = target_scheduler_name;
            threadiness = threadiness;
          };
          env = record libs {
            throttler_name = throttler_name;
            target_scheduler_name = target_scheduler_name;
          };
          state = record {
            throttles = store;
            cache = new_reserved_resource_amounts;
            log = record { queue = []; handled = [] };
            recorded = [];
            updates = [];
          };
          metrics_recorder = recorder;
        },
        registered',
      )
