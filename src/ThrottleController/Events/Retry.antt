-- ===== src/ThrottleController/Events/Retry.antt =====
-- A worker of throttle_controller.go whose status update fails, and its next round.
use kube_throttler.Prelude.{String, true, false, List, [], ◌∷◌, ◌++◌, ◌≡◌, ◌∙◌, ap, arith, some}
use mathlib.Core.List.{append_assoc}
use kube_throttler.Quantity.{Quantity}
use kube_throttler.Errors.{Error, wrap, ok, err}
use kube_throttler.Pod.{Pod}
use kube_throttler.Throttle.{Time, Throttle}
use kube_throttler.ThrottleSpec.{calculate_threshold}
use kube_throttler.Controller.{key, Log, add_rate_limited, done, call, handle_error}
use kube_throttler.Controller.Worker.{process_next_work_item, process_item}
use kube_throttler.ThrottleController.{Environment, State, affected_pods}
use kube_throttler.ThrottleController.Reconcile.{new_status, reconcile}
use kube_throttler.ThrottleController.Reconcile.Outcome.{
  IsReflexive, new_status-new_status, affected_pods-status, up_to_date-updates, failed_round,
}
use kube_throttler.ThrottleController.Events.{work}

module _ {Q L Store : Type 0} ⦃q : Quantity Q⦄ (env : Environment Q L Store) where
  work-updates :
      (now : Time) (k : String) (s : State Q L Store)
      → (work env now (some (key k)) s).1.updates ≡ (reconcile env now k s).1.updates
  unfolding process_next_work_item process_item
  work-updates now k s = ground arith

  work-throttles :
      (now : Time) (k : String) (s : State Q L Store)
      → (work env now (some (key k)) s).1.throttles ≡ (reconcile env now k s).1.throttles
  unfolding process_next_work_item process_item
  work-throttles now k s = ground arith

  -- the log after a round whose `reconcile` fails
  abbrev failed_log : String → Error → Log → Log
  failed_log k e l =
      handle_error (wrap "error reconciling" e) (call (done (key k)) (call (add_rate_limited k) l))

  work-failed :
      (now : Time) (k : String) (s : State Q L Store) (e : Error)
      → (reconcile env now k s).0 ≡ err e
      → ((work env now (some (key k)) s).0 ≡ true)
        × ((work env now (some (key k)) s).1.log ≡ failed_log k e (reconcile env now k s).1.log)
  unfolding process_next_work_item process_item
  work-failed now k s e failed = (ground (arith, failed), ground (arith, failed))

  -- Say that a worker gets the key of a throttle whose status is out of date, and that the client
  -- fails to update it. Then the worker puts the key back with a rate limit and goes on, and hands
  -- both messages to `HandleError`. But when it gets the key again, at a time that calls for the
  -- same threshold with the same messages, it sends no update. The throttle's pods are found and
  -- stay the same, a write to the lister's throttle can be read back, and `DeepEqual` is reflexive.
  pub retry_sends_nothing :
      (now later : Time) (k namespace name : String) (thr : Throttle Q L)
      (pods : List (Pod Q) × List (Pod Q)) (s : State Q L Store) (e : Error)
      → env.split_key k ≡ ok (namespace, name)
      → env.get_throttle s.throttles namespace name ≡ ok thr
      → ((t : Throttle Q L)
          → env.get_throttle
              (env.write_status s.throttles (record thr { status = t.status }))
              namespace
              name
            ≡ ok (record thr { status = t.status }))
      → affected_pods env thr ≡ ok pods
      → env.same_status thr.status (new_status env now thr pods.0) ≡ false
      → env.update_status (record thr { status = new_status env now thr pods.0 }) ≡ err e
      → IsReflexive env
      → (calculate_threshold env.parse thr.spec.base later).threshold
        ≡ (calculate_threshold env.parse thr.spec.base now).threshold
      → (calculate_threshold env.parse thr.spec.base later).messages
        ≡ (calculate_threshold env.parse thr.spec.base now).messages
      → let s' = (work env now (some (key k)) s).1 in
        ((work env now (some (key k)) s).0 ≡ true)
        × (s'.log.queue ≡ s.log.queue ++ add_rate_limited k ∷ done (key k) ∷ [])
        × (s'.log.handled
            ≡ s.log.handled
              ++ wrap "failed to update Throttle status" e ∷ wrap "error reconciling" e ∷ [])
        × ((work env later (some (key k)) s').1.updates ≡ s'.updates)
  retry_sends_nothing now later k namespace name thr pods s e split g w a changed failed r t m =
      let status = new_status env now thr pods.0 in
      let written : Throttle Q L = record thr { status = status } in
      let s' : State Q L Store = (work env now (some (key k)) s).1 in
      let (returned, store, logged) =
        failed_round env now k namespace name thr pods s e split g a changed failed in
      let (goes_on, log) = work-failed now k s e returned in
      let log' = log ∙ ap (failed_log k e) logged in
      (
        goes_on,
        ap (λ (l : Log). l.queue) log'
            ∙ append_assoc s.log.queue (add_rate_limited k ∷ []) (done (key k) ∷ []),
        ap (λ (l : Log). l.handled) log'
            ∙ append_assoc s.log.handled (wrap "failed to update Throttle status" e ∷ [])
                (wrap "error reconciling" e ∷ []),
        work-updates later k s'
            ∙ up_to_date-updates env later k namespace name written pods s' split
                (ap (λ st. env.get_throttle st namespace name) (work-throttles now k s ∙ store)
                  ∙ w written)
                (affected_pods-status env thr status ∙ a)
                (ap (λ st. env.same_status status st)
                    (new_status-new_status env now later thr pods.0 r t m)
                  ∙ r.status status),
      )
