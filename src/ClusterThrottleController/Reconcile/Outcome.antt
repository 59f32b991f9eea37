-- ===== src/ClusterThrottleController/Reconcile/Outcome.antt =====
-- What `reconcile` of clusterthrottle_controller.go brings about over two rounds.
use kube_throttler.Prelude.{
  String, Bool, true, false, not, ◌||◌, List, [], ◌∷◌, ◌++◌, some, fun_ext, string_eq, ◌≡◌, refl,
  sym, ◌∙◌, ap, subst, if◌then◌else◌, Bool-cases, inl, inr, arith,
}
use mathlib.Core.Path.{ap₂}
use kube_throttler.Prelude.GoMap.{GoMap, put}
use kube_throttler.Selector.{Namespace, matches_to_namespace}
use kube_throttler.Quantity.{Quantity}
use kube_throttler.Errors.{Error, Result, ok, err, ◌>>=◌}
use kube_throttler.Pod.{Pod}
use kube_throttler.ResourceAmount.{ResourceAmount, is_throttled}
use kube_throttler.Throttle.{Time, CalculatedThreshold, ClusterThrottle, ThrottleStatus}
use kube_throttler.ThrottleSpec.{calculate_threshold}
use kube_throttler.ClusterThrottleController.{
  ClusterEnvironment, ClusterState, Found, find_pods, sort_pods, affected_pods,
}
use kube_throttler.ClusterThrottleController.Reconcile.{
  used_by, current_threshold, new_status, wake_up, update_changed, keep_unchanged,
  reconcile_throttle, reconcile,
}

-- `DeepEqual` finds a value equal to itself.
pub record IsReflexive {Q L Store : Type 0} (env : ClusterEnvironment Q L Store) : Type 0 where
  pub amount : (a : ResourceAmount Q) → env.same_amount a a ≡ true
  pub messages : (m : List Error) → env.same_messages m m ≡ true
  pub status : (s : ThrottleStatus Q) → env.same_status s s ≡ true

module _ {Q L Store : Type 0} ⦃q : Quantity Q⦄ (env : ClusterEnvironment Q L Store) where
  current_threshold-current_threshold :
      (old was will : CalculatedThreshold Q)
      → IsReflexive env
      → will.threshold ≡ was.threshold
      → will.messages ≡ was.messages
      → current_threshold env (current_threshold env old was) will ≡ current_threshold env old was
  unfolding current_threshold
  current_threshold-current_threshold old was will r t m =
      let differs : Bool =
        not (env.same_amount old.threshold was.threshold)
        || not (env.same_messages old.messages was.messages) in
      elim (Bool-cases differs) [
        | inl changed ↦
            subst
              (λ b. current_threshold env (if b then was else old) will ≡ (if b then was else old))
              (sym changed) (rw (t, m, r.amount was.threshold, r.messages was.messages) refl)
        | inr kept ↦
            subst
              (λ b. current_threshold env (if b then was else old) will ≡ (if b then was else old))
              (sym kept) (rw (t, m, kept) refl)
      ]

  -- The status that `reconcile` computes is a fixed point: computed again from the throttle that
  -- has it, for the same pods and at a time that calls for the same threshold with the same
  -- messages, it is the same, with the time at which its threshold was calculated, if `DeepEqual` is
  -- reflexive.
  pub cluster_new_status-new_status :
      (now later : Time) (thr : ClusterThrottle Q L) (pods : List (Pod Q))
      → IsReflexive env
      → (calculate_threshold env.parse thr.spec.base later).threshold
        ≡ (calculate_threshold env.parse thr.spec.base now).threshold
      → (calculate_threshold env.parse thr.spec.base later).messages
        ≡ (calculate_threshold env.parse thr.spec.base now).messages
      → new_status env later (record thr { status = new_status env now thr pods }) pods
        ≡ new_status env now thr pods
  unfolding new_status
  cluster_new_status-new_status now later thr pods r t m =
      ap
        (λ c. record {
          calculated_threshold = c;
          throttled = is_throttled c.threshold (used_by env pods) true;
          used = used_by env pods;
        })
        (current_threshold-current_threshold thr.status.calculated_threshold
          (calculate_threshold env.parse thr.spec.base now)
          (calculate_threshold env.parse thr.spec.base later) r t m)

  find_pods-status :
      (thr : ClusterThrottle Q L) (status : ThrottleStatus Q) (nss : List Namespace) (f : Found Q)
      → find_pods env (record thr { status = status }) nss f ≡ find_pods env thr nss f
  unfolding find_pods
  find_pods-status thr status [] f = refl
  find_pods-status thr status (ns ∷ nss) f =
      ap₂
        (λ skip (take : List (Pod Q) → Result (Found Q)). do
          match ← matches_to_namespace env.as_selector thr.spec.selector (some ns)
          (if not match then skip else env.list_pods ns.name >>= take))
        (find_pods-status thr status nss f)
        (fun_ext λ pods_in_ns.
          find_pods-status thr status nss
            (record { pods = f.pods ++ pods_in_ns; ns_map = put ns.name ns f.ns_map }))

  sort_pods-status :
      (thr : ClusterThrottle Q L) (status : ThrottleStatus Q) (ns_map : GoMap String Namespace)
      (pods : List (Pod Q)) (s : List (Pod Q) × List (Pod Q))
      → sort_pods env (record thr { status = status }) ns_map pods s
        ≡ sort_pods env thr ns_map pods s
  unfolding sort_pods
  sort_pods-status thr status ns_map [] s = refl
  sort_pods-status thr status ns_map (pod ∷ pods) s =
      rw
        (
          sort_pods-status thr status ns_map pods s,
          sort_pods-status thr status ns_map pods (s.0 ++ pod ∷ [], s.1),
          sort_pods-status thr status ns_map pods (s.0, s.1 ++ pod ∷ []),
        )
        refl

  affected_pods-status :
      (thr : ClusterThrottle Q L) (status : ThrottleStatus Q)
      → affected_pods env (record thr { status = status }) ≡ affected_pods env thr
  unfolding affected_pods
  affected_pods-status thr status =
      ap₂
        (λ (find : List Namespace → Result (Found Q))
            (sort : Found Q → Result (List (Pod Q) × List (Pod Q))).
          do nss ← env.list_namespaces; f ← find nss; sort f)
        (fun_ext λ nss. find_pods-status thr status nss (record { pods = []; ns_map = [] }))
        (fun_ext λ f. sort_pods-status thr status f.ns_map f.pods ([], []))

  pub wake_up-updates :
      (now : Time) (thr : ClusterThrottle Q L) (s : ClusterState Q L Store)
      → (wake_up env now thr s).1.updates ≡ s.updates
  unfolding wake_up
  wake_up-updates now thr s = ground arith

  -- a round that finds the throttle, its pods and a status that is up to date sends no update
  up_to_date-updates :
      (now : Time) (key namespace name : String) (thr : ClusterThrottle Q L)
      (pods : List (Pod Q) × List (Pod Q)) (s : ClusterState Q L Store)
      → env.split_key key ≡ ok (namespace, name)
      → env.get_throttle s.throttles name ≡ ok thr
      → affected_pods env thr ≡ ok pods
      → env.same_status thr.status (new_status env now thr pods.0) ≡ true
      → (reconcile env now key s).1.updates ≡ s.updates
  unfolding reconcile reconcile_throttle keep_unchanged
  up_to_date-updates now key namespace name thr pods s k g a same =
      rw (k, g, a, same, reconcile) (wake_up-updates now thr _)

  -- a round that finds a new status, and whose update fails
  failed_round :
      (now : Time) (key namespace name : String) (thr : ClusterThrottle Q L)
      (pods : List (Pod Q) × List (Pod Q)) (s : ClusterState Q L Store) (e : Error)
      → env.split_key key ≡ ok (namespace, name)
      → env.get_throttle s.throttles name ≡ ok thr
      → affected_pods env thr ≡ ok pods
      → env.same_status thr.status (new_status env now thr pods.0) ≡ false
      → env.update_status (record thr { status = new_status env now thr pods.0 }) ≡ err e
      → ((reconcile env now key s).0 ≡ err e)
        × ((reconcile env now key s).1.throttles
            ≡ env.write_status s.throttles (record thr { status = new_status env now thr pods.0 }))
  unfolding reconcile reconcile_throttle update_changed
  failed_round now key namespace name thr pods s e k g a changed failed = (
    rw (k, g, a, changed, failed, reconcile, update_changed) refl,
    rw (k, g, a, changed, failed, reconcile, update_changed) refl,
  )

  -- A status update that fails is not sent again. Say that `reconcile` finds a cluster throttle whose
  -- status is out of date, and that the client fails to update it: `reconcile` returns the error,
  -- but the lister's throttle has the new status by then. So the next round, at a time that calls
  -- for the same threshold with the same messages, sends no update. Its pods are found and stay the
  -- same, a write to the lister's throttle can be read back, and `DeepEqual` is reflexive.
  pub cluster_failed_update-dropped :
      (now later : Time) (key namespace name : String) (thr : ClusterThrottle Q L)
      (pods : List (Pod Q) × List (Pod Q)) (s : ClusterState Q L Store) (e : Error)
      → env.split_key key ≡ ok (namespace, name)
      → env.get_throttle s.throttles name ≡ ok thr
      → ((t : ClusterThrottle Q L)
          → env.get_throttle (env.write_status s.throttles (record thr { status = t.status })) name
            ≡ ok (record thr { status = t.status }))
      → affected_pods env thr ≡ ok pods
      → env.same_status thr.status (new_status env now thr pods.0) ≡ false
      → env.update_status (record thr { status = new_status env now thr pods.0 }) ≡ err e
      → IsReflexive env
      → (calculate_threshold env.parse thr.spec.base later).threshold
        ≡ (calculate_threshold env.parse thr.spec.base now).threshold
      → (calculate_threshold env.parse thr.spec.base later).messages
        ≡ (calculate_threshold env.parse thr.spec.base now).messages
      → ((reconcile env now key s).0 ≡ err e)
        × ((reconcile env later key (reconcile env now key s).1).1.updates
            ≡ (reconcile env now key s).1.updates)
  cluster_failed_update-dropped now later key namespace name thr pods s e k g w a changed failed r t
        m =
      let status = new_status env now thr pods.0 in
      let written : ClusterThrottle Q L = record thr { status = status } in
      let (returned, store) =
        failed_round now key namespace name thr pods s e k g a changed failed in
      (
        returned,
        up_to_date-updates later key namespace name written pods (reconcile env now key s).1 k
            (ap (λ st. env.get_throttle st name) store ∙ w written)
            (affected_pods-status thr status ∙ a)
            (ap (λ st. env.same_status status st)
                (cluster_new_status-new_status now later thr pods.0 r t m)
              ∙ r.status status),
      )
