-- ===== src/ThrottleController/Handlers/Enqueued.antt =====
-- Which throttles the handlers of pod events in throttle_controller.go put into the work queue.
use kube_throttler.Prelude.{
  String, ◌≡◌, sym, ◌∙◌, ap, true, false, not, ◌&&◌, ◌||◌, List, [], ◌∷◌, ◌++◌, arith, ◌⊎◌, inl,
  inr, eq_self,
}
use kube_throttler.Prelude.GoMap.{has}
use kube_throttler.Prelude.Lists.{All, In, any}
use kube_throttler.Quantity.{Quantity}
use kube_throttler.Errors.{ok}
use kube_throttler.Pod.{Pod}
use kube_throttler.NamespacedName.{NamespacedName, nn_eq}
use kube_throttler.Throttle.{Throttle}
use kube_throttler.Controller.{object, explicit, add, Log}
use kube_throttler.Controller.Queue.{adds, enqueue-for_each, has-enqueued}
use kube_throttler.ThrottleController.{
  Environment, State, nn_of, affected_throttles, should_count_in, un_reserve,
}
use kube_throttler.ThrottleController.Handlers.{
  collect_names, enqueue_throttles, enqueue_affected, release_deleted, on_pod_add, on_pod_delete,
  reassign, on_pod_update,
}
use kube_throttler.ThrottleController.Handlers.Assignment.{is_name, has-collect_names}

-- A throttle that is in a row is found there by its name.
In-any :
    {Q L : Type 0} (thr : Throttle Q L) (throttles : List (Throttle Q L))
    → In thr throttles
    → any (is_name (nn_of thr)) throttles ≡ true
In-any thr [] h = elim h [ ]
In-any thr (t ∷ throttles) (inl e) =
    ap (λ x. is_name (nn_of thr) x || any (is_name (nn_of thr)) throttles) (sym e)
    ∙ ground (arith, eq_self (nn_of thr))
In-any thr (t ∷ throttles) (inr h) = ground (arith, In-any thr throttles h)

module _ {Q L Store : Type 0} ⦃q : Quantity Q⦄ (env : Environment Q L Store) where
  -- Each throttle of a row has the key.
  abbrev pub HaveKeys : (NamespacedName → String) → List (Throttle Q L) → Type 0
  HaveKeys key_for throttles =
      All (λ thr. env.key_of (object (nn_of thr)) ≡ ok (key_for (nn_of thr))) throttles

  enqueue_affected-log :
      (key_for : NamespacedName → String) (pod : Pod Q) (s : State Q L Store)
      (throttles : List (Throttle Q L))
      → HaveKeys key_for throttles
      → affected_throttles env s.throttles pod ≡ ok throttles
      → (enqueue_affected env pod s).log
        ≡ record s.log { queue = s.log.queue ++ adds key_for nn_of throttles }
  unfolding enqueue_affected enqueue_throttles
  enqueue_affected-log key_for pod s throttles keys found =
      rw (found, enqueue_affected) (enqueue-for_each env.key_of key_for nn_of throttles s.log keys)

  release_deleted-log :
      (pod : Pod Q) (s : State Q L Store) (throttles : List (Throttle Q L))
      → affected_throttles env s.throttles pod ≡ ok throttles
      → ((release_deleted env pod s).log ≡ s.log)
        × ((release_deleted env pod s).throttles ≡ s.throttles)
  unfolding release_deleted un_reserve
  release_deleted-log pod s throttles found = (ground (arith, found), ground (arith, found))

  -- When a pod that counts is added or deleted, and the throttles that concern it are found, then
  -- the key of each of them is added to the work queue, in their order, nothing else is, and no
  -- error is handled. Each of these throttles has a key.
  pub pod_event-enqueued :
      (key_for : NamespacedName → String) (pod : Pod Q) (s : State Q L Store)
      (throttles : List (Throttle Q L))
      → HaveKeys key_for throttles
      → should_count_in env pod ≡ true
      → affected_throttles env s.throttles pod ≡ ok throttles
      → ((on_pod_add env pod s).log
          ≡ record s.log { queue = s.log.queue ++ adds key_for nn_of throttles })
        × ((on_pod_delete env pod s).log
            ≡ record s.log { queue = s.log.queue ++ adds key_for nn_of throttles })
  unfolding on_pod_add on_pod_delete
  pod_event-enqueued key_for pod s throttles keys counts found =
      let (kept, same) = release_deleted-log pod s throttles found in
      (
        rw (counts, on_pod_add) (enqueue_affected-log key_for pod s throttles keys found),
        rw (counts, on_pod_delete)
            (enqueue_affected-log key_for pod (release_deleted env pod s) throttles keys
                (ap (λ st. affected_throttles env st pod) same ∙ found)
              ∙ ap (λ (l : Log). record l { queue = l.queue ++ adds key_for nn_of throttles })
                  kept),
      )

  -- When a pod that counts, or has counted, is updated, and the throttles that concern it before
  -- and after are found, then the key of every throttle in either row that has one is in the work
  -- queue.
  pub pod_update-enqueued :
      (old_pod new_pod : Pod Q) (s : State Q L Store) (for_old for_new : List (Throttle Q L))
      (thr : Throttle Q L) (key : String)
      → env.key_of (explicit (nn_of thr)) ≡ ok key
      → (should_count_in env old_pod || should_count_in env new_pod) ≡ true
      → affected_throttles env s.throttles old_pod ≡ ok for_old
      → affected_throttles env s.throttles new_pod ≡ ok for_new
      → In thr for_old ⊎ In thr for_new
      → In (add key) (on_pod_update env old_pod new_pod s).log.queue
  unfolding on_pod_update reassign
  pod_update-enqueued old_pod new_pod s for_old for_new thr key keyed counts found found' there =
      let n = collect_names for_old for_new in
      let skip : (not (should_count_in env old_pod) && not (should_count_in env new_pod)) ≡ false =
        ground (arith, counts) in
      let named : has (nn_of thr) n.all ≡ true =
        (has-collect_names for_old for_new (nn_of thr)).0 ∙ either there in
      rw (skip, found, found', on_pod_update, reassign)
        (has-enqueued env.key_of n.all (nn_of thr) key s.log keyed named)
    where
      either :
          In thr for_old ⊎ In thr for_new
          → (any (is_name (nn_of thr)) for_new || any (is_name (nn_of thr)) for_old) ≡ true
      either (inl h) = ground (arith, In-any thr for_old h)
      either (inr h) = ground (arith, In-any thr for_new h)
