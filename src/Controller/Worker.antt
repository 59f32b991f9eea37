-- ===== src/Controller/Worker.antt =====
-- One round of a worker: `processNextWorkItem`. `S` is the state of a controller, and `log` the
-- part of it that the round writes to.
pub mod Runs
use kube_throttler.Prelude.{
  String, Bool, true, false, Option, none, some, List, [], ◌∷◌, if◌then◌else◌,
}
use kube_throttler.Errors.{Result, ok, err, message, wrap}
use kube_throttler.Controller.{
  Item, key, other, add_rate_limited, forget, done, Log, call, handle_error,
}

module _ {S : Type 0} (reconcile_func : String → S → Result (Unit {0}) × S)
    (on_log : (Log → Log) → S → S) where
  -- the function that the round runs, its deferred `Done` last
  unfoldable pub process_item : Item → S → Result (Unit {0}) × S
  process_item other s = (
    ok tt,
    on_log
        (λ l.
          call (done other)
            (handle_error (message "expected string in workqueue") (call (forget other) l)))
        s,
  )
  process_item (key k) s =
      let (r, s') = reconcile_func k s in
      elim r [
        | err e ↦ (
          err (wrap "error reconciling" e),
          on_log (λ l. call (done (key k)) (call (add_rate_limited k) l)) s',
        )
        | ok u ↦ (ok tt, on_log (λ l. call (done (key k)) (call (forget (key k)) l)) s')
      ]

  -- `none` is what the queue returns when it shuts down
  unfoldable pub process_next_work_item : Option Item → S → Bool × S
  unfolding process_item
  process_next_work_item none s = (false, s)
  process_next_work_item (some obj) s =
      let (r, s') = process_item obj s in
      elim r [ err e ↦ (true, on_log (handle_error e) s') | ok u ↦ (true, s') ]

  -- `for c.processNextWorkItem() {}`, with what the queue's `Get` returns, in order, until the
  -- worker stops or the queue blocks
  unfoldable pub run_worker : List (Option Item) → S → S
  unfolding process_next_work_item
  run_worker [] s = s
  run_worker (got ∷ rest) s =
      let (more, s') = process_next_work_item got s in
      let after = run_worker rest s' in if more then after else s'
