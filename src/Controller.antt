-- ===== src/Controller.antt =====
-- pkg/controllers/controller.go: the parts that both controllers share. The work queue, the
-- clients and the informers are libraries: what is called on the queue is a list of calls, in
-- order, and the rest are parameters.
pub mod Worker
pub mod Queue
use kube_throttler.Prelude.{zero, suc, String, List, [], ◌∷◌, ◌++◌}
use kube_throttler.Prelude.Int.{ℤ, pos, negsuc}
use kube_throttler.Errors.{Error, message, panic, Result, ok, err}
use kube_throttler.NamespacedName.{NamespacedName}
use kube_throttler.ThrottleSpec.{Duration}

-- What is enqueued: an object, or a `cache.ExplicitKey` made of a name.
pub data Enqueued : Type 0 where
  object : NamespacedName → Enqueued
  explicit : NamespacedName → Enqueued

-- An item of the work queue, which may hold any value.
pub data Item : Type 0 where
  key : String → Item
  other : Item

pub data QueueCall : Type 0 where
  add : String → QueueCall
  add_after : String → Duration → QueueCall
  add_rate_limited : String → QueueCall
  forget : Item → QueueCall
  done : Item → QueueCall

-- What the controllers have done to the queue, and the errors that they have handed to
-- `utilruntime.HandleError`.
pub record Log : Type 0 where
  pub queue : List QueueCall
  pub handled : List Error

abbrev pub call : QueueCall → Log → Log
call c l = record l { queue = l.queue ++ c ∷ [] }

abbrev pub handle_error : Error → Log → Log
handle_error e l = record l { handled = l.handled ++ e ∷ [] }

-- The configuration of a `ControllerBase`.
pub record ControllerBase : Type 0 where
  pub name : String
  pub target_kind : String
  pub throttler_name : String
  pub target_scheduler_name : String
  pub threadiness : ℤ

-- `for i := 0; i < n; i++ { go wait.Until(c.runWorker, …) }`, by the workers that run: of each, the
-- controller whose queue it works on
unfoldable pub launch : ControllerBase → ℤ → List ControllerBase → List ControllerBase
launch c (pos zero) workers = workers
launch c (pos (suc n)) workers = launch c (pos n) (workers ++ c ∷ [])
launch c (negsuc n) workers = workers

unfoldable pub start :
    ControllerBase → List ControllerBase → Result (Unit {0}) × List ControllerBase
unfolding launch
start c workers = (ok tt, launch c c.threadiness workers)

-- What an informer hands to `DeleteFunc`: the object, or a `cache.DeletedFinalStateUnknown` when it
-- has missed the deletion.
pub data Deleted (A : Type 0) : Type 0 where
  deleted : A → Deleted A
  final_state_unknown : Deleted A

-- `obj.(*T)` without a second result
unfoldable pub assert_type : {A : Type 0} → Deleted A → Result A
assert_type (deleted a) = ok a
assert_type final_state_unknown = err (panic (message "interface conversion"))

module _ (key_of : Enqueued → Result String) where
  unfoldable pub enqueue_after : Enqueued → Duration → Log → Log
  enqueue_after obj duration l = elim (key_of obj) [
    | err e ↦ handle_error e l
    | ok k ↦ call (add_after k duration) l
  ]

  unfoldable pub enqueue : Enqueued → Log → Log
  enqueue obj l = elim (key_of obj) [ err e ↦ handle_error e l | ok k ↦ call (add k) l ]
