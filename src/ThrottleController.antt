-- ===== src/ThrottleController.antt =====
-- pkg/controllers/throttle_controller.go: the state of the controller of `Throttle`s, the pods and
-- throttles that concern one another, reservations, and the check of a pod. The child modules have
-- `reconcile` and the event handlers.
pub mod Affected
pub mod Reconcile
pub mod Handlers
pub mod Checks
pub mod Reservations
pub mod Budget
pub mod Construct
pub mod Events
use kube_throttler.Prelude.{
  string_eq, ◌==◌, ℕ, String, Bool, true, false, not, ◌&&◌, Option, none, some, List, [], ◌∷◌, ◌++◌,
  if◌then◌else◌,
}
use kube_throttler.Prelude.Lists.{for_each}
use kube_throttler.Quantity.{Quantity}
use kube_throttler.Errors.{Error, Result, ok, err, ◌>>=◌}
use kube_throttler.Pod.{Pod, is_scheduled, is_not_finished}
use kube_throttler.ResourceAmount.{ResourceAmount}
use kube_throttler.Throttle.{
  Time, Throttle, ThrottleStatus, CheckThrottleStatus, not_throttled, active, insufficient,
  pod_requests_exceeds_threshold, check_throttled_for,
}
use kube_throttler.NamespacedName.{NamespacedName}
use kube_throttler.Slices
use kube_throttler.Slices.{Slice, Heap, make_empty, contents}
use kube_throttler.Selector.{Labels, matches_to_pod}
use kube_throttler.Reserved.{ReservedResourceAmounts, add_pod, remove_pod, reserved_resource_amount}
use kube_throttler.Controller.{Enqueued, Log}

-- The libraries that the controller calls, and its configuration. `Store` is the informer's cache
-- of throttles; the pointers that its lister returns lead into it.
pub record Environment (Q L Store : Type 0) : Type 0 where
  pub throttler_name : String
  pub target_scheduler_name : String
  pub list_throttles : Store → String → Result (List (Throttle Q L))
  pub get_throttle : Store → String → String → Result (Throttle Q L)
  -- what a write to `thr.Status` does, with `thr` from the lister
  pub write_status : Store → Throttle Q L → Store
  pub list_pods : String → Result (List (Pod Q))
  -- `UpdateStatus` of the client
  pub update_status : Throttle Q L → Result (Throttle Q L)
  pub split_key : String → Result (String × String)
  pub key_of : Enqueued → Result String
  pub parse : String → Result Time
  pub as_selector : L → Result (Labels → Bool)
  -- `apiequality.Semantic.DeepEqual`, at the three types that it is called at
  pub same_amount : ResourceAmount Q → ResourceAmount Q → Bool
  pub same_messages : List Error → List Error → Bool
  pub same_status : ThrottleStatus Q → ThrottleStatus Q → Bool
  -- the capacity of a new array for a slice of this length
  pub grow : ℕ → ℕ

pub record State (Q L Store : Type 0) : Type 0 where
  pub throttles : Store
  pub cache : ReservedResourceAmounts Q
  pub log : Log
  -- the throttles whose metrics were recorded, and the status updates that were sent
  pub recorded : List (Throttle Q L)
  pub updates : List (Throttle Q L)

abbrev pub nn_of : {Q L : Type 0} → Throttle Q L → NamespacedName
nn_of thr = record { namespace = thr.namespace; name = thr.name }

-- What the loop of `affectedPods` changes.
pub record PodLists (Q : Type 0) : Type 0 where
  pub heap : Heap (Pod Q)
  pub nonterminated : Slice
  pub terminated : Slice

-- The four lists that `CheckThrottled` returns.
pub record Checked (Q L : Type 0) : Type 0 where
  pub already_throttled : List (Throttle Q L)
  pub insufficient_ones : List (Throttle Q L)
  pub exceeding : List (Throttle Q L)
  pub affected : List (Throttle Q L)

-- the `switch` of `CheckThrottled`
unfoldable pub place :
    {Q L : Type 0} → Throttle Q L → Checked Q L → CheckThrottleStatus → Checked Q L
place thr r active = record r { already_throttled = r.already_throttled ++ thr ∷ [] }
place thr r insufficient = record r { insufficient_ones = r.insufficient_ones ++ thr ∷ [] }
place thr r pod_requests_exceeds_threshold = record r { exceeding = r.exceeding ++ thr ∷ [] }
place thr r not_throttled = r

module _ {Q L Store : Type 0} ⦃q : Quantity Q⦄ (env : Environment Q L Store) where
  unfoldable pub is_responsible_for : Throttle Q L → Bool
  is_responsible_for thr = env.throttler_name == thr.spec.base.throttler_name

  unfoldable pub should_count_in : Pod Q → Bool
  unfolding is_scheduled
  should_count_in pod = (pod.scheduler_name == env.target_scheduler_name) && is_scheduled pod

  -- `terminatedPods = append(nonterminatedPods, pod)`, as in the source
  unfoldable pub sort_pod : Pod Q → PodLists Q → PodLists Q
  unfolding is_not_finished
  sort_pod pod s =
      let (longer, heap) = Slices.append env.grow s.nonterminated pod s.heap in
      if is_not_finished pod
      then record s { heap = heap; nonterminated = longer }
      else record s { heap = heap; terminated = longer }

  unfoldable pub sort_pods : Throttle Q L → List (Pod Q) → PodLists Q → Result (PodLists Q)
  unfolding should_count_in sort_pod
  sort_pods thr [] s = ok s
  sort_pods thr (pod ∷ pods) s =
      let skip = sort_pods thr pods s in
      let take = sort_pods thr pods (sort_pod pod s) in
      if not (should_count_in pod) then skip else do
        match ← matches_to_pod env.as_selector thr.spec.selector pod
        if match then take else skip

  abbrev pub no_lists : PodLists Q
  no_lists =
      let h : Heap (Pod Q) = record { next = 0; capacity = λ _. 0; cell = λ _ _. none } in
      let (nonterminated, h') = make_empty h in
      let (terminated, h'') = make_empty h' in
      record { heap = h''; nonterminated = nonterminated; terminated = terminated }

  -- the pods that a throttle counts, and those that have terminated
  unfoldable pub affected_pods : Throttle Q L → Result (List (Pod Q) × List (Pod Q))
  unfolding sort_pods
  affected_pods thr = do
    pods ← env.list_pods thr.namespace
    s ← sort_pods thr pods no_lists
    ok (contents s.heap s.nonterminated, contents s.heap s.terminated)

  unfoldable pub affecting : Pod Q → List (Throttle Q L) → Result (List (Throttle Q L))
  unfolding is_responsible_for
  affecting pod [] = ok []
  affecting pod (throttle ∷ throttles) =
      let rest = affecting pod throttles in
      if not (is_responsible_for throttle) then rest else do
        match ← matches_to_pod env.as_selector throttle.spec.selector pod
        if match then (do others ← rest; ok (throttle ∷ others)) else rest

  unfoldable pub affected_throttles : Store → Pod Q → Result (List (Throttle Q L))
  unfolding affecting
  affected_throttles store pod = do
    throttles ← env.list_throttles store pod.namespace
    affecting pod throttles

  unfoldable pub reserve_on_throttle :
      Pod Q → Throttle Q L → ReservedResourceAmounts Q → ReservedResourceAmounts Q × Bool
  reserve_on_throttle pod thr c = add_pod c (nn_of thr) pod

  unfoldable pub un_reserve_on_throttle :
      Pod Q → Throttle Q L → ReservedResourceAmounts Q → ReservedResourceAmounts Q × Bool
  un_reserve_on_throttle pod thr c = remove_pod c (nn_of thr) pod

  unfoldable pub reserve : Pod Q → State Q L Store → Result (Unit {0}) × State Q L Store
  unfolding affected_throttles reserve_on_throttle
  reserve pod s = elim (affected_throttles s.throttles pod) [
    | err e ↦ (err e, s)
    | ok throttles ↦ (
      ok tt,
      record s { cache = for_each throttles s.cache (λ thr c. (reserve_on_throttle pod thr c).0) },
    )
  ]

  unfoldable pub un_reserve : Pod Q → State Q L Store → Result (Unit {0}) × State Q L Store
  unfolding affected_throttles un_reserve_on_throttle
  un_reserve pod s = elim (affected_throttles s.throttles pod) [
    | err e ↦ (err e, s)
    | ok throttles ↦ (
      ok tt,
      record s {
        cache = for_each throttles s.cache (λ thr c. (un_reserve_on_throttle pod thr c).0);
      },
    )
  ]

  -- what a throttle says of a pod, with what is reserved on it
  unfoldable pub check_on :
      ReservedResourceAmounts Q → Pod Q → Bool → Throttle Q L → CheckThrottleStatus
  check_on c pod on_equal thr =
      check_throttled_for thr pod (reserved_resource_amount c (nn_of thr)).0 on_equal

  -- the round of the loop of `CheckThrottled`
  unfoldable pub check_one :
      ReservedResourceAmounts Q → Pod Q → Bool → Throttle Q L → Checked Q L → Checked Q L
  unfolding check_on place
  check_one c pod on_equal thr r =
      place thr (record r { affected = r.affected ++ thr ∷ [] }) (check_on c pod on_equal thr)

  unfoldable pub check_throttled : State Q L Store → Pod Q → Bool → Result (Checked Q L)
  unfolding affected_throttles check_one
  check_throttled s pod on_equal = do
    throttles ← affected_throttles s.throttles pod
    ok (
        for_each throttles
          (record { already_throttled = []; insufficient_ones = []; exceeding = []; affected = [] })
          (check_one s.cache pod on_equal))
