-- ===== src/Reserved/Moves.antt =====
-- What a reservation does to the totals, and what `moveThrottleAssignmentForPods` does to the
-- throttles of a pod.
use kube_throttler.Prelude.{
  string_eq, ◌==◌, String, ◌≡◌, ◌≢◌, refl, sym, ◌∙◌, ap, subst, Bool, true, false, none, some, [],
  ◌∷◌, arith, if◌then◌else◌, ◌<◌, ◌^◌, ◌⊎◌, eq_of_beq, eq_self, beq_ne, Bool-cases, inl, inr,
}
use kube_throttler.Prelude.Int.{◌+ℤ◌}
use kube_throttler.Prelude.GoMap.{get, has, put, delete, for_range, IsMap, delete-put}
use kube_throttler.Quantity.{Quantity}
use kube_throttler.Pod.{Pod}
use kube_throttler.NamespacedName.{NamespacedName, nn_eq, nn_of_pod}
use kube_throttler.ResourceList.Entries.{amount_of, join}
use kube_throttler.ResourceAmount.{ResourceAmount, resource_amount_of_pod}
use kube_throttler.Reserved.{
  ReservedResourceAmounts, NameSet, new_reserved_resource_amounts, add_pod, remove_pod,
  reserved_resource_amount, move_throttle_assignment_for_pods,
}
use kube_throttler.Prelude.Lists.{length}
use kube_throttler.ResourceAmount.Throttled.{count_of}
use kube_throttler.Reserved.Entries.{pods_of, pods_of-add_pod, pods_of-remove_pod, reserved-total}
use kube_throttler.Reserved.Total.{
  IsTidy, request-total, sum-put, sum-delete, put-IsTidy, delete-IsTidy, sum_requests, total-IsMap,
  number, count-total,
}

module _ {Q : Type 0} ⦃q : Quantity Q⦄ where
  -- The maps of the cache are maps, and hold the amounts of pods.
  abbrev pub IsWellFormed : ReservedResourceAmounts Q → Type 0
  IsWellFormed c = (nn : NamespacedName) → IsTidy (pods_of nn c)

  pub add_pod-IsWellFormed :
      (c : ReservedResourceAmounts Q) (nn : NamespacedName) (pod : Pod Q)
      → IsWellFormed c
      → IsWellFormed (add_pod c nn pod).0
  add_pod-IsWellFormed c nn pod h nn' =
      subst IsTidy (sym (pods_of-add_pod c nn pod nn')) (choose (nn == nn'))
    where
      choose :
          (b : Bool)
          → IsTidy (
              if b
              then put (nn_of_pod pod) (resource_amount_of_pod pod) (pods_of nn c)
              else pods_of nn' c)
      choose true = put-IsTidy (nn_of_pod pod) pod (pods_of nn c) (h nn)
      choose false = h nn'

  pub remove_pod-IsWellFormed :
      (c : ReservedResourceAmounts Q) (nn : NamespacedName) (pod : Pod Q)
      → IsWellFormed c
      → IsWellFormed (remove_pod c nn pod).0
  remove_pod-IsWellFormed c nn pod h nn' =
      subst IsTidy (sym (pods_of-remove_pod c nn pod nn')) (choose (nn == nn'))
    where
      choose :
          (b : Bool) → IsTidy (if b then delete (nn_of_pod pod) (pods_of nn c) else pods_of nn' c)
      choose true = delete-IsTidy (nn_of_pod pod) (pods_of nn c) (h nn)
      choose false = h nn'

  pods_of-add_pod_self :
      (c : ReservedResourceAmounts Q) (nn : NamespacedName) (pod : Pod Q)
      → pods_of nn (add_pod c nn pod).0
        ≡ put (nn_of_pod pod) (resource_amount_of_pod pod) (pods_of nn c)
  pods_of-add_pod_self c nn pod = pods_of-add_pod c nn pod nn ∙ rw (eq_self nn) refl

  pods_of-add_pod_ne :
      (c : ReservedResourceAmounts Q) (nn : NamespacedName) (pod : Pod Q) (nn' : NamespacedName)
      → nn ≢ nn'
      → pods_of nn' (add_pod c nn pod).0 ≡ pods_of nn' c
  pods_of-add_pod_ne c nn pod nn' ne = pods_of-add_pod c nn pod nn' ∙ rw (beq_ne nn nn' ne) refl

  pods_of-remove_pod_self :
      (c : ReservedResourceAmounts Q) (nn : NamespacedName) (pod : Pod Q)
      → pods_of nn (remove_pod c nn pod).0 ≡ delete (nn_of_pod pod) (pods_of nn c)
  pods_of-remove_pod_self c nn pod = pods_of-remove_pod c nn pod nn ∙ rw (eq_self nn) refl

  -- What is reserved on a throttle is a map.
  pub reserved-IsMap :
      (c : ReservedResourceAmounts Q) (nn : NamespacedName)
      → IsMap (reserved_resource_amount c nn).0.resource_requests
  reserved-IsMap c nn =
      subst (λ (r : ResourceAmount Q × NameSet). IsMap r.0.resource_requests)
        (sym (reserved-total c nn)) (total-IsMap (pods_of nn c))

  -- What is reserved of a name on a throttle is the sum over its pods.
  pub reserved_sum :
      (c : ReservedResourceAmounts Q) (nn : NamespacedName) (name : String)
      → IsWellFormed c
      → amount_of name (reserved_resource_amount c nn).0.resource_requests
        ≡ sum_requests name none (pods_of nn c)
  reserved_sum c nn name h =
      ap (λ (r : ResourceAmount Q × NameSet). amount_of name r.0.resource_requests)
        (reserved-total c nn)
      ∙ request-total (pods_of nn c) name (h nn)

  pub reserved_count :
      (c : ReservedResourceAmounts Q) (nn : NamespacedName)
      → IsWellFormed c
      → length (pods_of nn c) < 2 ^ 63
      → count_of (reserved_resource_amount c nn).0.resource_counts ≡ number (length (pods_of nn c))
  reserved_count c nn h few =
      ap (λ (r : ResourceAmount Q × NameSet). count_of r.0.resource_counts) (reserved-total c nn)
      ∙ count-total (pods_of nn c) (h nn) few

  -- Reserving a pod that was not reserved on a throttle adds what it requests of each name to the
  -- throttle's total, if the cache is well-formed.
  pub reserved-add_pod :
      (c : ReservedResourceAmounts Q) (nn : NamespacedName) (pod : Pod Q) (name : String)
      → IsWellFormed c
      → get (nn_of_pod pod) (pods_of nn c) ≡ none
      → amount_of name (reserved_resource_amount (add_pod c nn pod).0 nn).0.resource_requests
        ≡ join ◌+ℤ◌
            (amount_of name (reserved_resource_amount c nn).0.resource_requests)
            (amount_of name (resource_amount_of_pod pod).resource_requests)
  reserved-add_pod c nn pod name h fresh =
      reserved_sum (add_pod c nn pod).0 nn name (add_pod-IsWellFormed c nn pod h)
      ∙ ap (sum_requests name none) (pods_of-add_pod_self c nn pod)
      ∙ sum-put name none (nn_of_pod pod) (resource_amount_of_pod pod) (pods_of nn c) fresh
      ∙ ap (λ o. join ◌+ℤ◌ o (amount_of name (resource_amount_of_pod pod).resource_requests))
          (sym (reserved_sum c nn name h))

  -- Taking a pod off a throttle takes what was reserved for it off the throttle's total, if the
  -- cache is well-formed.
  pub reserved-remove_pod :
      (c : ReservedResourceAmounts Q) (nn : NamespacedName) (pod : Pod Q) (ra : ResourceAmount Q)
      (name : String)
      → IsWellFormed c
      → get (nn_of_pod pod) (pods_of nn c) ≡ some ra
      → amount_of name (reserved_resource_amount c nn).0.resource_requests
        ≡ join ◌+ℤ◌
            (amount_of name
              (reserved_resource_amount (remove_pod c nn pod).0 nn).0.resource_requests)
            (amount_of name ra.resource_requests)
  reserved-remove_pod c nn pod ra name h there =
      reserved_sum c nn name h
      ∙ sum-delete name none (nn_of_pod pod) ra (pods_of nn c) (h nn).0 there
      ∙ ap (λ o. join ◌+ℤ◌ o (amount_of name ra.resource_requests))
          (sym (
            reserved_sum (remove_pod c nn pod).0 nn name (remove_pod-IsWellFormed c nn pod h)
            ∙ ap (sum_requests name none) (pods_of-remove_pod_self c nn pod)))

  -- Giving back a fresh reservation leaves the throttle's pods as they were.
  pub remove_pod-add_pod :
      (c : ReservedResourceAmounts Q) (nn : NamespacedName) (pod : Pod Q)
      → get (nn_of_pod pod) (pods_of nn c) ≡ none
      → (nn' : NamespacedName)
      → pods_of nn' (remove_pod (add_pod c nn pod).0 nn pod).0 ≡ pods_of nn' c
  remove_pod-add_pod c nn pod fresh nn' =
      pods_of-remove_pod (add_pod c nn pod).0 nn pod nn' ∙ choose (Bool-cases (nn == nn'))
    where
      choose :
          ((nn == nn') ≡ true) ⊎ ((nn == nn') ≡ false)
          → (if nn == nn'
              then delete (nn_of_pod pod) (pods_of nn (add_pod c nn pod).0)
              else pods_of nn' (add_pod c nn pod).0)
            ≡ pods_of nn' c
      choose (inl same) =
          rw (same, if◌then◌else◌)
            (ap (delete (nn_of_pod pod)) (pods_of-add_pod_self c nn pod)
              ∙ delete-put (nn_of_pod pod) (resource_amount_of_pod pod) (pods_of nn c) fresh
              ∙ ap (λ k. pods_of k c) (eq_of_beq nn nn' same))
      choose (inr other) =
          rw (other, if◌then◌else◌)
            (pods_of-add_pod c nn pod nn'
              ∙ ap
                  (λ b.
                    if b
                    then put (nn_of_pod pod) (resource_amount_of_pod pod) (pods_of nn c)
                    else pods_of nn' c)
                  other)

  unreserve_loop :
      (thrs : NameSet) (c : ReservedResourceAmounts Q) (pod : Pod Q) (nn : NamespacedName)
      → IsMap thrs
      → pods_of nn (for_range thrs c (λ k _ s. (remove_pod s k pod).0))
        ≡ (if has nn thrs then delete (nn_of_pod pod) (pods_of nn c) else pods_of nn c)
  unfolding for_range get
  unreserve_loop [] c pod nn d = refl
  unreserve_loop ((k, u) ∷ thrs) c pod nn d =
      unreserve_loop thrs (remove_pod c k pod).0 pod nn d.1
      ∙ ground (arith, pods_of-remove_pod c k pod nn, nn_eq.beq_iff k nn)

  reserve_loop :
      (thrs : NameSet) (c : ReservedResourceAmounts Q) (pod : Pod Q) (nn : NamespacedName)
      → IsMap thrs
      → pods_of nn (for_range thrs c (λ k _ s. (add_pod s k pod).0)) ≡ (
          if has nn thrs
          then put (nn_of_pod pod) (resource_amount_of_pod pod) (pods_of nn c)
          else pods_of nn c)
  unfolding for_range get
  reserve_loop [] c pod nn d = refl
  reserve_loop ((k, u) ∷ thrs) c pod nn d =
      reserve_loop thrs (add_pod c k pod).0 pod nn d.1
      ∙ ground (arith, pods_of-add_pod c k pod nn, nn_eq.beq_iff k nn)

  -- After the move the pod is reserved on each of the throttles that it goes to, gone from those
  -- that it only comes from, and the reservations of all else stay, if both sets of names are maps.
  pub pods_of-move :
      (c : ReservedResourceAmounts Q) (pod : Pod Q) (from_thrs to_thrs : NameSet)
      (nn : NamespacedName)
      → IsMap from_thrs
      → IsMap to_thrs
      → pods_of nn (move_throttle_assignment_for_pods c pod from_thrs to_thrs) ≡ (
          let left =
            if has nn from_thrs then delete (nn_of_pod pod) (pods_of nn c) else pods_of nn c in
          if has nn to_thrs then put (nn_of_pod pod) (resource_amount_of_pod pod) left else left)
  unfolding move_throttle_assignment_for_pods
  pods_of-move c pod from_thrs to_thrs nn d d' =
      reserve_loop to_thrs _ pod nn d'
      ∙ ap (λ m. if has nn to_thrs then put (nn_of_pod pod) (resource_amount_of_pod pod) m else m)
          (unreserve_loop from_thrs c pod nn d)

pub new-IsWellFormed :
    (Q : Type 0) ⦃q : Quantity Q⦄ → IsWellFormed {Q = Q} new_reserved_resource_amounts
unfolding get
new-IsWellFormed Q nn = (tt, tt)
