-- ===== src/Reserved/Ledger/Refinement.antt =====
-- The cache of reserved_resource_amounts.go against a ledger: which pod holds which amount on which
-- throttle, with no maps and no order.
use kube_throttler.Prelude.{
  string_eq, ◌==◌, String, ◌≡◌, refl, sym, ◌∙◌, ap, subst, fun_ext, Bool, true, false, ◌&&◌, Option,
  none, some, List, [], ◌∷◌, arith, if◌then◌else◌, ◌<◌, ◌^◌,
}
use kube_throttler.Prelude.GoMap.{get, has, put, delete, IsMap, get-put, get-delete}
use kube_throttler.Prelude.Lists.{length, for_each, for_each_inv, All}
use kube_throttler.Quantity.{Quantity}
use kube_throttler.Pod.{Pod}
use kube_throttler.NamespacedName.{NamespacedName, nn_eq, nn_of_pod}
use kube_throttler.ResourceList.Entries.{amount_of}
use kube_throttler.ResourceAmount.{ResourceAmount, resource_amount_of_pod}
use kube_throttler.ResourceAmount.Throttled.{count_of}
use kube_throttler.Reserved.{
  ReservedResourceAmounts, NameSet, add_pod, remove_pod, move_throttle_assignment_for_pods,
  reserved_resource_amount,
}
use kube_throttler.Reserved.Entries.{pods_of}
use kube_throttler.Reserved.Total.{number}
use kube_throttler.Reserved.Moves.{
  IsWellFormed, add_pod-IsWellFormed, remove_pod-IsWellFormed, reserved_sum, reserved_count,
  pods_of-move,
}
use kube_throttler.Reserved.Many.{move_throttle_assignment_for_pods-IsWellFormed}
use kube_throttler.Reserved.Ledger.{entry, entry-add_pod, entry-remove_pod}
use kube_throttler.Reserved.Ledger.Same.{same-sum, same-length}

-- What a pod holds on a throttle, if anything.
abbrev pub Ledger : Type 0 → Type 0
Ledger Q = NamespacedName → NamespacedName → Option (ResourceAmount Q)

-- The calls that change the cache.
pub data Operation (Q : Type 0) : Type 0 where
  adding : NamespacedName → Pod Q → Operation Q
  removing : NamespacedName → Pod Q → Operation Q
  moving : Pod Q → NameSet → NameSet → Operation Q

-- The sets of names that a move gets are maps.
abbrev pub IsProper : {Q : Type 0} → Operation Q → Type 0
IsProper (adding nn pod) = Unit
IsProper (removing nn pod) = Unit
IsProper (moving pod from_thrs to_thrs) = IsMap from_thrs × IsMap to_thrs

module _ {Q : Type 0} ⦃q : Quantity Q⦄ where
  -- an operation, by the code
  unfoldable pub perform : Operation Q → ReservedResourceAmounts Q → ReservedResourceAmounts Q
  perform (adding nn pod) c = (add_pod c nn pod).0
  perform (removing nn pod) c = (remove_pod c nn pod).0
  perform (moving pod from_thrs to_thrs) c =
      move_throttle_assignment_for_pods c pod from_thrs to_thrs

  -- an operation, in the ledger
  unfoldable pub account : Operation Q → Ledger Q → Ledger Q
  account (adding nn pod) l nn' pod_nn =
      if (nn == nn') && (nn_of_pod pod == pod_nn)
      then some (resource_amount_of_pod pod)
      else l nn' pod_nn
  account (removing nn pod) l nn' pod_nn =
      if (nn == nn') && (nn_of_pod pod == pod_nn) then none else l nn' pod_nn
  account (moving pod from_thrs to_thrs) l nn' pod_nn =
      if nn_of_pod pod == pod_nn
      then (if has nn' to_thrs
          then some (resource_amount_of_pod pod)
          else if has nn' from_thrs
          then none
          else l nn' pod_nn)
      else l nn' pod_nn

  -- the ledger that a cache stands for
  abbrev pub ledger_of : ReservedResourceAmounts Q → Ledger Q
  ledger_of c nn pod_nn = entry pod_nn nn c

  entry-move :
      (c : ReservedResourceAmounts Q) (pod : Pod Q) (from_thrs to_thrs : NameSet)
      (nn pod_nn : NamespacedName)
      → IsMap from_thrs
      → IsMap to_thrs
      → entry pod_nn nn (move_throttle_assignment_for_pods c pod from_thrs to_thrs)
        ≡ account (moving pod from_thrs to_thrs) (ledger_of c) nn pod_nn
  unfolding account
  entry-move c pod from_thrs to_thrs nn pod_nn d d' =
      ap (get pod_nn) (pods_of-move c pod from_thrs to_thrs nn d d')
      ∙ choose (has nn from_thrs) (has nn to_thrs)
    where
      choose :
          (b b' : Bool)
          → (let left = if b then delete (nn_of_pod pod) (pods_of nn c) else pods_of nn c in
              get pod_nn
                (if b' then put (nn_of_pod pod) (resource_amount_of_pod pod) left else left))
            ≡ (if nn_of_pod pod == pod_nn
                then (if b'
                    then some (resource_amount_of_pod pod)
                    else if b
                    then none
                    else entry pod_nn nn c)
                else entry pod_nn nn c)
      choose true true = ground (
        arith,
        get-put (nn_of_pod pod) pod_nn (resource_amount_of_pod pod)
            (delete (nn_of_pod pod) (pods_of nn c)),
        get-delete (nn_of_pod pod) pod_nn (pods_of nn c),
      )
      choose false true =
          ground (arith, get-put (nn_of_pod pod) pod_nn (resource_amount_of_pod pod) (pods_of nn c))
      choose true false = ground (arith, get-delete (nn_of_pod pod) pod_nn (pods_of nn c))
      choose false false = ground arith

  ledger_of-perform :
      (op : Operation Q) (c : ReservedResourceAmounts Q)
      → IsProper op
      → ledger_of (perform op c) ≡ account op (ledger_of c)
  unfolding perform account
  ledger_of-perform (adding nn pod) c p =
      fun_ext λ nn'. fun_ext λ pod_nn. entry-add_pod c nn pod pod_nn nn'
  ledger_of-perform (removing nn pod) c p =
      fun_ext λ nn'. fun_ext λ pod_nn. entry-remove_pod c nn pod pod_nn nn'
  ledger_of-perform (moving pod from_thrs to_thrs) c p =
      fun_ext λ nn'. fun_ext λ pod_nn. entry-move c pod from_thrs to_thrs nn' pod_nn p.0 p.1

  -- Whatever is called on the cache, in whatever order, it stands for the ledger in which the same
  -- has been accounted, if the sets of names of each move are maps.
  pub ledger_refines :
      (ops : List (Operation Q)) (c : ReservedResourceAmounts Q)
      → All IsProper ops
      → ledger_of (for_each ops c perform) ≡ for_each ops (ledger_of c) account
  unfolding for_each
  ledger_refines [] c p = refl
  ledger_refines (op ∷ ops) c p =
      ledger_refines ops (perform op c) p.1
      ∙ ap (λ l. for_each ops l account) (ledger_of-perform op c p.0)

  perform-IsWellFormed :
      (op : Operation Q) (c : ReservedResourceAmounts Q)
      → IsWellFormed c
      → IsWellFormed (perform op c)
  unfolding perform
  perform-IsWellFormed (adding nn pod) c w = add_pod-IsWellFormed c nn pod w
  perform-IsWellFormed (removing nn pod) c w = remove_pod-IsWellFormed c nn pod w
  perform-IsWellFormed (moving pod from_thrs to_thrs) c w =
      move_throttle_assignment_for_pods-IsWellFormed c pod from_thrs to_thrs w

  -- Two well-formed caches that stand for the same ledger reserve the same on each throttle: of
  -- each resource, and of pods where fewer than 2^63 are reserved.
  same_ledger :
      (c c' : ReservedResourceAmounts Q) (nn : NamespacedName) (name : String)
      → IsWellFormed c
      → IsWellFormed c'
      → ledger_of c ≡ ledger_of c'
      → length (pods_of nn c) < 2 ^ 63
      → (amount_of name (reserved_resource_amount c nn).0.resource_requests
          ≡ amount_of name (reserved_resource_amount c' nn).0.resource_requests)
        × (count_of (reserved_resource_amount c nn).0.resource_counts
            ≡ count_of (reserved_resource_amount c' nn).0.resource_counts)
  same_ledger c c' nn name w w' e few =
      let h : (j : NamespacedName) → get j (pods_of nn c) ≡ get j (pods_of nn c') =
        λ j. ap (λ (l : Ledger Q). l nn j) e in
      let n = same-length (pods_of nn c) (pods_of nn c') (w nn).0 (w' nn).0 h in
      (
        reserved_sum c nn name w
            ∙ same-sum name none (pods_of nn c) (pods_of nn c') (w nn).0 (w' nn).0 h
            ∙ sym (reserved_sum c' nn name w'),
        reserved_count c nn w few
            ∙ ap number n
            ∙ sym (reserved_count c' nn w' (subst (λ k. k < 2 ^ 63) n few)),
      )

  -- Two runs of calls on a well-formed cache that account the same in the ledger reserve the same
  -- on each throttle: of each resource, and of pods where fewer than 2^63 are reserved. The sets of
  -- names of each move are maps.
  pub runs_agree :
      (ops ops' : List (Operation Q)) (c : ReservedResourceAmounts Q) (nn : NamespacedName)
      (name : String)
      → All IsProper ops
      → All IsProper ops'
      → IsWellFormed c
      → for_each ops (ledger_of c) account ≡ for_each ops' (ledger_of c) account
      → length (pods_of nn (for_each ops c perform)) < 2 ^ 63
      → (amount_of name (reserved_resource_amount (for_each ops c perform) nn).0.resource_requests
          ≡ amount_of name
              (reserved_resource_amount (for_each ops' c perform) nn).0.resource_requests)
        × (count_of (reserved_resource_amount (for_each ops c perform) nn).0.resource_counts
            ≡ count_of (reserved_resource_amount (for_each ops' c perform) nn).0.resource_counts)
  runs_agree ops ops' c nn name p p' w e few =
      same_ledger (for_each ops c perform) (for_each ops' c perform) nn name
        (for_each_inv IsWellFormed perform perform-IsWellFormed ops c w)
        (for_each_inv IsWellFormed perform perform-IsWellFormed ops' c w)
        (ledger_refines ops c p ∙ e ∙ sym (ledger_refines ops' c p')) few
