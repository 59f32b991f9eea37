-- ===== src/Reserved/Many.antt =====
-- One pod reserved on, or taken off, each of a row of throttles.
use kube_throttler.Prelude.{◌==◌, ◌≡◌, refl, ◌∙◌, List, [], ◌∷◌, arith, if◌then◌else◌}
use kube_throttler.Prelude.GoMap.{put, delete, put_again, delete_again, for_range_inv}
use kube_throttler.Prelude.Lists.{for_each, any, for_each_inv}
use kube_throttler.Quantity.{Quantity}
use kube_throttler.Pod.{Pod}
use kube_throttler.NamespacedName.{NamespacedName, nn_eq, nn_of_pod}
use kube_throttler.ResourceAmount.{resource_amount_of_pod}
use kube_throttler.Reserved.{
  PodResourceAmountMap, ReservedResourceAmounts, NameSet, add_pod, remove_pod,
  move_throttle_assignment_for_pods,
}
use kube_throttler.Reserved.Entries.{pods_of, pods_of-add_pod, pods_of-remove_pod}
use kube_throttler.Reserved.Moves.{IsWellFormed, add_pod-IsWellFormed, remove_pod-IsWellFormed}

-- A loop whose rounds change the map of the throttle that their element names, in a way that
-- doing it again does not change.
pods_of-for_each :
    {A Q : Type 0} (body : A → ReservedResourceAmounts Q → ReservedResourceAmounts Q)
    (name_of : A → NamespacedName) (f : PodResourceAmountMap Q → PodResourceAmountMap Q)
    → ((x : A) (c : ReservedResourceAmounts Q) (nn : NamespacedName)
        → pods_of nn (body x c)
          ≡ (if name_of x == nn then f (pods_of (name_of x) c) else pods_of nn c))
    → ((m : PodResourceAmountMap Q) → f (f m) ≡ f m)
    → (xs : List A) (c : ReservedResourceAmounts Q) (nn : NamespacedName)
    → pods_of nn (for_each xs c body)
      ≡ (if any (λ x. name_of x == nn) xs then f (pods_of nn c) else pods_of nn c)
unfolding for_each
pods_of-for_each body name_of f h again [] c nn = refl
pods_of-for_each body name_of f h again (x ∷ xs) c nn =
    pods_of-for_each body name_of f h again xs (body x c) nn
    ∙ ground (arith, h x c nn, again (pods_of nn c), nn_eq.beq_iff (name_of x) nn)

module _ {A Q : Type 0} ⦃q : Quantity Q⦄ (name_of : A → NamespacedName) (pod : Pod Q) where
  abbrev pub add_all : List A → ReservedResourceAmounts Q → ReservedResourceAmounts Q
  add_all xs c = for_each xs c (λ x c'. (add_pod c' (name_of x) pod).0)

  abbrev pub remove_all : List A → ReservedResourceAmounts Q → ReservedResourceAmounts Q
  remove_all xs c = for_each xs c (λ x c'. (remove_pod c' (name_of x) pod).0)

  pub pods_of-add_all :
      (xs : List A) (c : ReservedResourceAmounts Q) (nn : NamespacedName)
      → pods_of nn (add_all xs c) ≡ (
          if any (λ x. name_of x == nn) xs
          then put (nn_of_pod pod) (resource_amount_of_pod pod) (pods_of nn c)
          else pods_of nn c)
  pods_of-add_all =
      pods_of-for_each (λ x c'. (add_pod c' (name_of x) pod).0) name_of
        (put (nn_of_pod pod) (resource_amount_of_pod pod))
        (λ x c. pods_of-add_pod c (name_of x) pod)
        (put_again (nn_of_pod pod) (resource_amount_of_pod pod))

  pub pods_of-remove_all :
      (xs : List A) (c : ReservedResourceAmounts Q) (nn : NamespacedName)
      → pods_of nn (remove_all xs c) ≡ (
          if any (λ x. name_of x == nn) xs
          then delete (nn_of_pod pod) (pods_of nn c)
          else pods_of nn c)
  pods_of-remove_all =
      pods_of-for_each (λ x c'. (remove_pod c' (name_of x) pod).0) name_of (delete (nn_of_pod pod))
        (λ x c. pods_of-remove_pod c (name_of x) pod) (delete_again (nn_of_pod pod))

  pub add_all-IsWellFormed :
      (xs : List A) (c : ReservedResourceAmounts Q) → IsWellFormed c → IsWellFormed (add_all xs c)
  add_all-IsWellFormed =
      for_each_inv IsWellFormed (λ x c'. (add_pod c' (name_of x) pod).0)
        (λ x c. add_pod-IsWellFormed c (name_of x) pod)

  pub remove_all-IsWellFormed :
      (xs : List A) (c : ReservedResourceAmounts Q)
      → IsWellFormed c
      → IsWellFormed (remove_all xs c)
  remove_all-IsWellFormed =
      for_each_inv IsWellFormed (λ x c'. (remove_pod c' (name_of x) pod).0)
        (λ x c. remove_pod-IsWellFormed c (name_of x) pod)

pub move_throttle_assignment_for_pods-IsWellFormed :
    {Q : Type 0} ⦃q : Quantity Q⦄ (c : ReservedResourceAmounts Q) (pod : Pod Q)
    (from_thrs to_thrs : NameSet)
    → IsWellFormed c
    → IsWellFormed (move_throttle_assignment_for_pods c pod from_thrs to_thrs)
unfolding move_throttle_assignment_for_pods
move_throttle_assignment_for_pods-IsWellFormed c pod from_thrs to_thrs w =
    for_range_inv IsWellFormed to_thrs (λ nn _ s. (add_pod s nn pod).0)
      (λ nn _ s. add_pod-IsWellFormed s nn pod) _
      (for_range_inv IsWellFormed from_thrs (λ nn _ s. (remove_pod s nn pod).0)
        (λ nn _ s. remove_pod-IsWellFormed s nn pod) c w)
