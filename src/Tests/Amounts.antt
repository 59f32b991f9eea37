-- ===== src/Tests/Amounts.antt =====
-- Theorems on resource lists, amounts and selectors, applied.
use kube_throttler.Prelude.{string_eq, ◌≡◌, refl, String, Bool, true, false, [], ◌∷◌, ◌↔◌}
use kube_throttler.Prelude.Int.{ℤ, pos}
use kube_throttler.Prelude.GoMap.{get, IsMap}
use kube_throttler.Prelude.Lists.{In}
use kube_throttler.Errors.{ok}
use kube_throttler.Pod.{ResourceList}
use kube_throttler.ResourceAmount.{resource_amount_of_pod, is_throttled, is_throttled_for}
use kube_throttler.Throttle.{ThrottleSelectorTerm}
use kube_throttler.NamespacedName.{nn_eq, nn_of_pod}
use kube_throttler.Selector.{Labels, matches_to_pod}
use kube_throttler.Reserved.{PodResourceAmountMap}
use kube_throttler.Reserved.Total.{IsTidy, pod_amount}
use kube_throttler.ResourceAmount.Throttled.{Fits, not_throttled_iff}
use kube_throttler.ResourceList.PodRequest.{IsPod, requested, amount_of-pod_request}
use kube_throttler.ResourceList.Compare.{amount_at, equal_to_iff}
use kube_throttler.Selector.Terms.{matches_to_pod_iff}
use kube_throttler.ResourceList.Entries.{amount_of}
use kube_throttler.ResourceList.{pod_request_resource_list, equal_to}
use kube_throttler.Tests.{ints, Sel, web, failed, limit, status, thr, env}

abbrev pods_reserved : PodResourceAmountMap ℤ
pods_reserved =
    (nn_of_pod web, resource_amount_of_pod web)
    ∷ (nn_of_pod failed, resource_amount_of_pod failed)
    ∷ []

pods_reserved-IsTidy : IsTidy pods_reserved
unfolding get
pods_reserved-IsTidy = ((refl, (refl, tt)), (pod_amount web, (pod_amount failed, tt)))

not_throttled_iff_example :
    (is_throttled_for (is_throttled limit status.used true) web ≡ false)
    ↔ Fits true limit status.used web
unfolding get
not_throttled_iff_example = not_throttled_iff limit status.used true web (refl, tt)

web-IsPod : IsPod web
unfolding get
web-IsPod = record {
  inits = ((refl, tt), tt);
  mains = ((refl, tt), ((refl, tt), tt));
  extra = λ m e. absurd (cc);
}

amount_of-pod_request_example :
    amount_of "cpu" (pod_request_resource_list web) ≡ requested "cpu" web
amount_of-pod_request_example = amount_of-pod_request web "cpu" web-IsPod

abbrev small : ResourceList ℤ
small = ("cpu", pos 2) ∷ ("memory", pos 8) ∷ []

abbrev large : ResourceList ℤ
large = ("memory", pos 4) ∷ ("gpu", pos 1) ∷ []

small-IsMap : IsMap small
unfolding get
small-IsMap = (refl, (refl, tt))

large-IsMap : IsMap large
unfolding get
large-IsMap = (refl, (refl, tt))

equal_to_iff_example :
    (equal_to small large ≡ true) ↔ ((name : String) → amount_at name small ≡ amount_at name large)
equal_to_iff_example = equal_to_iff small large small-IsMap large-IsMap

matches_to_pod_iff_example : (matches_to_pod env.as_selector thr.spec.selector web ≡ ok true) ↔ (
    (t : ThrottleSelectorTerm Sel) × In t thr.spec.selector.selector_terms
    × (p : Labels → Bool) × (env.as_selector t.pod_selector ≡ ok p)
    × (p web.labels ≡ true))
matches_to_pod_iff_example =
    matches_to_pod_iff env.as_selector thr.spec.selector web (λ t among. (t.pod_selector, refl))
