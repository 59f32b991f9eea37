-- ===== src/Selector.antt =====
-- pkg/apis/schedule/v1alpha1/throttle_selector.go and clusterthrottle_selector.go. `as_selector`
-- stands for `metav1.LabelSelectorAsSelector` with the `Matches` of what it returns.
pub mod Terms
use kube_throttler.Prelude.{String, Bool, true, false, Option, none, some, List, [], ◌∷◌}
use kube_throttler.Prelude.GoMap.{GoMap}
use kube_throttler.Pod.{Pod}
use kube_throttler.Errors.{Result, ok, err, nil_dereference, ◌>>=◌}
use kube_throttler.Throttle.{
  ThrottleSelector, ThrottleSelectorTerm, ClusterThrottleSelector, ClusterThrottleSelectorTerm,
}

-- `labels.Set`
abbrev pub Labels : Type 0
Labels = GoMap String String

-- The parts of a `corev1.Namespace` that the program reads.
pub record Namespace : Type 0 where
  pub name : String
  pub labels : Labels

-- `for _, sel := range terms { match, err := …; if err … ; if match … }`
unfoldable pub any_term : {T : Type 0} → (T → Result Bool) → List T → Result Bool
any_term test [] = ok false
any_term test (t ∷ ts) = elim (test t) [
  | err e ↦ err e
  | ok match ↦ elim match [ true ↦ ok true | false ↦ any_term test ts ]
]

module _ {L : Type 0} (as_selector : L → Result (Labels → Bool)) where
  unfoldable pub term_matches_to_pod : {Q : Type 0} → ThrottleSelectorTerm L → Pod Q → Result Bool
  term_matches_to_pod t pod = do selector ← as_selector t.pod_selector; ok (selector pod.labels)

  unfoldable pub matches_to_pod : {Q : Type 0} → ThrottleSelector L → Pod Q → Result Bool
  unfolding any_term term_matches_to_pod
  matches_to_pod s pod = any_term (λ sel. term_matches_to_pod sel pod) s.selector_terms

  -- `ns` is a pointer; the error of the conversion is dropped
  unfoldable pub term_matches_to_namespace :
      ClusterThrottleSelectorTerm L → Option Namespace → Result Bool
  term_matches_to_namespace t ns = elim (as_selector t.namespace_selector) [
    | err e ↦ ok false
    | ok nss ↦ elim ns [ none ↦ err nil_dereference | some n ↦ ok (nss n.labels) ]
  ]

  unfoldable pub matches_to_namespace : ClusterThrottleSelector L → Option Namespace → Result Bool
  unfolding any_term term_matches_to_namespace
  matches_to_namespace s ns = any_term (λ sel. term_matches_to_namespace sel ns) s.selector_terms

  unfoldable pub cluster_term_matches_to_pod :
      {Q : Type 0} → ClusterThrottleSelectorTerm L → Pod Q → Option Namespace → Result Bool
  unfolding term_matches_to_namespace term_matches_to_pod
  cluster_term_matches_to_pod t pod ns = elim (term_matches_to_namespace t ns) [
    | err nil ↦ err nil
    | ok match_ns ↦ elim match_ns [
      | false ↦ ok false
      | true ↦ term_matches_to_pod t.throttle_selector_term pod
    ]
  ]

  unfoldable pub cluster_matches_to_pod :
      {Q : Type 0} → ClusterThrottleSelector L → Pod Q → Option Namespace → Result Bool
  unfolding any_term cluster_term_matches_to_pod
  cluster_matches_to_pod s pod ns =
      any_term (λ sel. cluster_term_matches_to_pod sel pod ns) s.selector_terms
