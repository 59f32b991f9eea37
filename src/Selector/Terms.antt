-- ===== src/Selector/Terms.antt =====
-- Which pods and namespaces the selectors of throttle_selector.go and clusterthrottle_selector.go
-- take.
use kube_throttler.Prelude.{
  ◌≡◌, refl, sym, ap, ◌∙◌, ◌↔◌, inl, inr, Bool, true, false, Option, some, List, [], ◌∷◌, arith,
  false≢true,
}
use kube_throttler.Prelude.Lists.{In}
use kube_throttler.Pod.{Pod}
use kube_throttler.Errors.{Result, ok, err, ok-subst, ok-injective, Result-cases, ◌>>=◌}
use kube_throttler.Throttle.{
  ThrottleSelector, ThrottleSelectorTerm, ClusterThrottleSelector, ClusterThrottleSelectorTerm,
}
use kube_throttler.Selector.{
  Labels, Namespace, any_term, term_matches_to_pod, matches_to_pod, term_matches_to_namespace,
  matches_to_namespace, cluster_term_matches_to_pod, cluster_matches_to_pod,
}

module _ {T : Type 0} (test : T → Result Bool) where
  any_term_sound :
      (ts : List T) → any_term test ts ≡ ok true → (t : T) × In t ts × (test t ≡ ok true)
  unfolding any_term
  any_term_sound [] h = absurd (ok-subst (λ b. elim b [ true ↦ ⊥ | false ↦ Unit ]) h tt)
  any_term_sound (t ∷ ts) h = go (test t) refl (any_term_sound ts) h
    where
      go :
          (r : Result Bool)
          → test t ≡ r
          → (any_term test ts ≡ ok true → (u : T) × In u ts × (test u ≡ ok true))
          → (elim r [
            | err e ↦ err e
            | ok match ↦ elim match [ true ↦ ok true | false ↦ any_term test ts ]
          ])
            ≡ ok true
          → (u : T) × In u (t ∷ ts) × (test u ≡ ok true)
      go (ok true) e ih h = (t, inl refl, e)
      go (ok false) e ih h = let (u, m, f) = ih h in (u, inr m, f)
      go (err x) e ih h = absurd (cc)

  -- every term can be read
  abbrev AllReadable : List T → Type 0
  AllReadable [] = Unit
  AllReadable (t ∷ ts) = ((b : Bool) × (test t ≡ ok b)) × AllReadable ts

  any_term_complete :
      (ts : List T) (t : T)
      → AllReadable ts
      → In t ts
      → test t ≡ ok true
      → any_term test ts ≡ ok true
  unfolding any_term
  any_term_complete [] t r m e = absurd m
  any_term_complete (u ∷ ts) t ((true, f), r) m e = rw (f, any_term) refl
  any_term_complete (u ∷ ts) t ((false, f), r) (inl same) e =
      absurd (false≢true (ok-subst (λ b. false ≡ b) (sym f ∙ ap test (sym same) ∙ e) refl))
  any_term_complete (u ∷ ts) t ((false, f), r) (inr m) e =
      rw (f, any_term) (any_term_complete ts t r m e)

-- If one test passes wherever another does, and can always be read, so does the search.
any_term_mono :
    {T : Type 0} (weak strong : T → Result Bool) (ts : List T)
    → ((t : T) → (b : Bool) × (weak t ≡ ok b))
    → ((t : T) → strong t ≡ ok true → weak t ≡ ok true)
    → any_term strong ts ≡ ok true
    → any_term weak ts ≡ ok true
any_term_mono weak strong ts readable imp h =
    let (t, m, e) = any_term_sound strong ts h in any_term_complete weak ts t (all ts) m (imp t e)
  where
    all : (us : List _) → AllReadable weak us
    all [] = tt
    all (u ∷ us) = (readable u, all us)

module _ {L : Type 0} (as_selector : L → Result (Labels → Bool)) where
  namespace_readable :
      (t : ClusterThrottleSelectorTerm L) (ns : Namespace)
      → (b : Bool) × (term_matches_to_namespace as_selector t (some ns) ≡ ok b)
  unfolding term_matches_to_namespace
  namespace_readable t ns = elim (Result-cases (as_selector t.namespace_selector)) [
    | inl (p, e) ↦ (p ns.labels, rw (e, term_matches_to_namespace) refl)
    | inr (x, e) ↦ (false, rw (e, term_matches_to_namespace) refl)
  ]

module _ {Q L : Type 0} (as_selector : L → Result (Labels → Bool)) where
  term_lem :
      (t : ThrottleSelectorTerm L) (pod : Pod Q) (p : Labels → Bool)
      → as_selector t.pod_selector ≡ ok p
      → term_matches_to_pod as_selector t pod ≡ ok (p pod.labels)
  unfolding term_matches_to_pod
  term_lem t pod p f = rw (f, ◌>>=◌) refl

  namespace_of_pod :
      (t : ClusterThrottleSelectorTerm L) (pod : Pod Q) (ns : Option Namespace)
      → cluster_term_matches_to_pod as_selector t pod ns ≡ ok true
      → term_matches_to_namespace as_selector t ns ≡ ok true
  unfolding cluster_term_matches_to_pod
  namespace_of_pod t pod ns h = ground arith

  -- If the label selectors of all terms of a `Throttle`'s selector can be converted, then the
  -- selector takes a pod exactly when the labels of the pod match one of its terms.
  pub matches_to_pod_iff :
      (s : ThrottleSelector L) (pod : Pod Q)
      → ((t : ThrottleSelectorTerm L)
          → In t s.selector_terms
          → (p : Labels → Bool) × (as_selector t.pod_selector ≡ ok p))
      → (matches_to_pod as_selector s pod ≡ ok true) ↔ (
          (t : ThrottleSelectorTerm L) × In t s.selector_terms
          × (p : Labels → Bool) × (as_selector t.pod_selector ≡ ok p)
          × (p pod.labels ≡ true))
  unfolding matches_to_pod
  matches_to_pod_iff s pod readable = (
    λ h.
        let (t, m, e) = any_term_sound test s.selector_terms h in
        let (p, f) = readable t m in (t, m, p, f, ok-injective (sym (term_lem t pod p f) ∙ e)),
    λ (t, m, p, f, g).
        any_term_complete test s.selector_terms t (all s.selector_terms (λ u n. n)) m
          (term_lem t pod p f ∙ ap ok g),
  )
    where
      test : ThrottleSelectorTerm L → Result Bool
      test t = term_matches_to_pod as_selector t pod

      all :
          (us : List (ThrottleSelectorTerm L))
          → ((t : ThrottleSelectorTerm L) → In t us → In t s.selector_terms)
          → AllReadable test us
      all [] among = tt
      all (u ∷ us) among =
          let (p, f) = readable u (among u (inl refl)) in
          ((p pod.labels, term_lem u pod p f), all us (λ t m. among t (inr m)))

  -- If the selector of a `ClusterThrottle` takes a pod in its namespace, then it takes the namespace.
  pub cluster_matches-namespace :
      (s : ClusterThrottleSelector L) (pod : Pod Q) (ns : Namespace)
      → cluster_matches_to_pod as_selector s pod (some ns) ≡ ok true
      → matches_to_namespace as_selector s (some ns) ≡ ok true
  unfolding cluster_matches_to_pod matches_to_namespace
  cluster_matches-namespace s pod ns =
      any_term_mono (λ t. term_matches_to_namespace as_selector t (some ns))
        (λ t. cluster_term_matches_to_pod as_selector t pod (some ns)) s.selector_terms
        (λ t. namespace_readable as_selector t ns) (λ t. namespace_of_pod t pod (some ns))
