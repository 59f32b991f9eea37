-- ===== src/ThrottleController/Affected.antt =====
-- Which pods `affectedPods` of throttle_controller.go returns, with its two lists on a heap where
-- they can share an array.
use kube_throttler.Prelude.{
  ◌≡◌, refl, sym, ◌∙◌, ap, subst, Bool, true, false, ◌&&◌, List, [], ◌∷◌, ◌++◌, arith,
  if◌then◌else◌, Bool-cases, inl, inr,
}
use mathlib.Core.List.{append_assoc, append-nil}
use kube_throttler.Prelude.Lists.{In, All, All-In, select}
use kube_throttler.Quantity.{Quantity}
use kube_throttler.Errors.{Result, ok, err, ok-subst, ok-injective, Result-cases, ◌>>=◌}
use kube_throttler.Pod.{Pod, is_not_finished}
use kube_throttler.Throttle.{Throttle}
use kube_throttler.Slices
use kube_throttler.Slices.{Slice, Heap, contents, elements, make_empty}
use kube_throttler.Slices.Frame.{
  Holds, Each, append-Holds, append-frame, append-Each, append-Each_self, contents-Holds,
  contents-Each,
}
use kube_throttler.Selector.{matches_to_pod}
use kube_throttler.ThrottleController.{
  Environment, PodLists, should_count_in, sort_pod, sort_pods, no_lists, affected_pods,
}

abbrev pub said_yes : Result Bool → Bool
said_yes (ok b) = b
said_yes (err e) = false

module _ {Q L Store : Type 0} ⦃q : Quantity Q⦄ (env : Environment Q L Store)
    (thr : Throttle Q L) where
  -- The throttle's selector takes the pod, which the target scheduler has placed on a node.
  abbrev pub concerns : Pod Q → Bool
  concerns pod =
      should_count_in env pod && said_yes (matches_to_pod env.as_selector thr.spec.selector pod)

  abbrev pub is_running : Pod Q → Bool
  is_running pod = concerns pod && is_not_finished pod

  record Sorted (P : Pod Q → Type 0) (s : PodLists Q) (xs : List (Pod Q)) : Type 0 where
    running : Holds s.heap s.nonterminated xs
    running_each : Each P s.heap s.nonterminated
    terminated_each : Each P s.heap s.terminated

  sort_pod-Sorted :
      (P : Pod Q → Type 0) (pod : Pod Q) (s : PodLists Q) (xs : List (Pod Q))
      → P pod
      → Sorted P s xs
      → Sorted P (sort_pod env pod s) (if is_not_finished pod then xs ++ pod ∷ [] else xs)
  unfolding sort_pod
  sort_pod-Sorted P pod s xs p v = elim (Bool-cases (is_not_finished pod)) [
    | inl running ↦
        rw (running, sort_pod)
          (record {
            running = append-Holds env.grow s.nonterminated pod s.heap xs v.running;
            running_each = append-Each_self env.grow s.nonterminated pod s.heap P p v.running_each;
            terminated_each =
                append-Each env.grow s.nonterminated pod s.heap P s.terminated p v.terminated_each;
          })
    | inr finished ↦
        rw (finished, sort_pod)
          (record {
            running =
                append-frame env.grow s.nonterminated pod s.heap s.nonterminated xs v.running.there
                  (λ _. omega arith) v.running;
            running_each =
                append-Each env.grow s.nonterminated pod s.heap P s.nonterminated p v.running_each;
            terminated_each =
                append-Each_self env.grow s.nonterminated pod s.heap P p v.running_each;
          })
  ]

  -- a round that does not fail
  sort_pods-step :
      (pod : Pod Q) (pods : List (Pod Q)) (s s' : PodLists Q)
      → sort_pods env thr (pod ∷ pods) s ≡ ok s'
      → sort_pods env thr pods (if concerns pod then sort_pod env pod s else s) ≡ ok s'
  unfolding sort_pods
  sort_pods-step pod pods s s' h = ground arith

  select-step :
      (pod : Pod Q) (pods xs : List (Pod Q))
      → concerns pod ≡ true
      → (if is_not_finished pod then xs ++ pod ∷ [] else xs) ++ select is_running pods
        ≡ xs ++ select is_running (pod ∷ pods)
  unfolding select
  select-step pod pods xs yes' = elim (Bool-cases (is_not_finished pod)) [
    | inl running ↦
        rw (running, yes', if◌then◌else◌) (append_assoc xs (pod ∷ []) (select is_running pods))
    | inr finished ↦ rw (finished, yes', if◌then◌else◌) refl
  ]

  select-skip :
      (pod : Pod Q) (pods : List (Pod Q))
      → concerns pod ≡ false
      → select is_running (pod ∷ pods) ≡ select is_running pods
  unfolding select
  select-skip pod pods out = rw (out, if◌then◌else◌) refl

  sort_pods-Sorted :
      (P : Pod Q → Type 0) (pods : List (Pod Q)) (s s' : PodLists Q) (xs : List (Pod Q))
      → ((p : Pod Q) → In p pods → concerns p ≡ true → P p)
      → Sorted P s xs
      → sort_pods env thr pods s ≡ ok s'
      → Sorted P s' (xs ++ select is_running pods)
  sort_pods-Sorted P [] s s' xs all v h =
      unfold sort_pods select in
      subst (λ l. Sorted P s' l) (sym (append-nil xs)) (ok-subst (λ t. Sorted P t xs) h v)
  sort_pods-Sorted P (pod ∷ pods) s s' xs all v h = elim (Bool-cases (concerns pod)) [
    | inl here ↦
        subst (λ l. Sorted P s' l) (select-step pod pods xs here)
          (sort_pods-Sorted P pods (sort_pod env pod s) s'
            (if is_not_finished pod then xs ++ pod ∷ [] else xs) (λ p m. all p (inr m))
            (sort_pod-Sorted P pod s xs (all pod (inl refl) here) v)
            (ap (λ b. sort_pods env thr pods (if b then sort_pod env pod s else s)) (sym here)
              ∙ sort_pods-step pod pods s s' h))
    | inr out ↦
        subst (λ l. Sorted P s' (xs ++ l)) (sym (select-skip pod pods out))
          (sort_pods-Sorted P pods s s' xs (λ p m. all p (inr m)) v
            (ap (λ b. sort_pods env thr pods (if b then sort_pod env pod s else s)) (sym out)
              ∙ sort_pods-step pod pods s s' h))
  ]

  no_lists-Sorted : (P : Pod Q → Type 0) → Sorted P (no_lists env) []
  unfolding make_empty
  no_lists-Sorted P = record {
    running = record { size = refl; there = omega arith; cells = λ i l. absurd (omega arith) };
    running_each = record { there = omega arith; cells = λ i l. absurd (omega arith) };
    terminated_each = record { there = omega arith; cells = λ i l. absurd (omega arith) };
  }

  -- If `affectedPods` returns, its first list is the pods of the throttle's namespace that concern
  -- the throttle and have not finished, in their order; and its second list holds only pods of the
  -- namespace that concern the throttle.
  pub affected_pods_lem :
      (pods running terminated : List (Pod Q))
      → env.list_pods thr.namespace ≡ ok pods
      → affected_pods env thr ≡ ok (running, terminated)
      → (running ≡ select is_running pods) × All (λ p. In p pods × (concerns p ≡ true)) terminated
  unfolding affected_pods
  affected_pods_lem pods running terminated listed h =
      let lists : PodLists Q → Result (List (Pod Q) × List (Pod Q)) =
        λ s. ok (contents s.heap s.nonterminated, contents s.heap s.terminated) in
      let shape : affected_pods env thr ≡ (sort_pods env thr pods (no_lists env) >>= lists) =
        rw (listed, ◌>>=◌) refl in
      elim (Result-cases (sort_pods env thr pods (no_lists env))) [
        | inr (e, bad) ↦
            let failed : affected_pods env thr ≡ err e = shape ∙ ap (λ r. r >>= lists) bad in
            absurd (cc)
        | inl (s, sorted) ↦
            let v =
              sort_pods-Sorted (λ p. In p pods × (concerns p ≡ true)) pods (no_lists env) s []
                (λ p m c. (m, c)) (no_lists-Sorted (λ p. In p pods × (concerns p ≡ true))) sorted in
            let same : ◌≡◌ {A = List (Pod Q) × List (Pod Q)}
                (contents s.heap s.nonterminated, contents s.heap s.terminated)
                (running, terminated) =
              ok-injective (sym (shape ∙ ap (λ r. r >>= lists) sorted) ∙ h) in
            (
              sym (ap (λ (r : List (Pod Q) × List (Pod Q)). r.0) same)
                  ∙ contents-Holds s.heap s.nonterminated (select is_running pods) v.running,
              All-In terminated λ p m.
                  contents-Each (λ p. In p pods × (concerns p ≡ true)) s.heap s.terminated
                    v.terminated_each p
                    (subst (λ (r : List (Pod Q) × List (Pod Q)). In p r.1) (sym same) m),
            )
      ]

  -- If a namespace has two pods, both of which concern the throttle and have finished, then the list
  -- of terminated pods holds the second alone.
  pub terminated_forgotten :
      (p1 p2 : Pod Q)
      → env.list_pods thr.namespace ≡ ok (p1 ∷ p2 ∷ [])
      → should_count_in env p1 ≡ true
      → should_count_in env p2 ≡ true
      → matches_to_pod env.as_selector thr.spec.selector p1 ≡ ok true
      → matches_to_pod env.as_selector thr.spec.selector p2 ≡ ok true
      → is_not_finished p1 ≡ false
      → is_not_finished p2 ≡ false
      → affected_pods env thr ≡ ok ([], p2 ∷ [])
  unfolding affected_pods sort_pods sort_pod make_empty Slices.append elements
  terminated_forgotten p1 p2 listed c1 c2 m1 m2 f1 f2 = rw (listed, c1, c2, m1, m2, f1, f2) refl
