-- ===== src/ClusterThrottleController/Affected.antt =====
-- Which pods `affectedPods` of clusterthrottle_controller.go returns.
use kube_throttler.Prelude.{
  string_eq, ◌≡◌, refl, sym, ◌∙◌, ap, String, Bool, true, false, not, ◌&&◌, List, [], ◌∷◌, ◌++◌,
  arith, if◌then◌else◌, some, inl, inr,
}
use mathlib.Core.List.{append_assoc, append-nil}
use kube_throttler.Prelude.GoMap.{GoMap, get, put}
use kube_throttler.Prelude.Lists.{select}
use kube_throttler.Quantity.{Quantity}
use kube_throttler.Errors.{Result, ok, err, ok-injective, Result-cases, ◌>>=◌}
use kube_throttler.Pod.{Pod, is_not_finished}
use kube_throttler.Throttle.{ClusterThrottle}
use kube_throttler.Selector.{Namespace, cluster_matches_to_pod, matches_to_namespace}
use kube_throttler.ThrottleController.Affected.{said_yes}
use kube_throttler.ClusterThrottleController.{
  ClusterEnvironment, Found, should_count_in, find_pods, sort_pods, affected_pods,
}

module _ {Q L Store : Type 0} ⦃q : Quantity Q⦄ (env : ClusterEnvironment Q L Store)
    (thr : ClusterThrottle Q L) (ns_map : GoMap String Namespace) where
  -- The throttle's selector takes the pod in its namespace, and the target scheduler has placed it
  -- on a node.
  abbrev pub concerns : Pod Q → Bool
  concerns pod =
      should_count_in env pod
      && said_yes
          (cluster_matches_to_pod env.as_selector thr.spec.selector pod (get pod.namespace ns_map))

  -- a round that does not fail
  sort_pods-step :
      (pod : Pod Q) (pods : List (Pod Q)) (s r : List (Pod Q) × List (Pod Q))
      → sort_pods env thr ns_map (pod ∷ pods) s ≡ ok r
      → sort_pods env thr ns_map pods (
          if concerns pod
          then (if is_not_finished pod then (s.0 ++ pod ∷ [], s.1) else (s.0, s.1 ++ pod ∷ []))
          else s)
        ≡ ok r
  unfolding sort_pods
  sort_pods-step pod pods s r h = ground arith

  abbrev pub after : List (Pod Q) → List (Pod Q) × List (Pod Q) → List (Pod Q) × List (Pod Q)
  after pods s = (
    s.0 ++ select (λ p. concerns p && is_not_finished p) pods,
    s.1 ++ select (λ p. concerns p && not (is_not_finished p)) pods,
  )

  after-step :
      (pod : Pod Q) (pods : List (Pod Q)) (s : List (Pod Q) × List (Pod Q))
      → after pods (
          if concerns pod
          then (if is_not_finished pod then (s.0 ++ pod ∷ [], s.1) else (s.0, s.1 ++ pod ∷ []))
          else s)
        ≡ after (pod ∷ pods) s
  unfolding select
  after-step pod pods s = go (concerns pod) (is_not_finished pod)
    where
      go :
          (c r : Bool)
          → after pods
              (if c then (if r then (s.0 ++ pod ∷ [], s.1) else (s.0, s.1 ++ pod ∷ [])) else s)
            ≡ (
              s.0
                  ++ (if c && r
                      then pod ∷ select (λ p. concerns p && is_not_finished p) pods
                      else select (λ p. concerns p && is_not_finished p) pods),
              s.1
                  ++ (if c && not r
                      then pod ∷ select (λ p. concerns p && not (is_not_finished p)) pods
                      else select (λ p. concerns p && not (is_not_finished p)) pods),
            )
      go true true =
          ap (λ l. (l, s.1 ++ select (λ p. concerns p && not (is_not_finished p)) pods))
            (append_assoc s.0 (pod ∷ []) _)
      go true false =
          ap (λ l. (s.0 ++ select (λ p. concerns p && is_not_finished p) pods, l))
            (append_assoc s.1 (pod ∷ []) _)
      go false r = refl

  cluster_sort_pods_lem :
      (pods : List (Pod Q)) (s r : List (Pod Q) × List (Pod Q))
      → sort_pods env thr ns_map pods s ≡ ok r
      → r ≡ after pods s
  cluster_sort_pods_lem [] s r h =
      unfold sort_pods select in sym (ok-injective h) ∙ rw (append-nil s.0, append-nil s.1) refl
  cluster_sort_pods_lem (pod ∷ pods) s r h =
      cluster_sort_pods_lem pods _ r (sort_pods-step pod pods s r h) ∙ after-step pod pods s

module _ {Q L Store : Type 0} ⦃q : Quantity Q⦄ (env : ClusterEnvironment Q L Store)
    (thr : ClusterThrottle Q L) where
  -- The namespaces that the throttle's selector takes.
  abbrev pub taken : List Namespace → List Namespace
  taken = select λ ns. said_yes (matches_to_namespace env.as_selector thr.spec.selector (some ns))

  abbrev pub or_no_pods : Result (List (Pod Q)) → List (Pod Q)
  or_no_pods (ok pods) = pods
  or_no_pods (err e) = []

  -- The pods of a namespace, as the lister gives them.
  abbrev pub pods_in : Namespace → List (Pod Q)
  pods_in ns = or_no_pods (env.list_pods ns.name)

  -- The pods of a row of namespaces, one namespace after the other.
  abbrev pub all_pods : List Namespace → List (Pod Q)
  all_pods [] = []
  all_pods (ns ∷ nss) = pods_in ns ++ all_pods nss

  -- The namespaces of a row by their names, the last of a name if there are several.
  abbrev pub by_name : List Namespace → GoMap String Namespace → GoMap String Namespace
  by_name [] m = m
  by_name (ns ∷ nss) m = by_name nss (put ns.name ns m)

  -- The namespaces of a row that are taken, and their pods, on top of what has been found.
  abbrev found_after : List Namespace → Found Q → Found Q
  found_after nss f = record {
    pods = f.pods ++ all_pods (taken nss);
    ns_map = by_name (taken nss) f.ns_map;
  }

  find_pods_lem :
      (nss : List Namespace) (f f' : Found Q)
      → find_pods env thr nss f ≡ ok f'
      → f' ≡ found_after nss f
  unfolding find_pods select
  find_pods_lem [] f f' h =
      sym (ok-injective h) ∙ ap (λ ps. record f { pods = ps }) (sym (append-nil f.pods))
  find_pods_lem (ns ∷ nss) f f' h =
      elim (Result-cases (matches_to_namespace env.as_selector thr.spec.selector (some ns))) [
        | inr (e, failed) ↦ absurd (ground (arith, failed, h))
        | inl (false, no') ↦
            find_pods_lem nss f f' (sym (rw (no', find_pods) refl) ∙ h) ∙ rw (no') refl
        | inl (true, yes') ↦ elim (Result-cases (env.list_pods ns.name)) [
          | inr (e, failed) ↦ absurd (ground (arith, yes', failed, h))
          | inl (pods, listed) ↦
              find_pods_lem nss (record { pods = f.pods ++ pods; ns_map = put ns.name ns f.ns_map })
                f' (sym (rw (yes', listed, find_pods) refl) ∙ h)
              ∙ rw (yes') (
                  ap
                    (λ ps. record {
                      pods = ps;
                      ns_map = by_name (taken nss) (put ns.name ns f.ns_map);
                    })
                    (append_assoc f.pods pods (all_pods (taken nss))
                      ∙ ap (λ r. f.pods ++ (or_no_pods r ++ all_pods (taken nss))) (sym listed)))
        ]
      ]

-- If the namespaces are listed and `affectedPods` of a cluster throttle returns, then its first list
-- is those pods in the namespaces that the throttle's selector takes which concern the throttle and
-- have not finished, and its second list is those which concern it and have finished: namespace by
-- namespace, each in the order in which they are listed.
pub cluster_affected_pods_lem :
    {Q L Store : Type 0} ⦃q : Quantity Q⦄ (env : ClusterEnvironment Q L Store)
    (thr : ClusterThrottle Q L) (nss : List Namespace) (running terminated : List (Pod Q))
    → env.list_namespaces ≡ ok nss
    → affected_pods env thr ≡ ok (running, terminated)
    → let ns_map = by_name env thr (taken env thr nss) [] in
      let pods = all_pods env thr (taken env thr nss) in
      (running ≡ select (λ p. concerns env thr ns_map p && is_not_finished p) pods)
      × (terminated ≡ select (λ p. concerns env thr ns_map p && not (is_not_finished p)) pods)
unfolding affected_pods
cluster_affected_pods_lem {Q} env thr nss running terminated listed h =
    elim (Result-cases (find_pods env thr nss (record { pods = []; ns_map = [] }))) [
      | inr (e, failed) ↦ absurd (ground (arith, listed, failed, h))
      | inl (f, found) ↦
          let where_ : f ≡ found_after env thr nss (record { pods = []; ns_map = [] }) =
            find_pods_lem env thr nss (record { pods = []; ns_map = [] }) f found in
          let shape : affected_pods env thr ≡ sort_pods env thr f.ns_map f.pods ([], []) =
            rw (listed, ◌>>=◌, found) refl in
          let same =
            cluster_sort_pods_lem env thr f.ns_map f.pods ([], []) (running, terminated)
              (sym shape ∙ h) in
          (
            ap (λ (r : List (Pod Q) × List (Pod Q)). r.0) same
                ∙ ap
                    (λ (g : Found Q).
                      select (λ p. concerns env thr g.ns_map p && is_not_finished p) g.pods)
                    where_,
            ap (λ (r : List (Pod Q) × List (Pod Q)). r.1) same
                ∙ ap
                    (λ (g : Found Q).
                      select (λ p. concerns env thr g.ns_map p && not (is_not_finished p)) g.pods)
                    where_,
          )
    ]
