-- ===== src/ResourceList/PodRequest.antt =====
-- What `PodRequestResourceList` of resourcelist.go gives for each name.
use kube_throttler.Prelude.{
  string_eq, String, ◌≡◌, refl, Option, none, some, List, [], ◌∷◌, ◌∙◌, sym,
}
use kube_throttler.Prelude.Int.{ℤ, ◌+ℤ◌}
use mathlib.Core.Path.{ap₂}
use kube_throttler.Prelude.GoMap.{get, IsMap}
use kube_throttler.Prelude.Lists.{All, for_each}
use kube_throttler.Quantity.{Quantity}
use kube_throttler.Pod.{Pod, Container, ResourceList}
use kube_throttler.ResourceList.{add, set_max, pod_request_resource_list}
use kube_throttler.ResourceList.Entries.{
  join, join-none, max_ℤ, amount_of, get-add, get-set_max, add-IsMap, set_max-IsMap,
}

module _ {Q : Type 0} ⦃q : Quantity Q⦄ where
  -- The maps of a pod are maps.
  pub record IsPod (pod : Pod Q) : Type 0 where
    pub inits : All (λ c. IsMap c.requests) pod.init_containers
    pub mains : All (λ c. IsMap c.requests) pod.containers
    pub extra : (m : ResourceList Q) → pod.overhead ≡ some m → IsMap m

  -- Folding the requests of a row of containers for one name.
  abbrev pub fold_requests : (ℤ → ℤ → ℤ) → String → Option ℤ → List (Container Q) → Option ℤ
  fold_requests f name o [] = o
  fold_requests f name o (c ∷ cs) = fold_requests f name (join f o (amount_of name c.requests)) cs

  abbrev pub overhead_of : String → Option (ResourceList Q) → Option ℤ
  overhead_of name none = none
  overhead_of name (some m) = amount_of name m

  -- What a pod requests of a name, or nothing.
  abbrev pub requested : String → Pod Q → Option ℤ
  requested name pod =
      join ◌+ℤ◌
        (join max_ℤ (fold_requests ◌+ℤ◌ name none pod.containers)
          (fold_requests max_ℤ name none pod.init_containers))
        (overhead_of name pod.overhead)

  sum_loop :
      (cs : List (Container Q)) (m : ResourceList Q) (name : String)
      → All (λ c. IsMap c.requests) cs
      → amount_of name (for_each cs m (λ c s. add s c.requests))
        ≡ fold_requests ◌+ℤ◌ name (amount_of name m) cs
  unfolding for_each
  sum_loop [] m name h = refl
  sum_loop (c ∷ cs) m name h =
      sum_loop cs (add m c.requests) name h.1 ∙ rw (get-add m c.requests name h.0) refl

  max_loop :
      (cs : List (Container Q)) (m : ResourceList Q) (name : String)
      → All (λ c. IsMap c.requests) cs
      → amount_of name (for_each cs m (λ c s. set_max s c.requests))
        ≡ fold_requests max_ℤ name (amount_of name m) cs
  unfolding for_each
  max_loop [] m name h = refl
  max_loop (c ∷ cs) m name h =
      max_loop cs (set_max m c.requests) name h.1 ∙ rw (get-set_max m c.requests name h.0) refl

  sum_loop-IsMap :
      (cs : List (Container Q)) (m : ResourceList Q)
      → IsMap m
      → IsMap (for_each cs m (λ c s. add s c.requests))
  unfolding for_each
  sum_loop-IsMap [] m h = h
  sum_loop-IsMap (c ∷ cs) m h = sum_loop-IsMap cs (add m c.requests) (add-IsMap m c.requests h)

  max_loop-IsMap :
      (cs : List (Container Q)) (m : ResourceList Q)
      → IsMap m
      → IsMap (for_each cs m (λ c s. set_max s c.requests))
  unfolding for_each
  max_loop-IsMap [] m h = h
  max_loop-IsMap (c ∷ cs) m h =
      max_loop-IsMap cs (set_max m c.requests) (set_max-IsMap m c.requests h)

  -- the sum over the containers, raised to the maximum over the init containers
  abbrev without_overhead : Pod Q → ResourceList Q
  without_overhead pod =
      set_max (for_each pod.containers [] (λ c m. add m c.requests))
        (for_each pod.init_containers [] (λ c m. set_max m c.requests))

  without_overhead-IsMap : (pod : Pod Q) → IsMap (without_overhead pod)
  without_overhead-IsMap pod = set_max-IsMap _ _ (sum_loop-IsMap pod.containers [] tt)

  amount_of-without_overhead :
      (pod : Pod Q) (name : String)
      → IsPod pod
      → amount_of name (without_overhead pod)
        ≡ join max_ℤ
            (fold_requests ◌+ℤ◌ name none pod.containers)
            (fold_requests max_ℤ name none pod.init_containers)
  unfolding get
  amount_of-without_overhead pod name h =
      get-set_max _ _ name (max_loop-IsMap pod.init_containers [] tt)
      ∙ ap₂ (join max_ℤ) (sum_loop pod.containers [] name h.mains)
          (max_loop pod.init_containers [] name h.inits)

  pub pod_request-IsMap : (pod : Pod Q) → IsMap (pod_request_resource_list pod)
  unfolding pod_request_resource_list
  pod_request-IsMap pod =
      elim pod.overhead
        as (λ o.
          IsMap (elim o [ none ↦ without_overhead pod | some m ↦ add (without_overhead pod) m ])) [
            | none ↦ without_overhead-IsMap pod
            | some m ↦ add-IsMap _ m (without_overhead-IsMap pod)
          ]

  -- For every name, a pod requests the larger of the containers' sum and the init containers'
  -- maximum, plus the overhead; and no more names than these. The maps of the pod are maps.
  pub amount_of-pod_request :
      (pod : Pod Q) (name : String)
      → IsPod pod
      → amount_of name (pod_request_resource_list pod) ≡ requested name pod
  unfolding pod_request_resource_list
  amount_of-pod_request pod name h = go pod.overhead refl
    where
      go :
          (o : Option (ResourceList Q))
          → pod.overhead ≡ o
          → amount_of name
              (elim o [ none ↦ without_overhead pod | some m ↦ add (without_overhead pod) m ])
            ≡ join ◌+ℤ◌
                (join max_ℤ
                  (fold_requests ◌+ℤ◌ name none pod.containers)
                  (fold_requests max_ℤ name none pod.init_containers))
                (overhead_of name o)
      go none e = amount_of-without_overhead pod name h ∙ sym (join-none ◌+ℤ◌ _)
      go (some m) e =
          get-add (without_overhead pod) m name (h.extra m e)
          ∙ rw (amount_of-without_overhead pod name h) refl
