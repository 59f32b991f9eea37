-- ===== src/Metrics/Series.antt =====
-- What the methods of metrics_recorder.go leave in a vector of gauges.
use kube_throttler.Prelude.{
  string_eq, ◌==◌, String, ◌≡◌, ◌≢◌, refl, ◌∙◌, subst, Bool, Option, none, some, [], ◌∷◌, arith,
  Bool-cases, inl, inr, eq_of_beq,
}
use kube_throttler.Prelude.Int.{ℤ, pos}
use kube_throttler.Prelude.GoMap.{GoMap, get, for_range, IsMap}
use kube_throttler.Pod.{ResourceList}
use kube_throttler.ResourceAmount.{ResourceCounts, IsResourceCountThrottled}
use kube_throttler.Metrics.{
  Labels, Prometheus, reading, flag, record_resource_counts, record_resource_requests,
  record_is_resource_count_throttled, record_is_resource_requests_throttled,
}

-- What a series shows once a map has been recorded: the number for the map's entry, or, where there
-- is none, what it showed before.
abbrev pub shown : {V F : Type 0} → (V → F) → Option V → Option F → Option F
shown f (some v) old = some (f v)
shown f none old = old

-- The number of pods, where no count is none.
abbrev pub pods_or_zero : Option ResourceCounts → ℤ
pods_or_zero none = pos 0
pods_or_zero (some rc) = rc.pod

module _ {G F Q : Type 0} (p : Prometheus G F Q) (labels : Labels) where
  -- A loop that sets the series of each key.
  read-for_range :
      {V : Type 0} (f : String → V → F) (m : GoMap String V) (g : G) (resource : String)
      → IsMap m
      → p.read (for_range m g (λ r v g'. p.set g' labels r (f r v))) labels resource
        ≡ shown (f resource) (get resource m) (p.read g labels resource)
  unfolding for_range get
  read-for_range f [] g resource d = refl
  read-for_range f ((k, v) ∷ m) g resource d = elim (Bool-cases (k == resource)) [
    | inl same ↦
        read-for_range f m (p.set g labels k (f k v)) resource d.1
        ∙ rw (same, subst (λ j. get j m ≡ none) (eq_of_beq k resource same) d.0)
            (subst (λ j. p.read (p.set g labels k (f k v)) labels j ≡ some (f j v))
              (eq_of_beq k resource same) (p.read-set g labels k (f k v)))
    | inr other ↦
        read-for_range f m (p.set g labels k (f k v)) resource d.1
        ∙ rw
            (
              other,
              p.read-set_other g labels labels k resource (f k v)
                  (inr λ e. absurd (ground (arith, other, (string_eq.beq_iff k resource).1 e))),
            )
            refl
  ]

  -- Series of other labels stay as they are.
  read-for_range_other :
      {V : Type 0} (f : String → V → F) (m : GoMap String V) (g : G) (labels' : Labels)
      (resource : String)
      → labels ≢ labels'
      → p.read (for_range m g (λ r v g'. p.set g' labels r (f r v))) labels' resource
        ≡ p.read g labels' resource
  unfolding for_range
  read-for_range_other f [] g labels' resource ne = refl
  read-for_range_other f ((k, v) ∷ m) g labels' resource ne =
      read-for_range_other f m (p.set g labels k (f k v)) labels' resource ne
      ∙ p.read-set_other g labels labels' k resource (f k v) (inl ne)

  pub read-counts :
      (g : G) (rc : Option ResourceCounts)
      → p.read (record_resource_counts p g labels rc) labels "pod"
        ≡ some (p.float64_of (pods_or_zero rc))
  unfolding record_resource_counts
  read-counts g none = p.read-set g labels "pod" _
  read-counts g (some rc) = p.read-set g labels "pod" _

  pub read-counts_other :
      (g : G) (rc : Option ResourceCounts) (labels' : Labels) (resource : String)
      → labels ≢ labels'
      → p.read (record_resource_counts p g labels rc) labels' resource ≡ p.read g labels' resource
  unfolding record_resource_counts
  read-counts_other g none labels' resource ne =
      p.read-set_other g labels labels' _ resource _ (inl ne)
  read-counts_other g (some rc) labels' resource ne =
      p.read-set_other g labels labels' _ resource _ (inl ne)

  -- The series of a resource shows the recorded amount, a CPU in thousandths, and that of a resource
  -- which the recorded list does not name shows what it showed before, if the list is a map.
  pub read-requests :
      (g : G) (rr : ResourceList Q) (resource : String)
      → IsMap rr
      → p.read (record_resource_requests p g labels rr) labels resource
        ≡ shown (reading p resource) (get resource rr) (p.read g labels resource)
  unfolding record_resource_requests
  read-requests g rr resource = read-for_range (reading p) rr g resource

  pub read-requests_other :
      (g : G) (rr : ResourceList Q) (labels' : Labels) (resource : String)
      → labels ≢ labels'
      → p.read (record_resource_requests p g labels rr) labels' resource ≡ p.read g labels' resource
  unfolding record_resource_requests
  read-requests_other g rr labels' resource = read-for_range_other (reading p) rr g labels' resource

  pub read-throttled_count :
      (g : G) (rc : IsResourceCountThrottled)
      → p.read (record_is_resource_count_throttled p g labels rc) labels "pod"
        ≡ some (flag p rc.pod)
  unfolding record_is_resource_count_throttled
  read-throttled_count g rc = p.read-set g labels "pod" _

  pub read-throttled_count_other :
      (g : G) (rc : IsResourceCountThrottled) (labels' : Labels) (resource : String)
      → labels ≢ labels'
      → p.read (record_is_resource_count_throttled p g labels rc) labels' resource
        ≡ p.read g labels' resource
  unfolding record_is_resource_count_throttled
  read-throttled_count_other g rc labels' resource ne =
      p.read-set_other g labels labels' _ resource _ (inl ne)

  pub read-throttled_requests :
      (g : G) (rr : GoMap String Bool) (resource : String)
      → IsMap rr
      → p.read (record_is_resource_requests_throttled p g labels rr) labels resource
        ≡ shown (flag p) (get resource rr) (p.read g labels resource)
  unfolding record_is_resource_requests_throttled
  read-throttled_requests g rr resource = read-for_range (λ _ b. flag p b) rr g resource

  pub read-throttled_requests_other :
      (g : G) (rr : GoMap String Bool) (labels' : Labels) (resource : String)
      → labels ≢ labels'
      → p.read (record_is_resource_requests_throttled p g labels rr) labels' resource
        ≡ p.read g labels' resource
  unfolding record_is_resource_requests_throttled
  read-throttled_requests_other g rr labels' resource =
      read-for_range_other (λ _ b. flag p b) rr g labels' resource
