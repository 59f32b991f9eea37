-- ===== src/Tests/Gauges.antt =====
-- Gauges in memory, and the theorems on metrics applied to them.
use kube_throttler.Prelude.{
  string_eq, ◌==◌, ◌≡◌, ◌≢◌, ◌⊎◌, refl, String, Bool, true, false, Option, none, some, [], ◌∷◌, ◌*◌,
  ◌-◌, suc, if◌then◌else◌, ◌&&◌, arith, eq_self, Bool-cases, inl, inr,
}
use kube_throttler.Prelude.Int.{ℤ, pos, negsuc}
use kube_throttler.Metrics.{
  Labels, Prometheus, ThrottleMetricsRecorder, record_throttle_metrics,
  new_throttle_metrics_recorder,
}
use kube_throttler.Tests.{ints, thr}

abbrev same_labels : Labels → Labels → Bool
same_labels [] [] = true
same_labels ((n, v) ∷ l) ((n', v') ∷ l') =
    let rest = same_labels l l' in (n == n') && ((v == v') && rest)
same_labels _ _ = false

same_labels_self : (l : Labels) → same_labels l l ≡ true
same_labels_self [] = refl
same_labels_self ((n, v) ∷ l) = ground (arith, eq_self n, eq_self v, same_labels_self l)

same_labels_eq : (l l' : Labels) → same_labels l l' ≡ true → l ≡ l'
same_labels_eq [] [] h = refl
same_labels_eq [] (x ∷ l') h = absurd (cc)
same_labels_eq (x ∷ l) [] h = absurd (cc)
same_labels_eq ((n, v) ∷ l) ((n', v') ∷ l') h =
    let e : n ≡ n' = (string_eq.beq_iff n n').0 (ground arith) in
    let f : v ≡ v' = (string_eq.beq_iff v v').0 (ground arith) in
    let g : l ≡ l' = same_labels_eq l l' (ground arith) in cc

abbrev pub Memory : Type 0
Memory = Labels → String → Option ℤ

abbrev store_at : Memory → Labels → String → ℤ → Memory
store_at g labels resource x labels' resource' =
    if same_labels labels labels' && (resource == resource') then some x else g labels' resource'

pub store_at_self :
    (g : Memory) (labels : Labels) (resource : String) (x : ℤ)
    → store_at g labels resource x labels resource ≡ some x
store_at_self g labels resource x = ground (arith, same_labels_self labels, eq_self resource)

pub store_at_other :
    (g : Memory) (labels labels' : Labels) (resource resource' : String) (x : ℤ)
    → (labels ≢ labels') ⊎ (resource ≢ resource')
    → store_at g labels resource x labels' resource' ≡ g labels' resource'
store_at_other g labels labels' resource resource' x ne =
    elim (Bool-cases (same_labels labels labels' && (resource == resource'))) [
      | inr other ↦ ground (arith, other)
      | inl same ↦ elim ne [
        | inl l ↦ absurd (l (same_labels_eq labels labels' (ground arith)))
        | inr r ↦ absurd (r ((string_eq.beq_iff resource resource').0 (ground arith)))
      ]
    ]

abbrev thousandfold : ℤ → ℤ
thousandfold (pos n) = pos (1000 * n)
thousandfold (negsuc n) = negsuc (1000 * suc n - 1)

abbrev pub memory : Prometheus Memory ℤ ℤ
memory = record {
  new_gauge_vec = λ opts labels resource. none;
  set = store_at;
  read = λ g. g;
  float64_of = λ x. x;
  value = λ x. x;
  milli_value = thousandfold;
  read-set = store_at_self;
  read-set_other = store_at_other;
}

abbrev recorder : ThrottleMetricsRecorder Memory
recorder = (new_throttle_metrics_recorder memory []).0

abbrev recorded : ThrottleMetricsRecorder Memory
recorded = record_throttle_metrics memory thr recorder
