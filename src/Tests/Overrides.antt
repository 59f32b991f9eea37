-- ===== src/Tests/Overrides.antt =====
-- Theorems on temporary overrides, applied.
use kube_throttler.Prelude.{string_eq, ◌≡◌, refl, true, none, some, [], ◌∷◌, ◌↔◌, arith}
use kube_throttler.Prelude.Int.{ℤ, pos, ◌+ℤ◌, ◌-ℤ◌}
use kube_throttler.Prelude.GoMap.{get}
use kube_throttler.Errors.{ok}
use kube_throttler.Throttle.{Time, ThrottleSpecBase, TemporaryThresholdOverride}
use kube_throttler.NamespacedName.{nn_eq}
use kube_throttler.ThrottleSpec.{
  is_active, begin_time, end_time, calculate_threshold, next_override_happens_in, merge_requests,
}
use kube_throttler.ThrottleSpec.Active.{InTerm, is_active_iff, end_instant_missed}
use kube_throttler.ThrottleSpec.Merge.{
  actives, unreadable, first_count_of, first_request_of, calculate_threshold-none,
  calculate_threshold-merged,
}
use kube_throttler.ThrottleSpec.Wakeup.{threshold_steady}
use kube_throttler.Tests.{ints, limit, spec, env}

-- an override from 100 to 200 that allows one pod
abbrev override : TemporaryThresholdOverride ℤ
override = record {
  begin = "begin";
  end = "end";
  threshold = record { resource_counts = some (record { pod = pos 1 }); resource_requests = [] };
}

abbrev overridden : ThrottleSpecBase ℤ
overridden = record spec { temporary_threshold_overrides = override ∷ [] }

active_at_150 : actives env.parse (pos 150) (override ∷ []) ≡ override ∷ []
unfolding is_active begin_time end_time
active_at_150 = refl

calculate_threshold-merged_example :
    ((calculate_threshold env.parse overridden (pos 150)).threshold.resource_counts
      ≡ first_count_of (actives env.parse (pos 150) (override ∷ [])))
    × (get "cpu" (calculate_threshold env.parse overridden (pos 150)).threshold.resource_requests
        ≡ first_request_of "cpu" (actives env.parse (pos 150) (override ∷ [])))
    × ((calculate_threshold env.parse overridden (pos 150)).messages
        ≡ unreadable env.parse (pos 150) 0 (override ∷ []))
calculate_threshold-merged_example =
    calculate_threshold-merged env.parse (pos 150) overridden "cpu" (tt, tt)
      (λ e. absurd (cc (active_at_150)))

inactive_at_50 : actives env.parse (pos 50) (override ∷ []) ≡ []
unfolding is_active begin_time end_time
inactive_at_50 = refl

calculate_threshold-none_example :
    ((calculate_threshold env.parse overridden (pos 50)).threshold ≡ limit)
    × ((calculate_threshold env.parse overridden (pos 50)).messages
        ≡ unreadable env.parse (pos 50) 0 (override ∷ []))
calculate_threshold-none_example =
    calculate_threshold-none env.parse (pos 50) overridden (tt, tt) inactive_at_50

is_active_iff_example : (is_active env.parse override (pos 150) ≡ ok true) ↔ (
    (b e : Time) × (begin_time env.parse override ≡ ok b)
    × (end_time env.parse override ≡ ok e)
    × InTerm b e (pos 150))
is_active_iff_example = is_active_iff env.parse override (pos 150)

end_instant_missed_example :
    (next_override_happens_in env.parse overridden (pos 200) ≡ ok none)
    × ((calculate_threshold env.parse overridden (pos 200)).threshold ≡ record {
      resource_counts = some (record { pod = pos 1 });
      resource_requests = merge_requests {Q = ℤ} [] [];
    })
    × ((calculate_threshold env.parse overridden (pos 201)).threshold ≡ limit)
unfolding begin_time end_time
end_instant_missed_example =
    end_instant_missed env.parse overridden override (pos 100) (pos 200) (pos 201) refl refl refl
      (omega arith) (omega arith) (omega arith)

next_at_150 : next_override_happens_in env.parse overridden (pos 150) ≡ ok (some (pos 50))
unfolding next_override_happens_in ◌-ℤ◌
next_at_150 = refl

no_end : (e : Time) → end_time env.parse override ≡ ok e → ¬ (e ≡ pos 150)
unfolding end_time
no_end e h f = absurd (ground arith)

threshold_steady_example :
    ((calculate_threshold env.parse overridden (pos 199)).threshold
      ≡ (calculate_threshold env.parse overridden (pos 150)).threshold)
    × ((calculate_threshold env.parse overridden (pos 199)).messages
        ≡ (calculate_threshold env.parse overridden (pos 150)).messages)
unfolding ◌+ℤ◌
threshold_steady_example =
    threshold_steady env.parse overridden (pos 150) (pos 199) (some (pos 50)) next_at_150
      (omega arith) (omega arith) (no_end, tt)
