-- ===== src/ApiGroup.antt =====
-- pkg/apis/schedule/register.go and register.go of pkg/apis/schedule/v1alpha1: the group of the
-- custom resources, and the types registered with it.
use kube_throttler.Prelude.{String, List, [], ◌∷◌, ◌++◌}
use kube_throttler.Errors.{Result, ok}

-- `schema.GroupVersion`, `schema.GroupKind` and `schema.GroupResource`
pub record GroupVersion : Type 0 where
  pub group : String
  pub version : String

pub record GroupKind : Type 0 where
  pub group : String
  pub kind : String

pub record GroupResource : Type 0 where
  pub group : String
  pub resource : String

abbrev pub group_name : String
group_name = "schedule.k8s.everpeace.github.com"

abbrev pub scheme_group_version : GroupVersion
scheme_group_version = record { group = group_name; version = "v1alpha1" }

-- `Kind` and `Resource`
unfoldable pub kind : String → GroupKind
kind k = record { group = scheme_group_version.group; kind = k }

unfoldable pub resource : String → GroupResource
resource r = record { group = scheme_group_version.group; resource = r }

-- `addKnownTypes`. A scheme is what it has registered; `add_to_group_version` is `metav1`'s.
abbrev pub Scheme : Type 0
Scheme = List (GroupVersion × String)

unfoldable pub add_known_types :
    (Scheme → GroupVersion → Scheme) → Scheme → Result (Unit {0}) × Scheme
add_known_types add_to_group_version scheme = (
  ok tt,
  add_to_group_version
      (scheme
        ++ (scheme_group_version, "ClusterThrottle")
          ∷ (scheme_group_version, "ClusterThrottleList")
          ∷ (scheme_group_version, "Throttle")
          ∷ (scheme_group_version, "ThrottleList")
          ∷ [])
      scheme_group_version,
)
