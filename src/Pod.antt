-- ===== src/Pod.antt =====
-- The parts of a `corev1.Pod` that the program reads, and pkg/controllers/pod_util.go.
use kube_throttler.Prelude.{string_eq, String, Bool, Option, List, not, ◌&&◌, ◌==◌}
use kube_throttler.Prelude.GoMap.{GoMap}

-- A `corev1.ResourceList`, and the `ResourceList` of pkg/resourcelist, over the quantities `Q`.
abbrev pub ResourceList : Type 0 → Type 0
ResourceList Q = GoMap String Q

pub record Container (Q : Type 0) : Type 0 where
  pub requests : ResourceList Q

pub record Pod (Q : Type 0) : Type 0 where
  pub namespace : String
  pub name : String
  pub labels : GoMap String String
  pub scheduler_name : String
  pub node_name : String
  pub phase : String
  pub init_containers : List (Container Q)
  pub containers : List (Container Q)
  pub overhead : Option (ResourceList Q)

module _ {Q : Type 0} where
  unfoldable pub is_scheduled : Pod Q → Bool
  is_scheduled pod = not (pod.node_name == "")

  unfoldable pub is_not_finished : Pod Q → Bool
  is_not_finished pod = not (pod.phase == "Succeeded") && not (pod.phase == "Failed")
