-- ===== src/NamespacedName.antt =====
-- `types.NamespacedName`, the key of throttles and pods. Its text form is not formed: sets of
-- such texts are sets of names.
use kube_throttler.Prelude.{string_eq, Eq, ◌==◌, String, Bool, true, ◌&&◌, ◌≡◌, ◌↔◌, arith}
use kube_throttler.Pod.{Pod}

pub record NamespacedName : Type 0 where
  pub namespace : String
  pub name : String

abbrev pub beq_nn : NamespacedName → NamespacedName → Bool
beq_nn a b = (a.namespace == b.namespace) && (a.name == b.name)

pub beq_nn_iff : (a b : NamespacedName) → (beq_nn a b ≡ true) ↔ (a ≡ b)
beq_nn_iff a b =
    ground (arith, string_eq.beq_iff a.namespace b.namespace, string_eq.beq_iff a.name b.name)

instance abbrev pub nn_eq : Eq NamespacedName
nn_eq = record { beq = beq_nn; beq_iff = beq_nn_iff }

abbrev pub nn_of_pod : {Q : Type 0} → Pod Q → NamespacedName
nn_of_pod pod = record { namespace = pod.namespace; name = pod.name }
