-- ===== src/Controller/Queue.antt =====
-- What a row of calls of `enqueue` of controller.go adds to the work queue.
use kube_throttler.Prelude.{
  ◌==◌, String, ◌≡◌, refl, sym, ◌∙◌, ap, subst, true, List, [], ◌∷◌, ◌++◌, map, Bool-cases, inl,
  inr, eq_of_beq,
}
use mathlib.Core.List.{append_assoc, append-nil}
use kube_throttler.Prelude.GoMap.{GoMap, get, has, for_range}
use kube_throttler.Prelude.Lists.{All, for_each, In, In-append_left, In-append_right}
use kube_throttler.Errors.{Result, ok, Result-cases}
use kube_throttler.NamespacedName.{NamespacedName, nn_eq}
use kube_throttler.Controller.{Enqueued, object, explicit, QueueCall, add, Log, enqueue, call}

-- The calls that add the keys of a row of objects.
abbrev pub adds :
    {A : Type 0} → (NamespacedName → String) → (A → NamespacedName) → List A → List QueueCall
adds key_for name_of xs = map (λ x. add (key_for (name_of x))) xs

module _ (key_of : Enqueued → Result String) (key_for : NamespacedName → String) where
  enqueue-queue :
      (obj : Enqueued) (k : String) (l : Log)
      → key_of obj ≡ ok k
      → enqueue key_of obj l ≡ call (add k) l
  unfolding enqueue
  enqueue-queue obj k l e = rw (e, enqueue) refl

  -- Enqueuing the objects of a row adds their keys in order, and handles no error.
  pub enqueue-for_each :
      {A : Type 0} (name_of : A → NamespacedName) (xs : List A) (l : Log)
      → All (λ x. key_of (object (name_of x)) ≡ ok (key_for (name_of x))) xs
      → for_each xs l (λ x m. enqueue key_of (object (name_of x)) m)
        ≡ record l { queue = l.queue ++ adds key_for name_of xs }
  unfolding for_each
  enqueue-for_each name_of [] l e = ap (λ q. record l { queue = q }) (sym (append-nil l.queue))
  enqueue-for_each name_of (x ∷ xs) l e =
      ap (λ m. for_each xs m (λ x m. enqueue key_of (object (name_of x)) m))
        (enqueue-queue (object (name_of x)) (key_for (name_of x)) l e.0)
      ∙ enqueue-for_each name_of xs (call (add (key_for (name_of x))) l) e.1
      ∙ ap (λ q. record l { queue = q })
          (append_assoc l.queue (add (key_for (name_of x)) ∷ []) (adds key_for name_of xs))

module _ (key_of : Enqueued → Result String) (c : QueueCall) where
  -- What is in the queue stays there.
  enqueue-In : (obj : Enqueued) (l : Log) → In c l.queue → In c (enqueue key_of obj l).queue
  unfolding enqueue
  enqueue-In obj l h = elim (Result-cases (key_of obj)) [
    | inl (k, found) ↦ rw (found, enqueue) (In-append_left c l.queue (add k ∷ []) h)
    | inr (e, failed) ↦ rw (failed, enqueue) h
  ]

  for_range-In :
      {V : Type 0} (names : GoMap NamespacedName V) (l : Log)
      → In c l.queue
      → In c (for_range names l (λ nn _ m. enqueue key_of (explicit nn) m)).queue
  unfolding for_range
  for_range-In [] l h = h
  for_range-In ((k, v) ∷ names) l h =
      for_range-In names (enqueue key_of (explicit k) l) (enqueue-In (explicit k) l h)

-- When the names of a set are enqueued, the key of each of them that has one is in the queue.
pub has-enqueued :
    {V : Type 0} (key_of : Enqueued → Result String) (names : GoMap NamespacedName V)
    (nn : NamespacedName) (key : String) (l : Log)
    → key_of (explicit nn) ≡ ok key
    → has nn names ≡ true
    → In (add key) (for_range names l (λ nn _ m. enqueue key_of (explicit nn) m)).queue
unfolding get for_range
has-enqueued key_of [] nn key l e h = absurd (cc)
has-enqueued key_of ((k, v) ∷ names) nn key l e h = elim (Bool-cases (k == nn)) [
  | inl same ↦
      let here : enqueue key_of (explicit k) l ≡ call (add key) l =
        enqueue-queue key_of (λ n. key) (explicit k) key l
          (ap (λ n. key_of (explicit n)) (eq_of_beq k nn same) ∙ e) in
      for_range-In key_of (add key) names (enqueue key_of (explicit k) l) (
        subst (λ (m : Log). In (add key) m.queue) (sym here)
          (In-append_right (add key) l.queue (add key ∷ []) (inl refl)))
  | inr other ↦
      has-enqueued key_of names nn key (enqueue key_of (explicit k) l) e (sym (rw (other) refl) ∙ h)
]
