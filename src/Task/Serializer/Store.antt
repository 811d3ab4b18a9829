-- ===== src/Task/Serializer/Store.antt =====
-- Reading a serializer after a write.
use first_server.Common.{
  ℕ, ◌≡◌, refl, Option, some, arith, get_elem?, get_elem?-set_self, get_elem?-set_ne,
}
use first_server.Lockfree.{LockfreeQueue}
use first_server.Task.Fault.{ok}
use first_server.Task.Serializer.{Task, World, TaskSerializer, deref, store}

module _ (Tasks : LockfreeQueue Task) (Serializers : LockfreeQueue ℕ) where
  pub deref-found :
      (i : ℕ) (w : World Tasks Serializers) (s : TaskSerializer Tasks Serializers)
      → deref Tasks Serializers i w ≡ ok s
      → get_elem? w.serializers i ≡ some (some s)
  unfolding deref
  deref-found i w s e = ground arith

  pub deref-store_self :
      (i : ℕ) (w : World Tasks Serializers) (s s' : TaskSerializer Tasks Serializers)
      → deref Tasks Serializers i w ≡ ok s
      → deref Tasks Serializers i (store Tasks Serializers i (some s') w) ≡ ok s'
  unfolding deref store
  deref-store_self i w s s' e =
      ground (arith, get_elem?-set_self w.serializers i (some s') (deref-found i w s e))

  pub deref-store_ne :
      (i j : ℕ) (w : World Tasks Serializers) (s : Option (TaskSerializer Tasks Serializers))
      → (i ≡ j → ⊥)
      → deref Tasks Serializers j (store Tasks Serializers i s w) ≡ deref Tasks Serializers j w
  unfolding deref store
  deref-store_ne i j w s h = ground (arith, get_elem?-set_ne w.serializers i j s h)

  pub store_current :
      (i : ℕ) (s : Option (TaskSerializer Tasks Serializers)) (w : World Tasks Serializers)
      → (store Tasks Serializers i s w).process_current ≡ w.process_current
  unfolding store
  store_current i s w = refl

  pub store_push :
      (i : ℕ) (s : Option (TaskSerializer Tasks Serializers)) (w : World Tasks Serializers)
      → (store Tasks Serializers i s w).push_current ≡ w.push_current
  unfolding store
  store_push i s w = refl
