-- ===== src/CondVar/NotifyAll.antt =====
-- `notify_all` of src/comp/condition_variable.cpp, called by a coroutine that holds the lock.
use tiny_coro_lab.Prelude.{
  ℕ, suc, ◌≡◌, refl, sym, ◌∙◌, ◌≤◌, Bool, true, false, Option, List, [], ◌∷◌, ◌++◌, arith, count,
  length, append-nil, append_assoc, update, ◌==◌, eqb_refl, eqb_ne,
}
use tiny_coro_lab.Contexts.{Contexts}
use tiny_coro_lab.Waiters.{Chain, Chain-update}
use tiny_coro_lab.CondVar.{CondVar, wake_up, wake_list, notify_all}
use tiny_coro_lab.CondVar.Shape.{Listed}

module _ (C : Contexts) (cond : ℕ → C.World → Option Bool) where
  -- While the lock is held, a woken awaiter joins the queue of the mutex.
  queued : ℕ → CondVar C.World → CondVar C.World
  queued x m = record m {
    next = update m.next x m.mutex_head;
    mutex_head = x;
    mutex_queue = m.mutex_queue ++ x ∷ [];
  }

  wake-queued : (m : CondVar C.World) (x : ℕ) → m.locked ≡ true → wake_up C cond x m ≡ queued x m
  unfolding wake_up queued
  wake-queued m x e = rw e refl

  record Moved (m m2 : CondVar C.World) (xs : List ℕ) : Type 0 where
    queue : m2.mutex_queue ≡ m.mutex_queue ++ xs
    ends : (m2.head ≡ m.head) × (m2.tail ≡ m.tail) × (m2.resumed ≡ m.resumed)

  wake_list-Moved :
      (xs : List ℕ) (p : ℕ) (m : CondVar C.World)
      → m.locked ≡ true
      → Chain m.next p xs
      → ((j : ℕ) → count j xs ≤ 1)
      → Moved m (wake_list C cond (suc (length xs)) p m) xs
  unfolding wake_list queued
  wake_list-Moved [] p m held c once =
      let test : (p == 0) ≡ true = ground (arith, c) in
      rw test (record { queue = sym (append-nil m.mutex_queue); ends = (refl, refl, refl) })
  wake_list-Moved (x ∷ xs) p m held c once =
      let test : (p == 0) ≡ false = eqb_ne (λ z. omega (arith, c.0, c.1, z)) in
      let alone : count x xs ≡ 0 = ground (arith, once x, eqb_refl x) in
      let rest =
        wake_list-Moved xs (m.next x) (queued x m) held
          (Chain-update m.next (m.next x) x m.mutex_head xs alone c.2)
          (λ j. omega (arith, once j)) in
      rw (test, c.0, wake-queued m x held)
        (record { queue = rest.queue ∙ append_assoc m.mutex_queue (x ∷ []) xs; ends = rest.ends })

  -- Called with the lock held, `notify_all` empties the condition variable and passes all that wait on
  -- it to the queue of the mutex, in their order and behind those that are there; none runs before the
  -- lock is given up. One round for each, and one to see the end, are enough.
  pub notify_all-queue :
      (m : CondVar C.World) (xs : List ℕ)
      → Listed m xs
      → m.locked ≡ true
      → ((notify_all C cond (suc (length xs)) m).mutex_queue ≡ m.mutex_queue ++ xs)
        × Listed (notify_all C cond (suc (length xs)) m) []
        × ((notify_all C cond (suc (length xs)) m).resumed ≡ m.resumed)
  unfolding notify_all
  notify_all-queue m xs l held =
      let moved = wake_list-Moved xs m.head (record m { head = 0; tail = 0 }) held l.chain l.once in
      (
        moved.queue,
        record { chain = moved.ends.0; tail = moved.ends.1; once = λ j. omega arith },
        moved.ends.2,
      )
