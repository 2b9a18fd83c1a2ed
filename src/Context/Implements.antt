-- ===== src/Context/Implements.antt =====
-- The contexts of src/context.cpp offer what the synchronisation components use of them
-- (Contexts.antt).
use tiny_coro_lab.Prelude.{
  ℕ, ◌+◌, ◌-◌, ◌%◌, ◌≡◌, refl, List, [], ◌∷◌, ◌++◌, update, update_self, update_ne, eq_or_ne,
  eqb_refl, eqb_ne, ◌==◌, inl, inr, if◌then◌else◌,
}
use tiny_coro_lab.Contexts.{Contexts, size_mod}
use tiny_coro_lab.Engine
use tiny_coro_lab.Engine.{Platform, Program}
use tiny_coro_lab.Context.{Context, submit_task, register_wait, unregister_wait}

module _ (P : Platform) (G : Program) where
  abbrev pub tasks_of : Context P G → List ℕ
  tasks_of c = P.contents c.worker.engine.task_queue

  pub submitted : (h : ℕ) (c : Context P G) → tasks_of (submit_task P G h c) ≡ tasks_of c ++ h ∷ []
  unfolding submit_task Engine.submit_task Engine.wake_up
  submitted h c = P.contents-push h c.worker.engine.task_queue

  at_one :
      {A : Type 0} (f : Context P G → A) (g : A → A) (step : Context P G → Context P G)
      (w : ℕ → Context P G) (c d : ℕ)
      → ((x : Context P G) → f (step x) ≡ g (f x))
      → f (update w c (step (w c)) d) ≡ (if c == d then g (f (w d)) else f (w d))
  at_one f g step w c d same = elim (eq_or_ne c d) [
    | inl e ↦ rw (← e, update_self w c (step (w c)), eqb_refl c) (same (w c))
    | inr n ↦ rw (update_ne w (step (w c)) n, eqb_ne n) refl
  ]

  at_none :
      {A : Type 0} (f : Context P G → A) (step : Context P G → Context P G) (w : ℕ → Context P G)
      (c d : ℕ)
      → ((x : Context P G) → f (step x) ≡ f x)
      → f (update w c (step (w c)) d) ≡ f (w d)
  at_none f step w c d same = elim (eq_or_ne c d) [
    | inl e ↦ rw (← e, update_self w c (step (w c))) (same (w c))
    | inr n ↦ rw (update_ne w (step (w c)) n) refl
  ]

  -- The contexts of the code, an array of them, have the operations and the laws that the mutex, the
  -- event, the wait group and the latch rely on.
  pub engine_contexts : Contexts
  unfolding register_wait unregister_wait submit_task Engine.submit_task Engine.wake_up
  engine_contexts = record {
    World = ℕ → Context P G;
    register_wait = λ c n w. update w c (register_wait P G n (w c));
    unregister_wait = λ c n w. update w c (unregister_wait P G n (w c));
    submit_task = λ c h w. update w c (submit_task P G h (w c));
    waits = λ w d. (w d).num_wait_task;
    tasks = λ w d. tasks_of (w d);
    waits-register = λ c n w d.
        at_one (λ x. x.num_wait_task) (λ k. (k + n) % size_mod) (register_wait P G n) w c d
          λ x. refl;
    waits-unregister = λ c n w d.
        at_one (λ x. x.num_wait_task) (λ k. (k + size_mod - n) % size_mod) (unregister_wait P G n) w
          c d λ x. refl;
    waits-submit = λ c h w d. at_none (λ x. x.num_wait_task) (submit_task P G h) w c d λ x. refl;
    tasks-register = λ c n w d. at_none tasks_of (register_wait P G n) w c d λ x. refl;
    tasks-unregister = λ c n w d. at_none tasks_of (unregister_wait P G n) w c d λ x. refl;
    tasks-submit =
        λ c h w d. at_one tasks_of (λ l. l ++ h ∷ []) (submit_task P G h) w c d (submitted h);
  }
