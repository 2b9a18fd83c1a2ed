-- ===== src/Contexts/Plain.antt =====
-- A plain instance of the interface: the wait counter and the task queue of each context.
use tiny_coro_lab.Prelude.{
  ℕ, ◌+◌, ◌-◌, ◌%◌, ◌≡◌, refl, List, [], ◌∷◌, ◌++◌, arith, update, ◌==◌, if◌then◌else◌,
}
use tiny_coro_lab.Contexts.{Contexts, size_mod}

pub record Ledger : Type 0 where
  pub waits : ℕ → ℕ
  pub tasks : ℕ → List ℕ

module _ (c d n h : ℕ) (w : Ledger) where
  pub added :
      update w.waits c ((w.waits c + n) % size_mod) d
      ≡ (if c == d then (w.waits d + n) % size_mod else w.waits d)
  added = ground arith

  pub removed :
      update w.waits c ((w.waits c + size_mod - n) % size_mod) d
      ≡ (if c == d then (w.waits d + size_mod - n) % size_mod else w.waits d)
  removed = ground arith

  pub pushed :
      update w.tasks c (w.tasks c ++ h ∷ []) d ≡ (if c == d then w.tasks d ++ h ∷ [] else w.tasks d)
  pushed = ground arith

abbrev pub plain : Contexts
plain = record {
  World = Ledger;
  register_wait = λ c n w. record w { waits = update w.waits c ((w.waits c + n) % size_mod) };
  unregister_wait =
      λ c n w. record w { waits = update w.waits c ((w.waits c + size_mod - n) % size_mod) };
  submit_task = λ c h w. record w { tasks = update w.tasks c (w.tasks c ++ h ∷ []) };
  waits = λ w. w.waits;
  tasks = λ w. w.tasks;
  waits-register = λ c n w d. added c d n 0 w;
  waits-unregister = λ c n w d. removed c d n 0 w;
  waits-submit = λ c h w d. refl;
  tasks-register = λ c n w d. refl;
  tasks-unregister = λ c n w d. refl;
  tasks-submit = λ c h w d. pushed c d 0 h w;
}

abbrev pub quiet : Ledger
quiet = record { waits = λ _. 0; tasks = λ _. [] }
