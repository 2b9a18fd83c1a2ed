-- ===== src/Context/Work.antt =====
-- `process_work` of src/context.cpp.
use tiny_coro_lab.Prelude.{
  ℕ, ◌≡◌, refl, sym, ◌∙◌, ap, List, [], ◌∷◌, ◌++◌, length, append-nil, append_assoc,
}
use tiny_coro_lab.Engine
use tiny_coro_lab.Engine.{
  Platform, Program, Effect, submits, requests_io, registers, unregisters, Worker,
}
use tiny_coro_lab.Engine.Turns.{handles, one_turn}
use tiny_coro_lab.Context.{
  Context, count_waits, exec_one, register_wait, unregister_wait, submit_task, exec_tasks,
  process_work,
}
use tiny_coro_lab.Context.Implements.{tasks_of, submitted}

module _ (P : Platform) (G : Program) where
  -- The wait counter is no matter to the worker.
  pub count_waits-worker :
      (l : List Effect) (c : Context P G) → (count_waits P G l c).worker ≡ c.worker
  unfolding count_waits register_wait unregister_wait
  count_waits-worker [] c = refl
  count_waits-worker (submits h ∷ l) c = count_waits-worker l c
  count_waits-worker (requests_io ∷ l) c = count_waits-worker l c
  count_waits-worker (registers cnt ∷ l) c = count_waits-worker l (register_wait P G cnt c)
  count_waits-worker (unregisters cnt ∷ l) c = count_waits-worker l (unregister_wait P G cnt c)

  pub exec_one-worker :
      (c : Context P G) → (exec_one P G c).worker ≡ Engine.exec_one_task P G c.worker
  unfolding exec_one
  exec_one-worker c =
      count_waits-worker (G.resume (Engine.schedule P c.worker.engine).0 c.worker.store).1
        (record c { worker = Engine.exec_one_task P G c.worker })

  -- As many turns as there are tasks at the head of the queue resume these, in their order.
  exec_tasks-resumed :
      (l rest : List ℕ) (c : Context P G)
      → P.contents c.worker.engine.task_queue ≡ l ++ rest
      → (exec_tasks P G (length l) c).worker.resumed ≡ c.worker.resumed ++ l
  unfolding exec_tasks
  exec_tasks-resumed [] rest c e = sym (append-nil c.worker.resumed)
  exec_tasks-resumed (h ∷ l) rest c e =
      let (log, left) = one_turn P G c.worker h (l ++ rest) e in
      let more = handles (G.resume h c.worker.store).1 in
      let same = exec_one-worker c in
      exec_tasks-resumed l (rest ++ more) (exec_one P G c) (
        ap (λ (w : Worker P G). P.contents w.engine.task_queue) same
        ∙ left
        ∙ append_assoc l rest more)
      ∙ ap (λ (w : Worker P G). w.resumed ++ l) same
      ∙ ap (λ z. z ++ l) log
      ∙ append_assoc c.worker.resumed (h ∷ []) l

  -- `process_work` resumes exactly the tasks that were queued when it was called, each once and in
  -- their order; what is submitted meanwhile stays for the next round, so the loop comes to its io
  -- whatever the tasks do.
  pub process_snapshot :
      (c : Context P G) → (process_work P G c).worker.resumed ≡ c.worker.resumed ++ tasks_of P G c
  unfolding process_work Engine.num_task_schedule
  process_snapshot c =
      rw (P.size-contents c.worker.engine.task_queue)
        (exec_tasks-resumed (tasks_of P G c) [] c (sym (append-nil (tasks_of P G c))))

  -- What other threads submit, one task after the other.
  abbrev pub submit_all : List ℕ → Context P G → Context P G
  submit_all [] c = c
  submit_all (h ∷ l) c = submit_all l (submit_task P G h c)

  pub submit_all-tasks_of :
      (l : List ℕ) (c : Context P G) → tasks_of P G (submit_all l c) ≡ tasks_of P G c ++ l
  submit_all-tasks_of [] c = sym (append-nil (tasks_of P G c))
  submit_all-tasks_of (h ∷ l) c =
      submit_all-tasks_of l (submit_task P G h c)
      ∙ ap (λ z. z ++ l) (submitted P G h c)
      ∙ append_assoc (tasks_of P G c) (h ∷ []) l

  pub submit_all-resumed :
      (l : List ℕ) (c : Context P G) → (submit_all l c).worker.resumed ≡ c.worker.resumed
  unfolding submit_task
  submit_all-resumed [] c = refl
  submit_all-resumed (h ∷ l) c = submit_all-resumed l (submit_task P G h c)
