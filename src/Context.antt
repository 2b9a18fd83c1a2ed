-- ===== src/Context.antt =====
-- include/coro/context.hpp and src/context.cpp: the loop of a work thread around its engine
-- (Engine.antt), and the counter of the coroutines that wait elsewhere for this context. The stop
-- token and the callback of the scheduler are the thread's surroundings.
pub mod Work
pub mod Stop
pub mod Implements
pub mod Thread
mod Tests
use tiny_coro_lab.Prelude.{
  ℕ, zero, suc, ◌+◌, ◌-◌, ◌%◌, Bool, true, false, not, ◌&&◌, List, [], ◌∷◌, Option, none, some,
  ◌==◌, if◌then◌else◌,
}
use tiny_coro_lab.Contexts.{size_mod}
use tiny_coro_lab.Engine
use tiny_coro_lab.Engine.{
  Platform, Program, Worker, Effect, submits, requests_io, registers, unregisters,
}

-- `token.stop_requested()`, which others may have changed since the last look, the callback, and what
-- other threads do to the context while it waits for events.
pub record Surroundings : Type 1 where
  pub Env : Type 0
  pub stop_requested : Env → Bool × Env
  pub others : Env → List Effect × Env
  pub stop_cb : Option (Env → Env)

pub record Context (P : Platform) (G : Program) : Type 0 where
  pub worker : Worker P G
  pub num_wait_task : ℕ

module _ (P : Platform) (G : Program) where
  pub submit_task : ℕ → Context P G → Context P G
  submit_task handle c = record c {
    worker = record c.worker { engine = Engine.submit_task P handle c.worker.engine };
  }

  -- `fetch_add` and `fetch_sub` on a `size_t`.
  pub register_wait : ℕ → Context P G → Context P G
  register_wait n c = record c { num_wait_task = (c.num_wait_task + n) % size_mod }

  pub unregister_wait : ℕ → Context P G → Context P G
  unregister_wait n c = record c { num_wait_task = (c.num_wait_task + size_mod - n) % size_mod }

  -- What happens to the wait counter while a coroutine runs.
  unfoldable pub count_waits : List Effect → Context P G → Context P G
  unfolding register_wait unregister_wait
  count_waits [] c = c
  count_waits (submits h ∷ l) c = count_waits l c
  count_waits (requests_io ∷ l) c = count_waits l c
  count_waits (registers cnt ∷ l) c = count_waits l (register_wait cnt c)
  count_waits (unregisters cnt ∷ l) c = count_waits l (unregister_wait cnt c)

  -- One round of the loop: `exec_one_task`, and the calls of the context while it runs.
  unfoldable pub exec_one : Context P G → Context P G
  unfolding count_waits
  exec_one c =
      let coro = (Engine.schedule P c.worker.engine).0 in
      count_waits (G.resume coro c.worker.store).1
        (record c { worker = Engine.exec_one_task P G c.worker })

  -- The loop of `process_work`.
  pub exec_tasks : ℕ → Context P G → Context P G
  unfolding exec_one
  exec_tasks zero c = c
  exec_tasks (suc n) c = exec_tasks n (exec_one c)

  -- As many tasks as are queued at the start.
  pub process_work : Context P G → Context P G
  unfolding exec_tasks
  process_work c = exec_tasks (Engine.num_task_schedule P c.worker.engine) c

  unfoldable pub poll_work : Context P G → Context P G
  poll_work c = record c { worker = Engine.poll_submit P G c.worker }

  pub empty_wait_work : Context P G → Bool
  empty_wait_work c = (c.num_wait_task == 0) && Engine.empty_io P c.worker.engine

  pub ready : Context P G → Bool
  ready c = Engine.ready P c.worker.engine

-- What a round of the loop in `run` ends in: `break`, or another round.
pub data Turn (A : Type 0) : Type 0 where
  leaves : A → Turn A
  goes_on : A → Turn A

module _ (P : Platform) (G : Program) (S : Surroundings) where
  open S use {Env, stop_requested, others, stop_cb}

  -- The calls of other threads, as they come to the queue and to the wait counter.
  abbrev pub others_act : List Effect → Context P G → Context P G
  others_act l c =
      count_waits P G l
        (record c { worker = record c.worker { engine = Engine.apply P l c.worker.engine } })

  call_stop_cb : Option (Env → Env) → Env → Env
  call_stop_cb none e = e
  call_stop_cb (some f) e = f e

  -- The second half of a round: the callback if the thread is idle, and the wait for events, during
  -- which others call the context.
  pub wait_half : Context P G → Env → Turn (Context P G × Env)
  unfolding call_stop_cb empty_wait_work poll_work ready
  wait_half c e =
      let (stop, e2) = stop_requested e in
      let idle = not stop && empty_wait_work P G c && not (ready P G c) in
      let (l, e3) = others (if idle then call_stop_cb stop_cb e2 else e2) in
      goes_on (others_act l (poll_work P G c), e3)

  pub round : Context P G → Env → Turn (Context P G × Env)
  unfolding process_work wait_half empty_wait_work ready
  round c e =
      let c2 = process_work P G c in
      let (stop, e2) = stop_requested e in
      if stop && empty_wait_work P G c2
      then (if ready P G c2 then goes_on (c2, e2) else leaves (c2, e2))
      else wait_half c2 e2

  -- The loop of `run`; `none` if it has not left after so many rounds.
  pub run : ℕ → Context P G → Env → Option (Context P G × Env)
  run zero c e = none
  run (suc n) c e = elim (round c e) [ leaves x ↦ some x | goes_on x ↦ run n x.0 x.1 ]
