-- ===== src/Engine.antt =====
-- include/coro/engine.hpp and src/engine.cpp: the task queue and the count of the io requests of one
-- context, and the eventfd that wakes it. The queue (AtomicQueue) and the kernel (liburing, eventfd)
-- are not code of the repository: `Platform` says what the engine relies on.
pub mod Fields
pub mod Peeked
pub mod Balance
pub mod Turns
pub mod Delivery
pub mod Plain
mod Tests
use tiny_coro_lab.Prelude.{
  ℕ, suc, zero, ◌+◌, ◌-◌, ◌/◌, ◌%◌, ◌^◌, ◌≡◌, ◌≤◌, Bool, true, false, not, ◌&&◌, List, [], ◌∷◌,
  ◌++◌, length, ltb, ◌==◌, if◌then◌else◌,
}
use tiny_coro_lab.Contexts.{size_mod}

-- A completion: the `io_info` that the request carries, and its result.
pub record Cqe : Type 0 where
  pub user_data : ℕ
  pub res : ℕ

-- A queue in the order of its contents; a ring whose completions are peeked at most as many as asked.
pub record Platform : Type 1 where
  pub Queue : Type 0
  pub empty : Queue
  pub push : ℕ → Queue → Queue
  pub pop : Queue → ℕ × Queue
  pub was_size : Queue → ℕ
  pub was_empty : Queue → Bool
  pub contents : Queue → List ℕ
  pub contents-empty : contents empty ≡ []
  pub contents-push : (h : ℕ) (q : Queue) → contents (push h q) ≡ contents q ++ h ∷ []
  pub contents-pop :
      (q : Queue) (h : ℕ) (hs : List ℕ)
      → contents q ≡ h ∷ hs
      → ((pop q).0 ≡ h) × (contents (pop q).1 ≡ hs)
  pub size-contents : (q : Queue) → was_size q ≡ length (contents q)
  pub empty-contents : (q : Queue) → was_empty q ≡ (length (contents q) == 0)
  pub Kernel : Type 0
  pub submit : Kernel → Kernel
  pub write_eventfd : ℕ → Kernel → Kernel
  pub wait_eventfd : Kernel → ℕ × Kernel
  pub peek_batch_cqe : ℕ → Kernel → List Cqe × Kernel
  pub cq_advance : ℕ → Kernel → Kernel
  pub peek-at_most : (n : ℕ) (k : Kernel) → length (peek_batch_cqe n k).0 ≤ n

-- What happens to a context while a coroutine or a callback runs: what that does itself, and what
-- other threads do meanwhile. The wait counter stands in the context, not in the engine.
pub data Effect : Type 0 where
  submits : (handle : ℕ) → Effect
  requests_io : Effect
  registers : (cnt : ℕ) → Effect
  unregisters : (cnt : ℕ) → Effect

-- The coroutines of the program: what happens while one is resumed, and whether it is done then; what
-- the callback of an `io_info` does, which registers no wait; and `clean` of a done coroutine.
pub record Program : Type 1 where
  pub Store : Type 0
  pub resume : ℕ → Store → Store × List Effect × Bool
  pub clean : ℕ → Store → Store
  pub cb : Cqe → Store → Store × List Effect

-- The bit fields of the eventfd: 20 bits for tasks, 20 for io, 24 for completions.
abbrev pub task_flag : ℕ
task_flag = 2 ^ 44

abbrev pub io_flag : ℕ
io_flag = 2 ^ 24

-- `val & task_mask`, `val & io_mask` and `val & cqe_mask` are not zero.
abbrev pub wake_by_task : ℕ → Bool
wake_by_task val = ltb 0 (val / task_flag % 2 ^ 20)

abbrev pub wake_by_io : ℕ → Bool
wake_by_io val = ltb 0 (val / io_flag % 2 ^ 20)

abbrev pub wake_by_cqe : ℕ → Bool
wake_by_cqe val = ltb 0 (val % io_flag)

module _ (P : Platform) where
  open P use {
    Queue, push, pop, was_size, was_empty, Kernel, submit, write_eventfd, wait_eventfd,
    peek_batch_cqe, cq_advance,
  }

  pub record Engine : Type 0 where
    pub task_queue : Queue
    pub num_io_wait_submit : ℕ
    pub num_io_running : ℕ
    pub kernel : Kernel

  -- The counters of `init`; the ring is the platform's.
  unfoldable pub init : Engine → Engine
  init e = record e { num_io_wait_submit = 0; num_io_running = 0 }

  -- `deinit` swaps the queue for an empty one.
  unfoldable pub deinit : Engine → Engine
  deinit e = record e { task_queue = P.empty; num_io_wait_submit = 0; num_io_running = 0 }

  unfoldable pub ready : Engine → Bool
  ready e = not (was_empty e.task_queue)

  unfoldable pub num_task_schedule : Engine → ℕ
  num_task_schedule e = was_size e.task_queue

  unfoldable pub schedule : Engine → ℕ × Engine
  schedule e = let (coro, q) = pop e.task_queue in (coro, record e { task_queue = q })

  unfoldable pub wake_up : ℕ → Engine → Engine
  wake_up val e = record e { kernel = write_eventfd val e.kernel }

  unfoldable pub submit_task : ℕ → Engine → Engine
  unfolding wake_up
  submit_task handle e = wake_up task_flag (record e { task_queue = push handle e.task_queue })

  unfoldable pub add_io_submit : Engine → Engine
  add_io_submit e = record e { num_io_wait_submit = (e.num_io_wait_submit + 1) % size_mod }

  unfoldable pub empty_io : Engine → Bool
  empty_io e = (e.num_io_wait_submit == 0) && (e.num_io_running == 0)

  -- The request counts move to the running ones with one `submit` of the ring.
  unfoldable pub do_io_submit : Engine → Engine
  do_io_submit e =
      if ltb 0 e.num_io_wait_submit
      then record e {
        num_io_wait_submit = 0;
        num_io_running = (e.num_io_running + e.num_io_wait_submit) % size_mod;
        kernel = submit e.kernel;
      }
      else e

  unfoldable pub apply : List Effect → Engine → Engine
  unfolding submit_task add_io_submit
  apply [] e = e
  apply (submits h ∷ l) e = apply l (submit_task h e)
  apply (requests_io ∷ l) e = apply l (add_io_submit e)
  apply (registers cnt ∷ l) e = apply l e
  apply (unregisters cnt ∷ l) e = apply l e

-- An engine with the program that runs on it. The logs of what was resumed and completed are no
-- fields of the code.
pub record Worker (P : Platform) (G : Program) : Type 0 where
  pub engine : Engine P
  pub store : G.Store
  pub resumed : List ℕ
  pub completed : List Cqe

module _ (P : Platform) (G : Program) where
  -- `exec_one_task`: the coroutine is resumed, and cleaned if it is done.
  unfoldable pub exec_one_task : Worker P G → Worker P G
  unfolding schedule
  exec_one_task w =
      let (coro, e) = schedule P w.engine in
      let (st, effects, done) = G.resume coro w.store in
      record {
        engine = apply P effects e;
        store = if done then G.clean coro st else st;
        resumed = w.resumed ++ coro ∷ [];
        completed = w.completed;
      }

  unfoldable pub handle_cqe_entry : Cqe → Worker P G → Worker P G
  handle_cqe_entry cqe w =
      let (st, effects) = G.cb cqe w.store in
      record {
        engine = apply P effects w.engine;
        store = st;
        resumed = w.resumed;
        completed = w.completed ++ cqe ∷ [];
      }

  unfoldable pub handle_all : List Cqe → Worker P G → Worker P G
  unfolding handle_cqe_entry
  handle_all [] w = w
  handle_all (cqe ∷ l) w = handle_all l (handle_cqe_entry cqe w)

  -- The completions that were peeked are handled, and leave the ring and the count.
  unfoldable pub finish_batch : List Cqe → Worker P G → Worker P G
  unfolding handle_all
  finish_batch [] w = w
  finish_batch (cqe ∷ l) w =
      let num = length (cqe ∷ l) in
      let v = handle_all (cqe ∷ l) w in
      record v {
        engine = record v.engine {
          num_io_running = (v.engine.num_io_running + size_mod - num) % size_mod;
          kernel = P.cq_advance num v.engine.kernel;
        };
      }

  -- What follows `wait_eventfd` in `poll_submit`: `cnt` is what was read.
  unfoldable pub after_wait : ℕ → Worker P G → Worker P G
  unfolding finish_batch
  after_wait cnt w =
      if wake_by_cqe cnt
      then (let (batch, k) = P.peek_batch_cqe w.engine.num_io_running w.engine.kernel in
          finish_batch batch (record w { engine = record w.engine { kernel = k } }))
      else w

  unfoldable pub poll_submit : Worker P G → Worker P G
  unfolding after_wait do_io_submit
  poll_submit w =
      let e = do_io_submit P w.engine in
      let (cnt, k) = P.wait_eventfd e.kernel in
      after_wait cnt (record w { engine = record e { kernel = k } })
