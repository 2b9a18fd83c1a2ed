-- ===== src/Context/Stop.antt =====
-- When the loop in `run` of src/context.cpp leaves.
use tiny_coro_lab.Prelude.{
  ℕ, zero, suc, ◌≡◌, refl, sym, ◌∙◌, subst, Bool, true, false, not, ◌&&◌, Option, none, some, List,
  [], ◌∷◌, ◌++◌, length, arith, ◌==◌, Bool-cases, inl, inr, if◌then◌else◌,
}
use tiny_coro_lab.Engine
use tiny_coro_lab.Engine.{Platform, Program, Worker}
use tiny_coro_lab.Context.{
  Surroundings, Context, exec_one, count_waits, exec_tasks, process_work, empty_wait_work, ready,
  Turn, leaves, goes_on, wait_half, round, run,
}
use tiny_coro_lab.Context.Implements.{tasks_of}
use tiny_coro_lab.Context.Work.{process_snapshot}

both : (a b : Bool) → (a && b) ≡ true → (a ≡ true) × (b ≡ true)
both true b h = (refl, h)
both false b h = absurd (ground arith)

not-true : (a : Bool) → not a ≡ false → a ≡ true
not-true a h = ground arith

length-zero : (l : List ℕ) → (length l == 0) ≡ true → l ≡ []
length-zero [] h = refl
length-zero (x ∷ l) h = absurd (ground arith)

module _ (P : Platform) (G : Program) where
  -- Nothing is left to do in a context: no task, no wait, no io.
  abbrev pub Idle : Context P G → Type 0
  Idle c =
      (tasks_of P G c ≡ [])
      × (c.num_wait_task ≡ 0)
      × (c.worker.engine.num_io_wait_submit ≡ 0)
      × (c.worker.engine.num_io_running ≡ 0)

  tests-Idle : (c : Context P G) → empty_wait_work P G c ≡ true → ready P G c ≡ false → Idle c
  unfolding empty_wait_work ready Engine.ready Engine.empty_io
  tests-Idle c h k =
      let (waits, io) = both (c.num_wait_task == 0) _ h in
      let (submits, runs) = both (c.worker.engine.num_io_wait_submit == 0) _ io in
      (
        length-zero (tasks_of P G c) (
            sym (P.empty-contents c.worker.engine.task_queue)
            ∙ not-true (P.was_empty c.worker.engine.task_queue) k),
        ground arith,
        ground arith,
        ground arith,
      )

  module _ (S : Surroundings) where
    Left : Turn (Context P G × S.Env) → Type 0
    Left (leaves x) = Idle x.0
    Left (goes_on x) = Unit {0}

    round-Left : (c : Context P G) (e : S.Env) → Left (round P G S c e)
    unfolding round Left wait_half
    round-Left c e =
        elim (Bool-cases ((S.stop_requested e).0 && empty_wait_work P G (process_work P G c))) [
          | inl done ↦ elim (Bool-cases (ready P G (process_work P G c))) [
            | inl more ↦ rw (done, more) tt
            | inr rest ↦
                rw (done, rest)
                  (tests-Idle (process_work P G c) (both (S.stop_requested e).0 _ done).1 rest)
          ]
          | inr busy ↦ rw busy tt
        ]

    Result : Option (Context P G × S.Env) → Type 0
    Result none = Unit {0}
    Result (some x) = Idle x.0

    run-Result : (n : ℕ) (c : Context P G) (e : S.Env) → Result (run P G S n c e)
    unfolding run Result Left
    run-Result zero c e = tt
    run-Result (suc n) c e = go (round P G S c e) (round-Left c e) λ x. run-Result n x.0 x.1
      where
        go :
            (t : Turn (Context P G × S.Env))
            → Left t
            → ((x : Context P G × S.Env) → Result (run P G S n x.0 x.1))
            → Result (elim t [ leaves x ↦ some x | goes_on x ↦ run P G S n x.0 x.1 ])
        go (leaves x) l more = l
        go (goes_on x) l more = more x

    -- The loop leaves only a context in which nothing is left to do: no task is queued, none waits
    -- elsewhere, and no io request is waiting or running.
    pub run-Idle :
        (n : ℕ) (c c2 : Context P G) (e e2 : S.Env) → run P G S n c e ≡ some (c2, e2) → Idle c2
    unfolding Result
    run-Idle n c c2 e e2 h = subst Result h (run-Result n c e)

  -- The tasks of a list, resumed one after the other from this store, only compute: they submit
  -- nothing, request no io, and register and unregister no wait.
  abbrev pub QuietRun : List ℕ → G.Store → Type 0
  QuietRun [] st = Unit {0}
  QuietRun (h ∷ l) st =
      let (st2, effects, done) = G.resume h st in
      (effects ≡ []) × QuietRun l (if done then G.clean h st2 else st2)

  -- What a turn leaves of the context, when its task only computes.
  one-quiet :
      (c : Context P G) (h : ℕ) (hs : List ℕ)
      → P.contents c.worker.engine.task_queue ≡ h ∷ hs
      → (G.resume h c.worker.store).1 ≡ []
      → (let d = exec_one P G c in
          (P.contents d.worker.engine.task_queue ≡ hs)
          × (d.num_wait_task ≡ c.num_wait_task)
          × (d.worker.engine.num_io_wait_submit ≡ c.worker.engine.num_io_wait_submit)
          × (d.worker.engine.num_io_running ≡ c.worker.engine.num_io_running)
          × (d.worker.store ≡ (
              if (G.resume h c.worker.store).2
              then G.clean h (G.resume h c.worker.store).0
              else (G.resume h c.worker.store).0)))
  unfolding exec_one count_waits Engine.exec_one_task Engine.schedule Engine.apply
  one-quiet c h hs e quiet =
      let (at, rest) = P.contents-pop c.worker.engine.task_queue h hs e in
      rw (at, quiet) (rest, refl, refl, refl, refl)

  tasks-quiet :
      (l : List ℕ) (c : Context P G)
      → P.contents c.worker.engine.task_queue ≡ l
      → QuietRun l c.worker.store
      → (let d = exec_tasks P G (length l) c in
          (P.contents d.worker.engine.task_queue ≡ [])
          × (d.num_wait_task ≡ c.num_wait_task)
          × (d.worker.engine.num_io_wait_submit ≡ c.worker.engine.num_io_wait_submit)
          × (d.worker.engine.num_io_running ≡ c.worker.engine.num_io_running))
  unfolding exec_tasks
  tasks-quiet [] c e q = (e, refl, refl, refl)
  tasks-quiet (h ∷ l) c e (quiet, q) =
      let (left, n, a, b, st) = one-quiet c h l e quiet in
      let (none_left, m, x, y) =
        tasks-quiet l (exec_one P G c) left (subst (QuietRun l) (sym st) q) in
      (none_left, m ∙ n, x ∙ a, y ∙ b)

  Idle-tests : (c : Context P G) → Idle c → (empty_wait_work P G c ≡ true) × (ready P G c ≡ false)
  unfolding empty_wait_work ready Engine.ready Engine.empty_io
  Idle-tests c (none_left, waits, submits, runs) = (
    rw (waits, submits, runs) refl,
    rw (P.empty-contents c.worker.engine.task_queue, none_left) refl,
  )

  process-Idle :
      (c : Context P G)
      → QuietRun (tasks_of P G c) c.worker.store
      → c.num_wait_task ≡ 0
      → c.worker.engine.num_io_wait_submit ≡ 0
      → c.worker.engine.num_io_running ≡ 0
      → Idle (process_work P G c)
  unfolding process_work Engine.num_task_schedule
  process-Idle c quiet waits submits runs =
      let (none_left, n, a, b) = tasks-quiet (tasks_of P G c) c refl quiet in
      rw (P.size-contents c.worker.engine.task_queue) (none_left, n ∙ waits, a ∙ submits, b ∙ runs)

  round-leaves :
      (S : Surroundings) (c : Context P G) (e : S.Env)
      → (S.stop_requested e).0 ≡ true
      → Idle (process_work P G c)
      → round P G S c e ≡ leaves (process_work P G c, (S.stop_requested e).1)
  unfolding round
  round-leaves S c e stop idle =
      let (empty, none_ready) = Idle-tests (process_work P G c) idle in
      rw (stop, empty, none_ready) refl

  -- The loop does leave. When stop is requested, nobody waits elsewhere and no io is open, and the
  -- tasks queued only compute, it resumes them all, in order, and leaves in its first round.
  pub leaves_when_done :
      (S : Surroundings) (n : ℕ) (c : Context P G) (e : S.Env)
      → QuietRun (tasks_of P G c) c.worker.store
      → (S.stop_requested e).0 ≡ true
      → c.num_wait_task ≡ 0
      → c.worker.engine.num_io_wait_submit ≡ 0
      → c.worker.engine.num_io_running ≡ 0
      → (c2 : Context P G) × (run P G S (suc n) c e ≡ some (c2, (S.stop_requested e).1))
        × (c2.worker.resumed ≡ c.worker.resumed ++ tasks_of P G c)
        × Idle c2
  unfolding run
  leaves_when_done S n c e quiet stop waits submits runs =
      let idle = process-Idle c quiet waits submits runs in
      (
        process_work P G c,
        rw (run, round-leaves S c e stop idle) refl,
        process_snapshot P G c,
        idle,
      )
