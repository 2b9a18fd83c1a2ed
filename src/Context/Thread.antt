-- ===== src/Context/Thread.antt =====
-- The thread of a context (src/context.cpp): `start`, with `init`, `run` and `deinit`, the thread-local
-- pointers of include/coro/meta_info.hpp, and `notify_stop`.
use tiny_coro_lab.Prelude.{
  ℕ, suc, ◌+◌, ◌%◌, ◌^◌, ◌≡◌, refl, sym, ◌∙◌, ap, true, Option, none, some, List, [], ◌++◌,
  bind-some, ◌>>=◌,
}
use mathlib.Core.Option.{some-injective}
use tiny_coro_lab.Engine
use tiny_coro_lab.Engine.{Platform, Program}
use tiny_coro_lab.Context.{Surroundings, Context, run}
use tiny_coro_lab.Context.Implements.{tasks_of}
use tiny_coro_lab.Context.Work.{submit_all, submit_all-tasks_of, submit_all-resumed}
use tiny_coro_lab.Context.Stop.{Idle, QuietRun, run-Idle, leaves_when_done}

-- A context with its id, and `linfo` of the thread that it runs on, by the ids of what it points to.
pub record Thread (P : Platform) (G : Program) : Type 0 where
  pub context : Context P G
  pub id : ℕ
  pub local_ctx : Option ℕ
  pub local_egn : Option ℕ

-- `m_stop_cb` is set to a request of stop if nobody has set it.
abbrev or_own : {Env : Type 0} → Option (Env → Env) → (Env → Env) → Option (Env → Env)
or_own none request_stop = some request_stop
or_own (some cb) request_stop = some cb

abbrev pub with_stop_cb : (S : Surroundings) → (S.Env → S.Env) → Surroundings
with_stop_cb S request_stop = record {
  Env = S.Env;
  stop_requested = S.stop_requested;
  others = S.others;
  stop_cb = or_own S.stop_cb request_stop;
}

pub set_stop_cb : (S : Surroundings) → (S.Env → S.Env) → Surroundings
set_stop_cb S cb = record {
  Env = S.Env;
  stop_requested = S.stop_requested;
  others = S.others;
  stop_cb = some cb;
}

module _ (P : Platform) (G : Program) where
  -- The constructor takes its id from the global counter, which has 32 bits.
  pub create : Context P G → (context_id : ℕ) → Thread P G × ℕ
  create c context_id = (
    record { context = c; id = context_id; local_ctx = none; local_egn = none },
    (context_id + 1) % 2 ^ 32,
  )

  unfoldable pub init : Thread P G → Thread P G
  unfolding Engine.init
  init t = record t {
    context = record t.context {
      worker = record t.context.worker { engine = Engine.init P t.context.worker.engine };
    };
    local_ctx = some t.id;
    local_egn = some t.id;
  }

  unfoldable pub deinit : Thread P G → Thread P G
  unfolding Engine.deinit
  deinit t = record t {
    context = record t.context {
      worker = record t.context.worker { engine = Engine.deinit P t.context.worker.engine };
    };
    local_ctx = none;
  }

  module _ (S : Surroundings) (request_stop : S.Env → S.Env) where
    -- What the thread of `start` does; `none` if its loop has not left after so many rounds.
    unfoldable pub thread_main : ℕ → Thread P G → S.Env → Option (Thread P G × S.Env)
    unfolding init deinit
    thread_main rounds t e = do
      let t = init t
      (c, e) ← run P G (with_stop_cb S request_stop) rounds t.context e
      some (deinit (record t { context = c }), e)

    pub notify_stop : Thread P G → S.Env → Thread P G × S.Env
    unfolding Engine.wake_up
    notify_stop t e = (
      record t {
        context = record t.context {
          worker = record t.context.worker { engine = Engine.wake_up P 1 t.context.worker.engine };
        };
      },
      request_stop e,
    )

    -- What a thread that ends drops is what comes too late. The loop leaves a context in which no task
    -- is queued, none waits elsewhere and no io is open, and `deinit` cleans up after it. But whatever
    -- other threads submit between the loop and `deinit` is queued, and then gone without having been
    -- resumed.
    pub thread_main-drops :
        (rounds : ℕ) (t u : Thread P G) (e e2 : S.Env) (late : List ℕ)
        → thread_main rounds t e ≡ some (u, e2)
        → (c : Context P G) × (run P G (with_stop_cb S request_stop) rounds (init t).context e
            ≡ some (c, e2))
          × (u ≡ deinit (record (init t) { context = c }))
          × Idle P G c
          × (let d = submit_all P G late c in
              let v = deinit (record (init t) { context = d }) in
              (tasks_of P G d ≡ late)
              × (tasks_of P G v.context ≡ [])
              × (v.context.worker.resumed ≡ c.worker.resumed))
    unfolding thread_main deinit Engine.deinit
    thread_main-drops rounds t u e e2 late h =
        let ((c, e3), ran, made) =
          bind-some (run P G (with_stop_cb S request_stop) rounds (init t).context e) _ (u, e2) h in
        let out = some-injective _ _ made in
        let same = ap (λ (x : Thread P G × S.Env). x.1) out in
        let thread = ap (λ (x : Thread P G × S.Env). x.0) out in
        let idle = run-Idle P G (with_stop_cb S request_stop) rounds (init t).context c e e3 ran in
        (
          c,
          ran ∙ ap (λ x. some (c, x)) same,
          sym thread,
          idle,
          (
            submit_all-tasks_of P G late c ∙ ap (λ l. l ++ late) idle.0,
            P.contents-empty,
            submit_all-resumed P G late c,
          ),
        )

    -- A thread does end. When stop is requested, no coroutine of the context waits elsewhere, and the
    -- tasks queued, resumed one after the other, submit nothing, request no io and wait for nothing, it
    -- resumes them all, in order, and ends after one round.
    pub thread_main-ends :
        (rounds : ℕ) (t : Thread P G) (e : S.Env)
        → QuietRun P G (tasks_of P G t.context) t.context.worker.store
        → (S.stop_requested e).0 ≡ true
        → t.context.num_wait_task ≡ 0
        → (u : Thread P G) × (thread_main (suc rounds) t e ≡ some (u, (S.stop_requested e).1))
          × (u.context.worker.resumed ≡ t.context.worker.resumed ++ tasks_of P G t.context)
    unfolding thread_main init deinit
    thread_main-ends rounds t e quiet stop waits =
        let (c, ran, resumed, idle) =
          leaves_when_done P G (with_stop_cb S request_stop) rounds (init t).context e quiet stop
            waits refl refl in
        (deinit (record (init t) { context = c }), rw ran refl, resumed)
