-- ===== src/Context/Tests.antt =====
-- A run of src/context.cpp, and its theorems at it.
use tiny_coro_lab.Prelude.{ℕ, ◌≡◌, refl, true, some, none, [], ◌∷◌, ◌++◌}
use tiny_coro_lab.Engine
use tiny_coro_lab.Engine.{Worker}
use tiny_coro_lab.Engine.Plain.{list_platform, quiet_program, fresh_engine}
use tiny_coro_lab.Context.{
  Surroundings, Context, process_work, exec_tasks, exec_one, count_waits, empty_wait_work, ready,
  round, run,
}
use tiny_coro_lab.Context.Implements.{tasks_of}
use tiny_coro_lab.Context.Work.{process_snapshot, submit_all}
use tiny_coro_lab.Context.Thread.{
  Thread, with_stop_cb, init, deinit, thread_main, thread_main-drops, thread_main-ends,
}
use tiny_coro_lab.Context.Stop.{Idle, run-Idle, leaves_when_done}

-- Stop is requested, and there is no callback.
abbrev stopping : Surroundings
stopping = record {
  Env = ℕ;
  stop_requested = λ e. (true, e);
  others = λ e. ([], e);
  stop_cb = none;
}

-- Two tasks are queued.
abbrev busy : Context list_platform quiet_program
busy = record {
  worker = record {
    engine = record fresh_engine { task_queue = 4 ∷ 5 ∷ [] };
    store = 0;
    resumed = [];
    completed = [];
  };
  num_wait_task = 0;
}

process_snapshot_run :
    (process_work list_platform quiet_program busy).worker.resumed
    ≡ [] ++ tasks_of list_platform quiet_program busy
process_snapshot_run = process_snapshot list_platform quiet_program busy

leaves_when_done_run :
    (c2 : Context list_platform quiet_program) × (run list_platform quiet_program stopping 1 busy 0
      ≡ some (c2, 0))
    × (c2.worker.resumed ≡ [] ++ tasks_of list_platform quiet_program busy)
    × Idle list_platform quiet_program c2
leaves_when_done_run =
    leaves_when_done list_platform quiet_program stopping 0 busy 0 (refl, (refl, tt)) refl refl refl
      refl

abbrev left : Context list_platform quiet_program
left = process_work list_platform quiet_program busy

run-Idle_run : Idle list_platform quiet_program left
unfolding run round process_work exec_tasks exec_one count_waits empty_wait_work ready Engine.ready
    Engine.empty_io Engine.num_task_schedule Engine.exec_one_task Engine.schedule Engine.apply
run-Idle_run = run-Idle list_platform quiet_program stopping 1 busy left 0 0 refl

-- The thread of that context, with the id 2, when stop is requested.
abbrev busy_thread : Thread list_platform quiet_program
busy_thread = record { context = busy; id = 2; local_ctx = none; local_egn = none }

abbrev request : ℕ → ℕ
request e = e

thread_main-ends_example :
    (u : Thread list_platform quiet_program) × (thread_main list_platform quiet_program stopping
        request 1 busy_thread 0
      ≡ some (u, 0))
    × (u.context.worker.resumed ≡ [] ++ tasks_of list_platform quiet_program busy)
thread_main-ends_example =
    thread_main-ends list_platform quiet_program stopping request 0 busy_thread 0 (refl, (refl, tt))
      refl refl

-- What it leaves: the two tasks are resumed, and the queue is empty.
abbrev ended : Thread list_platform quiet_program
ended = record {
  context = record {
    worker = record {
      engine = record fresh_engine { task_queue = [] };
      store = 2;
      resumed = 4 ∷ 5 ∷ [];
      completed = [];
    };
    num_wait_task = 0;
  };
  id = 2;
  local_ctx = none;
  local_egn = some 2;
}

busy_thread_ends :
    thread_main list_platform quiet_program stopping request 1 busy_thread 0 ≡ some (ended, 0)
unfolding thread_main init deinit run round process_work exec_tasks exec_one count_waits
    empty_wait_work ready Engine.ready Engine.empty_io Engine.num_task_schedule Engine.exec_one_task
    Engine.schedule Engine.apply Engine.init Engine.deinit
busy_thread_ends = refl

-- Task 9 is submitted too late.
thread_main-drops_example :
    (c : Context list_platform quiet_program) × (run list_platform quiet_program
        (with_stop_cb stopping request)
        1
        (init list_platform quiet_program busy_thread).context
        0
      ≡ some (c, 0))
    × (ended
        ≡ deinit list_platform quiet_program
            (record (init list_platform quiet_program busy_thread) { context = c }))
    × Idle list_platform quiet_program c
    × (let d = submit_all list_platform quiet_program (9 ∷ []) c in
        let v =
          deinit list_platform quiet_program
            (record (init list_platform quiet_program busy_thread) { context = d }) in
        (tasks_of list_platform quiet_program d ≡ 9 ∷ [])
        × (tasks_of list_platform quiet_program v.context ≡ [])
        × (v.context.worker.resumed ≡ c.worker.resumed))
thread_main-drops_example =
    thread_main-drops list_platform quiet_program stopping request 1 busy_thread ended 0 0 (9 ∷ [])
      busy_thread_ends
