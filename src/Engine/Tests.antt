-- ===== src/Engine/Tests.antt =====
-- A platform and a program, runs of src/engine.cpp on them, and its theorems at these.

use tiny_coro_lab.Prelude.{◌+◌, ◌*◌, ◌≡◌, refl, [], ◌∷◌, ◌++◌, arith, length, ltb}
use tiny_coro_lab.Engine.{
  Worker, task_flag, io_flag, wake_by_task, wake_by_io, wake_by_cqe, submit_task, add_io_submit,
  exec_one_task, poll_submit, wake_up, apply, schedule, do_io_submit, after_wait, finish_batch,
  handle_all, handle_cqe_entry,
}
use tiny_coro_lab.Engine.Plain.{list_platform, echo_program, fresh}
use tiny_coro_lab.Engine.Fields.{fields_apart}
use tiny_coro_lab.Engine.Peeked.{peeked}
use tiny_coro_lab.Engine.Balance.{poll-balance}
use tiny_coro_lab.Engine.Turns.{handles, one_turn}

-- Coroutine 7 is submitted and resumed: it requests io.
abbrev ran : Worker list_platform echo_program
ran =
    exec_one_task list_platform echo_program
      (record fresh { engine = submit_task list_platform 7 fresh.engine })

-- Its request goes to the ring, and completes.
abbrev polled : Worker list_platform echo_program
polled = poll_submit list_platform echo_program ran

ran_runs :
    (ran.resumed ≡ 7 ∷ [])
    × (ran.engine.num_io_wait_submit ≡ 1)
    × (polled.engine.num_io_running ≡ 0)
    × (length polled.completed ≡ 1)
unfolding exec_one_task submit_task wake_up apply schedule add_io_submit poll_submit do_io_submit
    after_wait finish_batch handle_all handle_cqe_entry
ran_runs = (refl, refl, refl, refl)

fields_apart_example :
    (wake_by_task (3 * task_flag + 0 * io_flag + 5) ≡ ltb 0 3)
    × (wake_by_io (3 * task_flag + 0 * io_flag + 5) ≡ ltb 0 0)
    × (wake_by_cqe (3 * task_flag + 0 * io_flag + 5) ≡ ltb 0 5)
fields_apart_example = fields_apart 3 0 5 (omega arith) (omega arith) (omega arith)

poll-balance_example :
    (polled.engine.num_io_running + length (peeked list_platform ran.engine)
      ≡ ran.engine.num_io_running + ran.engine.num_io_wait_submit)
    × (polled.completed ≡ ran.completed ++ peeked list_platform ran.engine)
unfolding exec_one_task submit_task wake_up apply schedule add_io_submit
poll-balance_example = poll-balance list_platform echo_program ran (omega arith)

first_turn :
    (ran.resumed ≡ [] ++ 7 ∷ [])
    × (list_platform.contents ran.engine.task_queue
        ≡ [] ++ handles (echo_program.resume 7 fresh.store).1)
unfolding submit_task wake_up
first_turn =
    one_turn list_platform echo_program
      (record fresh { engine = submit_task list_platform 7 fresh.engine }) 7 [] refl
