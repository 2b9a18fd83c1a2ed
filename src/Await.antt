-- ===== src/Await.antt =====
-- include/coro/task.hpp with `exec_one_task` of src/engine.cpp: coroutines that `co_await` tasks. A
-- coroutine is what it does next; a frame is named by its handle, and the null handle is 0.
pub mod Run
pub mod Child
pub mod Nested
pub mod Dangling
mod Tests
use tiny_coro_lab.Prelude.{
  ℕ, zero, suc, ◌+◌, Bool, true, false, Option, none, some, update, ◌==◌, if◌then◌else◌,
}

-- What the container of a promise holds.
pub data Result : Type 0 where
  value : ℕ → Result
  exception : ℕ → Result

-- The body of a coroutine. What follows a `co_await` of a task is given the result of the task: a
-- body that does not catch throws an exception on. `yields` is a suspension until the engine resumes
-- the coroutine, as on an io request.
pub data Body : Type 0 where
  co_returns : ℕ → Body
  throws : ℕ → Body
  awaits : (child : Body) → (Result → Body) → Body
  yields : Body → Body

-- Where the coroutine of a frame is: at a place of its body, suspended on a task, or at its final
-- suspension; or the frame is destroyed.
pub data Code : Type 0 where
  runs : Body → Code
  waits : (child : ℕ) → (Result → Body) → Code
  finished : Code
  gone : Code

pub record Frame : Type 0 where
  pub code : Code
  pub continuation : ℕ
  pub detached : Bool
  pub outcome : Option Result

-- `current` is the coroutine that runs, or 0 when the thread is back in the engine; `submitted` is
-- the coroutine that waits for the engine, or 0.
pub record Machine : Type 0 where
  pub frame : ℕ → Frame
  pub next_handle : ℕ
  pub current : ℕ
  pub submitted : ℕ

-- `return_value` or `unhandled_exception`, and the final awaiter: control goes to the continuation,
-- or back to the engine.
pub finish : ℕ → Result → Machine → Machine
finish h r m = record m {
  frame = update m.frame h (record (m.frame h) { code = finished; outcome = some r });
  current = (m.frame h).continuation;
}

-- A task is made, and awaited: it is suspended at its start, so it is not ready; it gets the
-- continuation, and control.
pub co_await : ℕ → Body → (Result → Body) → Machine → Machine
co_await h child k m =
    let task : Frame = record {
      code = runs child;
      continuation = h;
      detached = false;
      outcome = none;
    } in
    let suspended = record (m.frame h) { code = waits m.next_handle k } in
    record m {
      frame = update (update m.frame h suspended) m.next_handle task;
      next_handle = m.next_handle + 1;
      current = m.next_handle;
    }

-- `result` of a container; one that is not set throws as well.
abbrev pub result : Option Result → Result
result none = exception 0
result (some r) = r

-- `await_resume`, and the end of the task, which destroys its frame.
pub await_resume : ℕ → ℕ → (Result → Body) → Machine → Machine
await_resume h child k m =
    let freed = record (m.frame child) { code = gone } in
    let goes_on = record (m.frame h) { code = runs (k (result (m.frame child).outcome)) } in
    record m { frame = update (update m.frame child freed) h goes_on }

pub suspend : ℕ → Body → Machine → Machine
suspend h rest m = record m {
  frame = update m.frame h (record (m.frame h) { code = runs rest });
  current = 0;
  submitted = h;
}

pub move : ℕ → Code → Machine → Machine
unfolding finish co_await await_resume suspend
move h (runs (co_returns v)) m = finish h (value v) m
move h (runs (throws e)) m = finish h (exception e) m
move h (runs (awaits child k)) m = co_await h child k m
move h (runs (yields rest)) m = suspend h rest m
move h (waits child k) m = await_resume h child k m
move h finished m = m
move h gone m = m

-- One move of the coroutine that runs, if any.
pub step : Machine → Machine
unfolding move
step m = if m.current == 0 then m else move m.current (m.frame m.current).code m

pub exec : ℕ → Machine → Machine
unfolding step
exec zero m = m
exec (suc n) m = exec n (step m)

pub resume : ℕ → Machine → Machine
resume h m = record m { current = h; submitted = 0 }

-- A detached frame is destroyed.
pub clean : ℕ → Machine → Machine
clean h m =
    if (m.frame h).detached
    then record m { frame = update m.frame h (record (m.frame h) { code = gone }) }
    else m

-- `if (coro.done()) clean(coro)`: to ask a frame that is destroyed is undefined.
pub after_resume : ℕ → Code → Machine → Option Machine
unfolding clean
after_resume h gone m = none
after_resume h finished m = some (clean h m)
after_resume h (runs b) m = some m
after_resume h (waits child k) m = some m

-- `exec_one_task` with the handle of the queue; it runs for so many moves.
pub exec_one_task : (moves : ℕ) → ℕ → Machine → Option Machine
unfolding exec resume after_resume
exec_one_task moves h m = let m2 = exec moves (resume h m) in after_resume h (m2.frame h).code m2

-- A detached coroutine that is made and submitted: it has the handle 1, and there is no other frame.
abbrev pub made : Body → Machine
made b = record {
  frame =
      update (λ h. record { code = gone; continuation = 0; detached = false; outcome = none }) 1
        (record { code = runs b; continuation = 0; detached = true; outcome = none });
  next_handle = 2;
  current = 0;
  submitted = 1;
}
