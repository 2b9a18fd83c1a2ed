-- ===== src/Await/Tests.antt =====
-- Coroutines that await tasks, run by the moves of include/coro/task.hpp, and the theorems at them.
use tiny_coro_lab.Prelude.{ℕ, suc, ◌+◌, ◌≡◌, ◌≤◌, ◌<◌, refl, arith, true, none, some}
use tiny_coro_lab.Await.{
  Result, value, exception, Body, co_returns, throws, awaits, yields, finished, gone, Machine, exec,
  resume, exec_one_task, made,
}
use tiny_coro_lab.Await.Run.{eval, moves, Ran, At}
use tiny_coro_lab.Await.Nested.{awaits_as_calls}
use tiny_coro_lab.Await.Dangling.{exec_one_task-cleans, exec_one_task-dangling}

-- What follows an await: a result that is a value is given back one larger, an exception is caught.
abbrev next : Result → Body
next (value v) = co_returns (v + 1)
next (exception e) = co_returns 0

-- A task that itself awaits a task, which throws.
abbrev nested : Body
nested = awaits (awaits (throws 9) next) next

nested-eval : (eval nested ≡ value 1) × (moves nested ≡ 7)
nested-eval = (refl, refl)

-- The same with a suspension on the way.
abbrev suspending : Body
suspending = awaits (yields (co_returns 3)) next

nested-At : At nested 1 (resume 1 (made nested))
unfolding resume
nested-At = record {
  current = refl;
  code = refl;
  real = λ e. absurd (omega (arith, e));
  known = omega arith;
  idle = refl;
}

awaits_as_calls_example :
    Ran nested 1 (resume 1 (made nested)) (exec (moves nested) (resume 1 (made nested)))
awaits_as_calls_example = awaits_as_calls nested 1 (resume 1 (made nested)) ((tt, tt), tt) nested-At

exec_one_task-cleans_example :
    (n : Machine) × (exec_one_task (moves nested) 1 (made nested) ≡ some n)
    × (n.current ≡ 0)
    × ((n.frame 1).outcome ≡ some (eval nested))
    × ((g : ℕ) → 1 ≤ g → g < n.next_handle → (n.frame g).code ≡ gone)
exec_one_task-cleans_example = exec_one_task-cleans nested ((tt, tt), tt)

exec_one_task-dangling_example :
    (m1 : Machine) × (exec_one_task 2 1 (made suspending) ≡ some m1)
    × (m1.submitted ≡ 2)
    × (let n = exec (moves (co_returns 3) + suc (moves (next (value 3)))) (resume 2 m1) in
        (n.current ≡ 0)
        × ((n.frame 2).code ≡ gone)
        × ((n.frame 1).code ≡ finished)
        × ((n.frame 1).detached ≡ true)
        × ((n.frame 1).outcome ≡ some (value 4))
        × (exec_one_task (moves (co_returns 3) + suc (moves (next (value 3)))) 2 m1 ≡ none))
exec_one_task-dangling_example = exec_one_task-dangling (co_returns 3) next tt tt
