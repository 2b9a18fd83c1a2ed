-- ===== src/Await/Nested.antt =====
-- Coroutines of include/coro/task.hpp that await tasks run as calls do: the task runs to its end, and
-- the coroutine that awaits goes on with its result.
use tiny_coro_lab.Prelude.{
  ℕ, suc, ◌+◌, ◌≡◌, refl, sym, ◌∙◌, ap, subst, some, update_self, update_ne,
}
use tiny_coro_lab.Await.{
  value, exception, Body, co_returns, throws, awaits, yields, runs, finished, Frame, Machine,
  co_await, await_resume, suspend, move, exec, resume,
}
use tiny_coro_lab.Await.Run.{eval, moves, Quiet, Ran, At, exec-add, step-move, finish-Ran}
use tiny_coro_lab.Await.Child.{child-At, rest-At, wakes, await-Ran}

-- A coroutine suspends, and the engine resumes it.
module _ (rest : Body) (h : ℕ) (m : Machine) (a : At (yields rest) h m) where
  abbrev pub back : Machine
  back = resume h (suspend h rest m)

  pub resumed-At : At rest h back
  unfolding resume suspend
  resumed-At = record {
    current = refl;
    code =
        ap (λ (f : Frame). f.code)
          (update_self m.frame h (record (m.frame h) { code = runs rest }));
    real = a.real;
    known = a.known;
    idle = refl;
  }

  pub yield-Ran : (n : Machine) → Ran rest h back n → Ran (yields rest) h m n
  unfolding resume suspend
  yield-Ran n s =
      let here : back.frame h ≡ record (m.frame h) { code = runs rest } =
        update_self m.frame h (record (m.frame h) { code = runs rest }) in
      record {
        at = s.at ∙ ap (λ (f : Frame). f.continuation) here;
        idle = s.idle;
        done =
            s.done
            ∙ ap (λ (f : Frame). record f { code = finished; outcome = some (eval rest) }) here;
        grows = s.grows;
        others = λ g small differs.
            s.others g small differs
            ∙ update_ne m.frame (record (m.frame h) { code = runs rest }) (λ e. differs (sym e));
        freed = s.freed;
      }

-- A coroutine at the start of a body that never suspends, however deep it awaits tasks: after as many
-- moves of the machine as `moves` counts it is at its final suspension with the result that the body
-- has when each `co_await` is a call, its continuation is next, and every frame made meanwhile is
-- destroyed; no frame of another coroutine has changed.
pub awaits_as_calls :
    (b : Body) (h : ℕ) (m : Machine) → Quiet b → At b h m → Ran b h m (exec (moves b) m)
unfolding move exec
awaits_as_calls (co_returns v) h m q a =
    subst (λ n. Ran (co_returns v) h m n)
      (sym (step-move m h (runs (co_returns v)) a.current a.real a.code))
      (finish-Ran (value v) (co_returns v) h m refl a)
awaits_as_calls (throws e) h m q a =
    subst (λ n. Ran (throws e) h m n)
      (sym (step-move m h (runs (throws e)) a.current a.real a.code))
      (finish-Ran (exception e) (throws e) h m refl a)
awaits_as_calls (awaits child k) h m (quiet, quiet') a =
    let m1 = co_await h child k m in
    let m2 = exec (moves child) m1 in
    let m3 = await_resume h m.next_handle k m2 in
    let r = awaits_as_calls child m.next_handle m1 quiet (child-At child k h m m2 a) in
    let s = awaits_as_calls (k (eval child)) h m3 quiet' (rest-At child k h m m2 a r) in
    let last = suc (moves (k (eval child))) in
    let there : exec (moves (awaits child k)) m ≡ exec (moves (k (eval child))) m3 =
      ap (exec (moves child + last)) (step-move m h (runs (awaits child k)) a.current a.real a.code)
      ∙ exec-add (moves child) last m1
      ∙ ap (exec (moves (k (eval child)))) (wakes child k h m m2 a r) in
    subst (λ n. Ran (awaits child k) h m n) (sym there) (await-Ran child k h m m2 a r _ s)
awaits_as_calls (yields rest) h m may a = absurd may
