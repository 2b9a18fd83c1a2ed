-- ===== src/Await/Dangling.antt =====
-- `exec_one_task` of src/engine.cpp asks the handle that it resumed whether it is done. That is right
-- for a coroutine that never suspends under a task, and not for one that does.
use tiny_coro_lab.Prelude.{
  ℕ, suc, ◌+◌, ◌≡◌, refl, sym, ◌∙◌, ap, subst, ◌<◌, ◌≤◌, arith, true, none, some, update,
  update_self, update_ne, if◌then◌else◌, eq_or_ne, inl, inr,
}
use tiny_coro_lab.Await.{
  Result, Body, awaits, yields, finished, gone, Frame, Machine, co_await, await_resume, suspend,
  move, step, exec, resume, clean, after_resume, exec_one_task, made,
}
use tiny_coro_lab.Await.Run.{eval, moves, Quiet, Ran, At, exec-add}
use tiny_coro_lab.Await.Child.{child-At, rest-At, wakes, await-Ran}
use tiny_coro_lab.Await.Nested.{resumed-At, awaits_as_calls, yield-Ran}

made-At : (b : Body) → At b 1 (resume 1 (made b))
unfolding resume
made-At b = record {
  current = refl;
  code = refl;
  real = λ e. absurd (omega (arith, e));
  known = omega arith;
  idle = refl;
}

-- The machine after the frame of `h` is destroyed.
abbrev without_frame : ℕ → Machine → Machine
without_frame h x = record x { frame = update x.frame h (record (x.frame h) { code = gone }) }

settled :
    (n h : ℕ) (m x : Machine)
    → exec n (resume h m) ≡ x
    → (x.frame h).code ≡ finished
    → (x.frame h).detached ≡ true
    → exec_one_task n h m ≡ some (without_frame h x)
unfolding exec_one_task after_resume clean
settled n h m x e done free =
    ap (λ y. after_resume h (y.frame h).code y) e
    ∙ ap (λ c. after_resume h c x) done
    ∙ ap (λ b. some (if b then without_frame h x else x)) free

-- A detached coroutine that never suspends, however deep it awaits tasks: one `exec_one_task` runs it
-- to its end, with the result of its body, and every frame, its own with them, is destroyed.
pub exec_one_task-cleans :
    (b : Body)
    → Quiet b
    → (n : Machine) × (exec_one_task (moves b) 1 (made b) ≡ some n)
      × (n.current ≡ 0)
      × ((n.frame 1).outcome ≡ some (eval b))
      × ((g : ℕ) → 1 ≤ g → g < n.next_handle → (n.frame g).code ≡ gone)
unfolding resume
exec_one_task-cleans b quiet =
    let m = resume 1 (made b) in
    let r = awaits_as_calls b 1 m quiet (made-At b) in
    let x = exec (moves b) m in
    (
      without_frame 1 x,
      settled (moves b) 1 (made b) x refl (ap (λ (f : Frame). f.code) r.done)
          (ap (λ (f : Frame). f.detached) r.done),
      r.at,
      ap (λ (f : Frame). f.outcome)
          (update_self x.frame 1 _ ∙ ap (λ (f : Frame). record f { code = gone }) r.done),
      λ g low high. elim (eq_or_ne 1 g) [
        | inl e ↦
            subst (λ y. (update x.frame 1 (record (x.frame 1) { code = gone }) y).code ≡ gone) e
              refl
        | inr differs ↦
            ap (λ (f : Frame). f.code) (update_ne x.frame _ differs)
            ∙ r.freed g (omega (arith, low, differs)) high
      ],
    )

second :
    (c : Body) (k : Result → Body)
    → Quiet c
    → Quiet (k (eval c))
    → (let m = resume 1 (made (awaits (yields c) k)) in
        let m1 = suspend 2 c (co_await 1 (yields c) k m) in
        let n = exec (moves c + suc (moves (k (eval c)))) (resume 2 m1) in
        Ran (awaits (yields c) k) 1 m n × (3 ≤ n.next_handle))
unfolding resume await_resume co_await suspend exec step
second c k quiet quiet' =
    let root = awaits (yields c) k in
    let m = resume 1 (made root) in
    let a = made-At root in
    let start = co_await 1 (yields c) k m in
    let task_at : (m2 : Machine) → At (yields c) 2 start = λ m2. child-At (yields c) k 1 m m2 a in
    let again = resume 2 (suspend 2 c start) in
    let m2 = exec (moves c) again in
    let inner = awaits_as_calls c 2 again quiet (resumed-At c 2 start (task_at m2)) in
    let r = yield-Ran c 2 start (task_at m2) m2 inner in
    let s = awaits_as_calls (k (eval c)) 1 _ quiet' (rest-At (yields c) k 1 m m2 a r) in
    let last = suc (moves (k (eval c))) in
    let there =
      exec-add (moves c) last again
      ∙ ap (exec (moves (k (eval c)))) (wakes (yields c) k 1 m m2 a r) in
    (
      subst (λ n. Ran root 1 m n) (sym there) (await-Ran (yields c) k 1 m m2 a r _ s),
      subst (λ (n : Machine). 3 ≤ n.next_handle) (sym there) (omega (arith, s.grows, inner.grows)),
    )

-- A detached coroutine awaits a task that suspends once, as on an io request, and nothing suspends
-- after that. The first `exec_one_task` comes back with the task submitted. The second resumes the
-- task: it ends, and so does the coroutine, and the frame of the task is destroyed, so to ask it
-- whether it is done is undefined (`none`); the detached coroutine, which is the one that is done, is
-- not destroyed.
pub exec_one_task-dangling :
    (c : Body) (k : Result → Body)
    → Quiet c
    → Quiet (k (eval c))
    → (m1 : Machine) × (exec_one_task 2 1 (made (awaits (yields c) k)) ≡ some m1)
      × (m1.submitted ≡ 2)
      × (let n = exec (moves c + suc (moves (k (eval c)))) (resume 2 m1) in
          (n.current ≡ 0)
          × ((n.frame 2).code ≡ gone)
          × ((n.frame 1).code ≡ finished)
          × ((n.frame 1).detached ≡ true)
          × ((n.frame 1).outcome ≡ some (eval (k (eval c))))
          × (exec_one_task (moves c + suc (moves (k (eval c)))) 2 m1 ≡ none))
unfolding exec_one_task after_resume exec step move co_await suspend resume
exec_one_task-dangling c k quiet quiet' =
    let root = awaits (yields c) k in
    let m = resume 1 (made root) in
    let m1 = suspend 2 c (co_await 1 (yields c) k m) in
    let n = exec (moves c + suc (moves (k (eval c)))) (resume 2 m1) in
    let (ran, size) = second c k quiet quiet' in
    let lost = ran.freed 2 (omega arith) (omega (arith, size)) in
    (
      m1,
      refl,
      refl,
      (
        ran.at,
        lost,
        ap (λ (f : Frame). f.code) ran.done,
        ap (λ (f : Frame). f.detached) ran.done,
        ap (λ (f : Frame). f.outcome) ran.done,
        ap (λ x. after_resume 2 x n) lost,
      ),
    )
