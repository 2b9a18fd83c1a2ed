-- ===== src/Engine/Turns.antt =====
-- The tasks of src/engine.cpp: those queued are resumed once each, in the order of the queue.
use tiny_coro_lab.Prelude.{
  ℕ, ◌≡◌, refl, sym, ◌∙◌, ap, List, [], ◌∷◌, ◌++◌, append-nil, append_assoc,
}
use tiny_coro_lab.Engine.{
  Platform, Program, Effect, submits, requests_io, registers, unregisters, Engine, Worker, apply,
  submit_task, wake_up, add_io_submit, schedule, exec_one_task,
}

-- The handles that the effects submit.
abbrev pub handles : List Effect → List ℕ
handles [] = []
handles (submits h ∷ l) = h ∷ handles l
handles (requests_io ∷ l) = handles l
handles (registers cnt ∷ l) = handles l
handles (unregisters cnt ∷ l) = handles l

pub apply-contents :
    (P : Platform) (l : List Effect) (e : Engine P)
    → P.contents (apply P l e).task_queue ≡ P.contents e.task_queue ++ handles l
unfolding apply submit_task wake_up add_io_submit
apply-contents P [] e = sym (append-nil (P.contents e.task_queue))
apply-contents P (submits h ∷ l) e =
    apply-contents P l (submit_task P h e)
    ∙ ap (λ q. q ++ handles l) (P.contents-push h e.task_queue)
    ∙ append_assoc (P.contents e.task_queue) (h ∷ []) (handles l)
apply-contents P (requests_io ∷ l) e = apply-contents P l (add_io_submit P e)
apply-contents P (registers cnt ∷ l) e = apply-contents P l e
apply-contents P (unregisters cnt ∷ l) e = apply-contents P l e

module _ (P : Platform) (G : Program) where
  -- `exec_one_task` resumes the head of a queue that is not empty, and leaves behind it the rest, and
  -- then what the task has submitted.
  pub one_turn :
      (w : Worker P G) (h : ℕ) (hs : List ℕ)
      → P.contents w.engine.task_queue ≡ h ∷ hs
      → ((exec_one_task P G w).resumed ≡ w.resumed ++ h ∷ [])
        × (P.contents (exec_one_task P G w).engine.task_queue
            ≡ hs ++ handles (G.resume h w.store).1)
  unfolding exec_one_task schedule
  one_turn w h hs e =
      let (at, rest) = P.contents-pop w.engine.task_queue h hs e in
      let q = (P.pop w.engine.task_queue).1 in
      (
        rw at refl,
        rw at (
            apply-contents P (G.resume h w.store).1 (record w.engine { task_queue = q })
            ∙ ap (λ l. l ++ handles (G.resume h w.store).1) rest),
      )
