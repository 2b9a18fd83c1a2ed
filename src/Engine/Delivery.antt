-- ===== src/Engine/Delivery.antt =====
-- The completions that `poll_submit` of src/engine.cpp handles: their callbacks run in the order of
-- the ring, and what these submit is queued in that order.
use tiny_coro_lab.Prelude.{
  ◌≡◌, refl, sym, ◌∙◌, ap, arith, List, [], ◌∷◌, ◌++◌, append-nil, append_assoc, Bool-cases, inl,
  inr,
}
use tiny_coro_lab.Engine.Peeked.{peeked}
use tiny_coro_lab.Engine.{
  Platform, Program, Cqe, Effect, submits, requests_io, registers, unregisters, Engine, Worker,
  wake_by_cqe, do_io_submit, handle_cqe_entry, handle_all, finish_batch, after_wait, poll_submit,
}
use tiny_coro_lab.Engine.Turns.{handles, apply-contents}

handles-append : (l m : List Effect) → handles (l ++ m) ≡ handles l ++ handles m
handles-append [] m = refl
handles-append (submits h ∷ l) m = ap (λ t. h ∷ t) (handles-append l m)
handles-append (requests_io ∷ l) m = handles-append l m
handles-append (registers cnt ∷ l) m = handles-append l m
handles-append (unregisters cnt ∷ l) m = handles-append l m

-- The callbacks of a batch, one after the other: the state that they leave, and all their effects.
abbrev pub run_callbacks : (G : Program) → List Cqe → G.Store → G.Store × List Effect
run_callbacks G [] st = (st, [])
run_callbacks G (c ∷ l) st =
    let here = G.cb c st in let rest = run_callbacks G l here.0 in (rest.0, here.1 ++ rest.1)

module _ (P : Platform) (G : Program) where
  -- A worker that has handled a batch since it was `w`.
  abbrev pub Delivered : List Cqe → Worker P G → Worker P G → Type 0
  Delivered l w v =
      (v.resumed ≡ w.resumed)
      × (v.completed ≡ w.completed ++ l)
      × (v.store ≡ (run_callbacks G l w.store).0)
      × (P.contents v.engine.task_queue
          ≡ P.contents w.engine.task_queue ++ handles (run_callbacks G l w.store).1)

  nothing-Delivered :
      (w v : Worker P G)
      → v.resumed ≡ w.resumed
      → v.completed ≡ w.completed
      → v.store ≡ w.store
      → v.engine.task_queue ≡ w.engine.task_queue
      → Delivered [] w v
  nothing-Delivered w v r c s q =
      (r, c ∙ sym (append-nil w.completed), s, ap P.contents q ∙ sym (append-nil _))

  handle_all-Delivered : (l : List Cqe) (w : Worker P G) → Delivered l w (handle_all P G l w)
  unfolding handle_all handle_cqe_entry
  handle_all-Delivered [] w = nothing-Delivered w w refl refl refl refl
  handle_all-Delivered (c ∷ l) w =
      let here = (G.cb c w.store).1 in
      let (log, done, st, q) = handle_all-Delivered l (handle_cqe_entry P G c w) in
      (
        log,
        done ∙ append_assoc w.completed (c ∷ []) l,
        st,
        q
            ∙ ap (λ t. t ++ handles (run_callbacks G l (G.cb c w.store).0).1)
                (apply-contents P here w.engine)
            ∙ append_assoc (P.contents w.engine.task_queue) (handles here) _
            ∙ ap (λ t. P.contents w.engine.task_queue ++ t) (sym (handles-append here _)),
      )

  finish_batch-Delivered : (l : List Cqe) (w : Worker P G) → Delivered l w (finish_batch P G l w)
  unfolding finish_batch
  finish_batch-Delivered [] w = nothing-Delivered w w refl refl refl refl
  finish_batch-Delivered (c ∷ l) w = handle_all-Delivered (c ∷ l) w

  do_io_submit-queue : (e : Engine P) → (do_io_submit P e).task_queue ≡ e.task_queue
  unfolding do_io_submit
  do_io_submit-queue e = ground arith

  -- Whatever `poll_submit` peeks in the ring, its callbacks run once each and in the order of the
  -- ring, and what they submit is queued behind what was queued, in that order.
  pub poll_submit-Delivered : (w : Worker P G) → Delivered (peeked P w.engine) w (poll_submit P G w)
  unfolding poll_submit after_wait
  poll_submit-Delivered w =
      let e = do_io_submit P w.engine in
      let cnt = (P.wait_eventfd e.kernel).0 in
      let v : Worker P G = record w {
        engine = record e { kernel = (P.wait_eventfd e.kernel).1 };
      } in
      let same = ap P.contents (do_io_submit-queue w.engine) in
      elim (Bool-cases (wake_by_cqe cnt)) [
        | inl yes_cqe ↦
            let batch = (P.peek_batch_cqe e.num_io_running v.engine.kernel).0 in
            let k = (P.peek_batch_cqe e.num_io_running v.engine.kernel).1 in
            let (log, done, st, q) =
              finish_batch-Delivered batch (record v { engine = record v.engine { kernel = k } }) in
            rw yes_cqe
              (log, done, st, q ∙ ap (λ t. t ++ handles (run_callbacks G batch w.store).1) same)
        | inr no_cqe ↦
            rw no_cqe (nothing-Delivered w v refl refl refl (do_io_submit-queue w.engine))
      ]
