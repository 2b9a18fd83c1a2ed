-- ===== src/Engine/Balance.antt =====
-- The counts of the io requests of src/engine.cpp.
use tiny_coro_lab.Prelude.{
  ℕ, ◌+◌, ◌≡◌, refl, sym, ◌∙◌, ◌<◌, ◌≤◌, arith, ltb, List, [], ◌∷◌, ◌++◌, length, append-nil,
  append_assoc, Bool-cases, inl, inr,
}
use tiny_coro_lab.Contexts.{size_mod}
use tiny_coro_lab.Engine.Peeked.{found, peeked}
use tiny_coro_lab.Engine.{
  Platform, Program, Cqe, Effect, submits, requests_io, registers, unregisters, Engine, Worker,
  wake_by_cqe, apply, submit_task, wake_up, add_io_submit, do_io_submit, handle_cqe_entry,
  handle_all, finish_batch, after_wait, poll_submit,
}

-- What a callback does leaves the count of the running requests as it is.
apply-running :
    (P : Platform) (l : List Effect) (e : Engine P)
    → (apply P l e).num_io_running ≡ e.num_io_running
unfolding apply submit_task wake_up add_io_submit
apply-running P [] e = refl
apply-running P (submits h ∷ l) e = apply-running P l (submit_task P h e)
apply-running P (requests_io ∷ l) e = apply-running P l (add_io_submit P e)
apply-running P (registers cnt ∷ l) e = apply-running P l e
apply-running P (unregisters cnt ∷ l) e = apply-running P l e

module _ (P : Platform) (G : Program) where
  handle_all-running :
      (l : List Cqe) (w : Worker P G)
      → (handle_all P G l w).engine.num_io_running ≡ w.engine.num_io_running
  unfolding handle_all handle_cqe_entry
  handle_all-running [] w = refl
  handle_all-running (x ∷ l) w =
      handle_all-running l (handle_cqe_entry P G x w) ∙ apply-running P (G.cb x w.store).1 w.engine

  handle_all-completed :
      (l : List Cqe) (w : Worker P G) → (handle_all P G l w).completed ≡ w.completed ++ l
  unfolding handle_all handle_cqe_entry
  handle_all-completed [] w = sym (append-nil w.completed)
  handle_all-completed (x ∷ l) w =
      handle_all-completed l (handle_cqe_entry P G x w) ∙ append_assoc w.completed (x ∷ []) l

  finish-batch :
      (l : List Cqe) (w : Worker P G)
      → length l ≤ w.engine.num_io_running
      → w.engine.num_io_running < size_mod
      → ((finish_batch P G l w).engine.num_io_running + length l ≡ w.engine.num_io_running)
        × ((finish_batch P G l w).completed ≡ w.completed ++ l)
  unfolding finish_batch
  finish-batch [] w le small = (omega arith, sym (append-nil w.completed))
  finish-batch (x ∷ l) w le small =
      (omega (arith, handle_all-running (x ∷ l) w, le, small), handle_all-completed (x ∷ l) w)

  submitted :
      (e : Engine P)
      → e.num_io_running + e.num_io_wait_submit < size_mod
      → (do_io_submit P e).num_io_running ≡ e.num_io_running + e.num_io_wait_submit
  unfolding do_io_submit
  submitted e small = elim (Bool-cases (ltb 0 e.num_io_wait_submit)) [
    | inl some ↦ rw some (omega arith)
    | inr none ↦ rw none (ground arith)
  ]

  waited :
      (cnt : ℕ) (w : Worker P G)
      → w.engine.num_io_running < size_mod
      → ((after_wait P G cnt w).engine.num_io_running + length (found P cnt w.engine)
          ≡ w.engine.num_io_running)
        × ((after_wait P G cnt w).completed ≡ w.completed ++ found P cnt w.engine)
  unfolding after_wait
  waited cnt w small = elim (Bool-cases (wake_by_cqe cnt)) [
    | inl yes_cqe ↦
        let batch = (P.peek_batch_cqe w.engine.num_io_running w.engine.kernel).0 in
        let k = (P.peek_batch_cqe w.engine.num_io_running w.engine.kernel).1 in
        let done =
          finish-batch batch (record w { engine = record w.engine { kernel = k } })
            (P.peek-at_most w.engine.num_io_running w.engine.kernel) small in
        rw yes_cqe (done.0, done.1)
    | inr no_cqe ↦ rw no_cqe (omega arith, sym (append-nil w.completed))
  ]

  -- One `poll_submit` hands the waiting requests to the ring and handles the completions that it finds
  -- there by `peek_batch_cqe`, each once and in the order of the ring: the running requests are then
  -- those that ran or waited before, less those completions. The subtraction does not pass zero. The
  -- two counts fit a `size_t`.
  pub poll-balance :
      (w : Worker P G)
      → w.engine.num_io_running + w.engine.num_io_wait_submit < size_mod
      → ((poll_submit P G w).engine.num_io_running + length (peeked P w.engine)
          ≡ w.engine.num_io_running + w.engine.num_io_wait_submit)
        × ((poll_submit P G w).completed ≡ w.completed ++ peeked P w.engine)
  unfolding poll_submit
  poll-balance w small =
      let e = do_io_submit P w.engine in
      let k = P.wait_eventfd e.kernel in
      let sum = submitted w.engine small in
      let (left, log) =
        waited k.0 (record w { engine = record e { kernel = k.1 } }) (omega (arith, sum)) in
      (left ∙ sum, log)
