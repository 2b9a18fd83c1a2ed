-- ===== src/Io/Tests.antt =====
-- Requests of src/io/io_awaiter.cpp on a plain ring, and the theorems at these.
use tiny_coro_lab.Prelude.{
  ℕ, ◌+◌, ◌-◌, ◌^◌, ◌≡◌, ◌≢◌, refl, arith, none, some, List, [], ◌∷◌, ◌++◌, count,
}
use tiny_coro_lab.Engine.{Cqe, Worker, submits, poll_submit, do_io_submit}
use tiny_coro_lab.Engine.Plain.{list_platform, fresh_engine}
use tiny_coro_lab.Io.{io_program, cast_int, cast_data, noop_awaiter_callback}
use tiny_coro_lab.Io.Awaiters.{
  Local, make, get_free_urs, await_suspend, await_resume, read_awaiter, connect_awaiter,
  noop_awaiter,
}
use tiny_coro_lab.Io.Request.{make-Requested, make-full, make-flags, Requested}
use tiny_coro_lab.Context.{Context}
use tiny_coro_lab.Engine.Peeked.{peeked}
use tiny_coro_lab.Io.Result.{co_await-result}
use tiny_coro_lab.Io.Delivery.{Answered, poll-delivers, keys}
use tiny_coro_lab.Io.Plain.{entry_uring, fresh_local, blank_info, idle_resume, no_clean}

-- A socket with the number -1, as an `int`.
abbrev minus_one : ℕ
minus_one = 2 ^ 32 - 1

cast_minus_one : (cast_data minus_one ≡ 2 ^ 64 - 1) × (cast_int (cast_data minus_one) ≡ minus_one)
unfolding cast_data cast_int
cast_minus_one = (refl, refl)

make-Requested_example :
    (t : Local list_platform (entry_uring (some 3))) × (make list_platform
        (entry_uring (some 3))
        (read_awaiter 5 100 64 0 1)
        40
        (fresh_local (some 3))
      ≡ some (3, t))
    × Requested list_platform
        (entry_uring (some 3))
        (read_awaiter 5 100 64 0 1)
        40
        3
        (fresh_local (some 3))
        t
unfolding get_free_urs
make-Requested_example =
    make-Requested list_platform (entry_uring (some 3)) (read_awaiter 5 100 64 0 1) 40 3
      (fresh_local (some 3)) refl

make-flags_run :
    (t : Local list_platform (entry_uring (some 3))) × (make list_platform
        (entry_uring (some 3))
        (read_awaiter 5 100 64 0 1)
        40
        (fresh_local (some 3))
      ≡ some (3, t))
    × ((t.sqes 3).flags ≡ 1)
unfolding get_free_urs
make-flags_run =
    make-flags list_platform (entry_uring (some 3)) (λ p q. refl) (read_awaiter 5 100 64 0 1) 40 3 1
      (fresh_local (some 3)) refl refl

make-full_run : make list_platform (entry_uring none) noop_awaiter 40 (fresh_local none) ≡ none
unfolding get_free_urs
make-full_run = make-full list_platform (entry_uring none) noop_awaiter 40 (fresh_local none) refl

co_await-result_example :
    (t : Local list_platform (entry_uring (some 3))) × (make list_platform
        (entry_uring (some 3))
        (connect_awaiter 5 100 16)
        40
        (fresh_local (some 3))
      ≡ some (3, t))
    × (let u = await_suspend list_platform (entry_uring (some 3)) 9 40 t in
        let cqe : Cqe = record { user_data = (u.sqes 3).user_data; res = 0 } in
        let after = (io_program ℕ idle_resume no_clean).cb cqe (u.infos, 2) in
        (await_resume list_platform (entry_uring (some 3)) 40 (record u { infos = after.0.0 }) ≡ 5)
        × (after.1 ≡ submits 9 ∷ [])
        × ((n : ℕ) → n ≢ 40 → after.0.0 n ≡ t.infos n)
        × (after.0.1 ≡ 2))
unfolding get_free_urs
co_await-result_example =
    co_await-result list_platform (entry_uring (some 3)) ℕ idle_resume no_clean 2
      (connect_awaiter 5 100 16) 40 3 9 0 (fresh_local (some 3)) refl (omega arith)

-- Two requests run, at the addresses 0 and 1, and both complete.
abbrev two_wait : Worker list_platform (io_program ℕ idle_resume no_clean)
two_wait = record {
  engine = record fresh_engine { num_io_running = 2; kernel = 1 };
  store = (λ m. record blank_info { handle = 20 + m; cb = noop_awaiter_callback }, 0);
  resumed = [];
  completed = [];
}

abbrev both : List Cqe
both = record { user_data = 1; res = 0 } ∷ record { user_data = 0; res = 0 } ∷ []

both-peeked : peeked list_platform two_wait.engine ≡ both
unfolding do_io_submit
both-peeked = refl

poll-delivers_run :
    (let v = poll_submit list_platform (io_program ℕ idle_resume no_clean) two_wait in
      Answered two_wait.store.0 v.store.0 both
      × ((n : ℕ) → count n (keys both) ≡ 0 → v.store.0 n ≡ two_wait.store.0 n)
      × (v.engine.task_queue ≡ [] ++ 21 ∷ 20 ∷ []))
unfolding do_io_submit
poll-delivers_run =
    poll-delivers ℕ idle_resume no_clean list_platform two_wait (λ n. ground arith)
      (refl, (refl, tt))

-- Coroutine 7 is queued as well.
abbrev two_wait_context : Context list_platform (io_program ℕ idle_resume no_clean)
two_wait_context = record {
  worker = record two_wait { engine = record two_wait.engine { task_queue = 7 ∷ [] } };
  num_wait_task = 0;
}
