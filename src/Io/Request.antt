-- ===== src/Io/Request.antt =====
-- A request from the constructor of its awaiter to the value of the `co_await`
-- (src/io/io_awaiter.cpp, include/coro/io/base_awaiter.hpp).
use tiny_coro_lab.Prelude.{
  ℕ, ◌+◌, ◌%◌, ◌≡◌, refl, ◌∙◌, ap, Option, none, some, update, update_self, ◌==◌, eqb_refl,
  if◌then◌else◌,
}
use mathlib.Core.Option.{none-ne-some, some-injective}
use tiny_coro_lab.Contexts.{size_mod}
use tiny_coro_lab.Engine.{Platform, add_io_submit}
use tiny_coro_lab.Io.{
  Prep, Uring, prep_nop, prep_read, prep_accept, prep_recv, prep_send, prep_close, prep_connect,
  prep_timeout, minus_etime, stdin_fileno,
}
use tiny_coro_lab.Io.Awaiters.{
  Awaiter, noop_awaiter, stdin_awaiter, accept_awaiter, read_awaiter, write_awaiter, close_awaiter,
  connect_awaiter, timer_awaiter, Local, get_free_urs, base_io_awaiter, make, make_noop, make_stdin,
  make_accept, make_read, make_write, make_close, make_connect, make_timer,
}

-- What an awaiter asks of the kernel.
abbrev pub request_of : Awaiter → Prep
request_of noop_awaiter = prep_nop
request_of (stdin_awaiter buf len io_flag sqe_flag) = prep_read 0 buf len io_flag
request_of (accept_awaiter fd io_flag sqe_flag) = prep_accept fd io_flag
request_of (read_awaiter fd buf len io_flag sqe_flag) = prep_recv fd buf len io_flag
request_of (write_awaiter fd buf len io_flag sqe_flag) = prep_send fd buf len io_flag
request_of (close_awaiter fd) = prep_close fd
request_of (connect_awaiter fd addr addrlen) = prep_connect fd addr addrlen
request_of (timer_awaiter ts count flags) = prep_timeout ts count flags

-- The flags that the entry of an awaiter is to have; nothing is said of one that sets none.
abbrev pub sqe_flag_of : Awaiter → Option ℕ
sqe_flag_of noop_awaiter = none
sqe_flag_of (stdin_awaiter buf len io_flag sqe_flag) = some sqe_flag
sqe_flag_of (accept_awaiter fd io_flag sqe_flag) = some sqe_flag
sqe_flag_of (read_awaiter fd buf len io_flag sqe_flag) = some sqe_flag
sqe_flag_of (write_awaiter fd buf len io_flag sqe_flag) = some sqe_flag
sqe_flag_of (close_awaiter fd) = none
sqe_flag_of (connect_awaiter fd addr addrlen) = none
sqe_flag_of (timer_awaiter ts count flags) = none

-- The value of a `co_await` whose completion has the result `res`: a connection gives the socket, or
-- the error; a timer that has run out is no error; any other request gives the kernel's result.
abbrev pub result_of : Awaiter → ℕ → ℕ
result_of (connect_awaiter fd addr addrlen) res = if res == 0 then fd else res
result_of (timer_awaiter ts count flags) res = if res == minus_etime then 0 else res
result_of other res = res

-- The socket that a connection is made on.
abbrev pub socket_of : Awaiter → ℕ
socket_of (connect_awaiter fd addr addrlen) = fd
socket_of other = 0

module _ (P : Platform) (U : Uring P) where
  pub free-base :
      (s : Local P U) (urs : ℕ)
      → (get_free_urs P U s.engine).0 ≡ some urs
      → base_io_awaiter P U s ≡ some (urs, record s { engine = (get_free_urs P U s.engine).1 })
  unfolding base_io_awaiter
  free-base s urs h = rw h refl

  full-base : (s : Local P U) → (get_free_urs P U s.engine).0 ≡ none → base_io_awaiter P U s ≡ none
  unfolding base_io_awaiter
  full-base s h = rw h refl

  -- With no free entry an awaiter is not made: the assertion of the base class ends the program.
  pub make-full :
      (a : Awaiter) (m : ℕ) (s : Local P U)
      → (get_free_urs P U s.engine).0 ≡ none
      → make P U a m s ≡ none
  unfolding make make_noop make_stdin make_accept make_read make_write make_close make_connect
      make_timer
  make-full noop_awaiter m s h = rw (full-base s h) refl
  make-full (stdin_awaiter buf len io_flag sqe_flag) m s h = rw (full-base s h) refl
  make-full (accept_awaiter fd io_flag sqe_flag) m s h = rw (full-base s h) refl
  make-full (read_awaiter fd buf len io_flag sqe_flag) m s h = rw (full-base s h) refl
  make-full (write_awaiter fd buf len io_flag sqe_flag) m s h = rw (full-base s h) refl
  make-full (close_awaiter fd) m s h = rw (full-base s h) refl
  make-full (connect_awaiter fd addr addrlen) m s h = rw (full-base s h) refl
  make-full (timer_awaiter ts count flags) m s h = rw (full-base s h) refl

  -- The entry `urs` after the last calls of a constructor, when it was `q` before them.
  last_calls :
      (sqes : ℕ → U.Sqe) (urs m : ℕ) (p : Prep)
      → (let after = update sqes urs (U.prep p (sqes urs)) in
          let final = update after urs (U.set_data m (after urs)) in
          (U.request (final urs) ≡ p)
          × (U.user_data (final urs) ≡ m)
          × (((p : Prep) (q : U.Sqe) → U.flags (U.prep p q) ≡ U.flags q)
              → U.flags (final urs) ≡ U.flags (sqes urs)))
  last_calls sqes urs m p = rw (eqb_refl urs) (
    U.set_data-request m _ ∙ U.prep-request p _,
    U.set_data-user_data m _,
    λ keeps. U.set_data-flags m _ ∙ keeps p _,
  )

  -- The entry `urs` after the last two calls, when `q` stood there before them.
  abbrev final : (ℕ → U.Sqe) → (urs m : ℕ) → Prep → U.Sqe
  final sqes urs m p =
      let after = update sqes urs (U.prep p (sqes urs)) in
      update after urs (U.set_data m (after urs)) urs

  abbrev pub Keeps : Type 0
  Keeps = (p : Prep) (q : U.Sqe) → U.flags (U.prep p q) ≡ U.flags q

  unflagged :
      (sqes : ℕ → U.Sqe) (urs m : ℕ) (p : Prep)
      → (U.request (final sqes urs m p) ≡ p)
        × (U.user_data (final sqes urs m p) ≡ m)
        × (Keeps → (f : ℕ) → none ≡ some f → U.flags (final sqes urs m p) ≡ f)
  unflagged sqes urs m p =
      let (r, d, _) = last_calls sqes urs m p in (r, d, λ keeps f e. absurd (none-ne-some f e))

  flagged :
      (sqes : ℕ → U.Sqe) (urs m sqe_flag : ℕ) (p : Prep)
      → (let with_flags = update sqes urs (U.set_flags sqe_flag (sqes urs)) in
          (U.request (final with_flags urs m p) ≡ p)
          × (U.user_data (final with_flags urs m p) ≡ m)
          × (Keeps → (f : ℕ) → some sqe_flag ≡ some f → U.flags (final with_flags urs m p) ≡ f))
  flagged sqes urs m sqe_flag p =
      let with_flags = update sqes urs (U.set_flags sqe_flag (sqes urs)) in
      let (r, d, flag) = last_calls with_flags urs m p in
      (
        r,
        d,
        λ keeps f e.
            flag keeps
            ∙ ap U.flags (update_self sqes urs _)
            ∙ U.set_flags-flags sqe_flag _
            ∙ some-injective sqe_flag f e,
      )

  -- The request of `a`, whose `io_info` is at `m`, in the entry `urs` of `t`; and one more request to
  -- submit than in `s`.
  abbrev pub Requested : Awaiter → (m urs : ℕ) → Local P U → Local P U → Type 0
  Requested a m urs s t =
      (U.request (t.sqes urs) ≡ request_of a)
      × (U.user_data (t.sqes urs) ≡ m)
      × (t.engine.num_io_wait_submit ≡ (s.engine.num_io_wait_submit + 1) % size_mod)

  make_lem :
      (a : Awaiter) (m urs : ℕ) (s : Local P U)
      → (get_free_urs P U s.engine).0 ≡ some urs
      → (t : Local P U) × (make P U a m s ≡ some (urs, t))
        × Requested a m urs s t
        × (Keeps → (f : ℕ) → sqe_flag_of a ≡ some f → U.flags (t.sqes urs) ≡ f)
  unfolding make make_noop make_stdin make_accept make_read make_write make_close make_connect
      make_timer get_free_urs add_io_submit
  make_lem noop_awaiter m urs s h =
      let (r, d, flag) = unflagged s.sqes urs m prep_nop in
      rw (free-base s urs h) (_, refl, (r, d, refl), flag)
  make_lem (stdin_awaiter buf len io_flag sqe_flag) m urs s h =
      let (r, d, flag) = flagged s.sqes urs m sqe_flag (prep_read stdin_fileno buf len io_flag) in
      rw (free-base s urs h) (_, refl, (r, d, refl), flag)
  make_lem (accept_awaiter fd io_flag sqe_flag) m urs s h =
      let (r, d, flag) = flagged s.sqes urs m sqe_flag (prep_accept fd io_flag) in
      rw (free-base s urs h) (_, refl, (r, d, refl), flag)
  make_lem (read_awaiter fd buf len io_flag sqe_flag) m urs s h =
      let (r, d, flag) = flagged s.sqes urs m sqe_flag (prep_recv fd buf len io_flag) in
      rw (free-base s urs h) (_, refl, (r, d, refl), flag)
  make_lem (write_awaiter fd buf len io_flag sqe_flag) m urs s h =
      let (r, d, flag) = flagged s.sqes urs m sqe_flag (prep_send fd buf len io_flag) in
      rw (free-base s urs h) (_, refl, (r, d, refl), flag)
  make_lem (close_awaiter fd) m urs s h =
      let (r, d, flag) = unflagged s.sqes urs m (prep_close fd) in
      rw (free-base s urs h) (_, refl, (r, d, refl), flag)
  make_lem (connect_awaiter fd addr addrlen) m urs s h =
      let (r, d, flag) = unflagged s.sqes urs m (prep_connect fd addr addrlen) in
      rw (free-base s urs h) (_, refl, (r, d, refl), flag)
  make_lem (timer_awaiter ts count flags) m urs s h =
      let (r, d, flag) = unflagged s.sqes urs m (prep_timeout ts count flags) in
      rw (free-base s urs h) (_, refl, (r, d, refl), flag)

  -- With a free entry an awaiter is made: its entry holds the request, with the address of its
  -- `io_info`, and the engine counts one more request to submit.
  pub make-Requested :
      (a : Awaiter) (m urs : ℕ) (s : Local P U)
      → (get_free_urs P U s.engine).0 ≡ some urs
      → (t : Local P U) × (make P U a m s ≡ some (urs, t)) × Requested a m urs s t
  make-Requested a m urs s free =
      let (t, e, requested, flag) = make_lem a m urs s free in (t, e, requested)

  -- If preparing a request keeps the flags that were set before, the entry of an awaiter has the
  -- flags that it was given.
  pub make-flags :
      Keeps
      → (a : Awaiter) (m urs f : ℕ) (s : Local P U) → (get_free_urs P U s.engine).0 ≡ some urs
      → sqe_flag_of a ≡ some f
      → (t : Local P U) × (make P U a m s ≡ some (urs, t)) × (U.flags (t.sqes urs) ≡ f)
  make-flags keeps a m urs f s free given =
      let (t, e, requested, flag) = make_lem a m urs s free in (t, e, flag keeps f given)
