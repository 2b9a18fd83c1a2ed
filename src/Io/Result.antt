-- ===== src/Io/Result.antt =====
-- The value of a `co_await` on an io request (src/io/io_awaiter.cpp): from the constructor of the
-- awaiter through the completion of its request to `await_resume`.
use tiny_coro_lab.Prelude.{
  ℕ, ◌^◌, ◌≡◌, refl, sym, ◌∙◌, ap, ◌<◌, some, List, [], ◌∷◌, ◌≢◌, subst, Bool, Bool-cases, inl, inr,
  eqb_ne, ◌==◌, not, eqb_refl, if◌then◌else◌,
}
use mathlib.Core.Option.{some-injective}
use tiny_coro_lab.Engine.{Platform, Cqe, Effect, submits}
use tiny_coro_lab.Io.{
  IoInfo, Uring, cast_data, cast_int, call, io_program, noop_callback, stdin_callback,
  accept_callback, read_callback, write_callback, close_callback, connect_callback, timer_callback,
}
use tiny_coro_lab.Io.Awaiters.{
  Awaiter, noop_awaiter, stdin_awaiter, accept_awaiter, read_awaiter, write_awaiter, close_awaiter,
  connect_awaiter, timer_awaiter, Local, get_free_urs, make, make_noop, make_stdin, make_accept,
  make_read, make_write, make_close, make_connect, make_timer, await_suspend, await_resume,
}
use tiny_coro_lab.Io.Cast.{cast_int-cast_data}
use tiny_coro_lab.Io.Request.{result_of, socket_of, free-base, make-Requested}

-- Whatever else its fields are, the callback of `info` stores what the request `a` gives.
abbrev Answers : Awaiter → IoInfo → Type 0
Answers a info =
    (h res : ℕ)
    → (let after = call info.cb (record info { handle = h }) res in
        (after.0.result ≡ result_of a res) × (after.1 ≡ submits h ∷ []))

connected :
    (fd res : ℕ)
    → fd < 2 ^ 32
    → (if not (res == 0) then res else cast_int (cast_data fd)) ≡ (if res == 0 then fd else res)
connected fd res fits = elim (Bool-cases (res == 0)) [
  | inl ok ↦ rw ok (cast_int-cast_data fd fits)
  | inr failed ↦ rw failed refl
]

module _ (P : Platform) (U : Uring P) where
  make-Answers :
      (a : Awaiter) (m urs : ℕ) (s : Local P U)
      → (get_free_urs P U s.engine).0 ≡ some urs
      → socket_of a < 2 ^ 32
      → (t : Local P U) × (make P U a m s ≡ some (urs, t)) × Answers a (t.infos m)
  unfolding make make_noop make_stdin make_accept make_read make_write make_close make_connect
      make_timer call noop_callback stdin_callback accept_callback read_callback write_callback
      close_callback connect_callback timer_callback
  make-Answers noop_awaiter m urs s h fits =
      rw (free-base P U s urs h) (_, refl, λ h res. rw (eqb_refl m) (refl, refl))
  make-Answers (stdin_awaiter buf len io_flag sqe_flag) m urs s h fits =
      rw (free-base P U s urs h) (_, refl, λ h res. rw (eqb_refl m) (refl, refl))
  make-Answers (accept_awaiter fd io_flag sqe_flag) m urs s h fits =
      rw (free-base P U s urs h) (_, refl, λ h res. rw (eqb_refl m) (refl, refl))
  make-Answers (read_awaiter fd buf len io_flag sqe_flag) m urs s h fits =
      rw (free-base P U s urs h) (_, refl, λ h res. rw (eqb_refl m) (refl, refl))
  make-Answers (write_awaiter fd buf len io_flag sqe_flag) m urs s h fits =
      rw (free-base P U s urs h) (_, refl, λ h res. rw (eqb_refl m) (refl, refl))
  make-Answers (close_awaiter fd) m urs s h fits =
      rw (free-base P U s urs h) (_, refl, λ h res. rw (eqb_refl m) (refl, refl))
  make-Answers (connect_awaiter fd addr addrlen) m urs s h fits =
      rw (free-base P U s urs h) (_, refl, λ h res. rw (eqb_refl m) (connected fd res fits, refl))
  make-Answers (timer_awaiter ts count flags) m urs s h fits =
      rw (free-base P U s urs h) (_, refl, λ h res. rw (eqb_refl m) (refl, refl))

  -- A request is made, the coroutine `h` suspends on it, and its completion carries what is in its
  -- entry: then the callback hands `h` to the context, leaves all else as it is, and `h` reads the
  -- result. For a connection this is the socket, whatever its sign, or else the error of the kernel.
  pub co_await-result :
      (S : Type 0) (resume : ℕ → (ℕ → IoInfo) × S → ((ℕ → IoInfo) × S) × List Effect × Bool)
      (clean : ℕ → (ℕ → IoInfo) × S → (ℕ → IoInfo) × S) (more : S) (a : Awaiter) (m urs h res : ℕ)
      (s : Local P U)
      → (get_free_urs P U s.engine).0 ≡ some urs
      → socket_of a < 2 ^ 32
      → (t : Local P U) × (make P U a m s ≡ some (urs, t))
        × (let u = await_suspend P U h m t in
            let cqe : Cqe = record { user_data = U.user_data (u.sqes urs); res = res } in
            let after = (io_program S resume clean).cb cqe (u.infos, more) in
            (await_resume P U m (record u { infos = after.0.0 }) ≡ result_of a res)
            × (after.1 ≡ submits h ∷ [])
            × ((n : ℕ) → n ≢ m → after.0.0 n ≡ t.infos n)
            × (after.0.1 ≡ more))
  unfolding await_suspend await_resume
  co_await-result S resume clean more a m urs h res s free fits =
      let (t, made, (request, user_data, count)) = make-Requested P U a m urs s free in
      let (t', made', answers) = make-Answers a m urs s free fits in
      let same = ap (λ (x : ℕ × Local P U). x.1) (some-injective _ _ (sym made' ∙ made)) in
      let (value, resumed) = subst (λ x. Answers a (x.infos m)) same answers h res in
      (
        t,
        made,
        rw (user_data, eqb_refl m)
            (
              rw (await_resume, eqb_refl m) value,
              resumed,
              λ n differs. rw (eqb_ne (λ e. differs (sym e))) refl,
              refl,
            ),
      )
