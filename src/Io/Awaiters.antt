-- ===== src/Io/Awaiters.antt =====
-- The constructors of the awaiters of src/io/io_awaiter.cpp and of include/coro/timer.hpp, and what
-- `base_io_awaiter` does when a coroutine suspends on one and is resumed.
use tiny_coro_lab.Prelude.{ℕ, Option, none, some, update, ◌>>=◌}
use tiny_coro_lab.Timer.{Timespec}
use tiny_coro_lab.Engine.{Platform, Engine, add_io_submit}
use tiny_coro_lab.Io.{
  IoType, IoInfo, Callback, Prep, Uring, nop, tcp_accept, tcp_connect, tcp_read, tcp_write,
  tcp_close, stdin, timer, noop_awaiter_callback, stdin_awaiter_callback,
  tcp_accept_awaiter_callback, tcp_read_awaiter_callback, tcp_write_awaiter_callback,
  tcp_close_awaiter_callback, tcp_connect_awaiter_callback, timer_awaiter_callback, prep_nop,
  prep_read, prep_accept, prep_recv, prep_send, prep_close, prep_connect, prep_timeout, cast_data,
  stdin_fileno,
}

-- An awaiter, with the arguments of its constructor.
pub data Awaiter : Type 0 where
  noop_awaiter : Awaiter
  stdin_awaiter : (buf len io_flag sqe_flag : ℕ) → Awaiter
  accept_awaiter : (listenfd io_flag sqe_flag : ℕ) → Awaiter
  read_awaiter : (sockfd buf len io_flag sqe_flag : ℕ) → Awaiter
  write_awaiter : (sockfd buf len io_flag sqe_flag : ℕ) → Awaiter
  close_awaiter : (sockfd : ℕ) → Awaiter
  connect_awaiter : (sockfd addr addrlen : ℕ) → Awaiter
  timer_awaiter : (ts : Timespec) (count flags : ℕ) → Awaiter

-- `operator co_await` of a timer: one completion is asked for.
abbrev pub co_await_timer : Timespec → Awaiter
co_await_timer ts = timer_awaiter ts 1 0

module _ (P : Platform) (U : Uring P) where
  open U use {Sqe, get_sqe, prep, set_flags, set_data}

  -- The local engine, the entries of its ring and every `io_info`, by their addresses.
  pub record Local : Type 0 where
    pub engine : Engine P
    pub sqes : ℕ → Sqe
    pub infos : ℕ → IoInfo

  unfoldable pub get_free_urs : Engine P → Option ℕ × Engine P
  get_free_urs e = let (urs, k) = get_sqe e.kernel in (urs, record e { kernel = k })

  abbrev ensure : Option ℕ → Local → Option (ℕ × Local)
  ensure none s = none
  ensure (some urs) s = some (urs, s)

  -- The base constructor takes a free entry; with none the assertion fails, and `none` says so.
  unfoldable pub base_io_awaiter : Local → Option (ℕ × Local)
  unfolding get_free_urs
  base_io_awaiter s = let (urs, e) = get_free_urs s.engine in ensure urs (record s { engine = e })

  abbrev with_info : ℕ → IoType → Callback → Local → Local
  with_info m ty cb s = record s {
    infos = update s.infos m (record (s.infos m) { io_type = ty; cb = cb });
  }

  abbrev with_payload : ℕ → ℕ → Local → Local
  with_payload m payload s = record s {
    infos = update s.infos m (record (s.infos m) { payload = payload });
  }

  abbrev with_flags : ℕ → ℕ → Local → Local
  with_flags urs sqe_flag s = record s {
    sqes = update s.sqes urs (set_flags sqe_flag (s.sqes urs));
  }

  abbrev with_prep : ℕ → Prep → Local → Local
  with_prep urs p s = record s { sqes = update s.sqes urs (prep p (s.sqes urs)) }

  abbrev with_data : ℕ → ℕ → Local → Local
  with_data urs m s = record s { sqes = update s.sqes urs (set_data m (s.sqes urs)) }

  abbrev submitted : Local → Local
  submitted s = record s { engine = add_io_submit P s.engine }

  -- The constructors, of an awaiter whose `m_info` is at `m`: its `m_urs`, and the new state.
  unfoldable pub make_noop : ℕ → Local → Option (ℕ × Local)
  unfolding base_io_awaiter add_io_submit
  make_noop m s = do
    (urs, s) ← base_io_awaiter s
    let s = with_info m nop noop_awaiter_callback s
    let s = with_prep urs prep_nop s
    let s = with_data urs m s
    some (urs, submitted s)

  unfoldable pub make_stdin : (buf len io_flag sqe_flag m : ℕ) → Local → Option (ℕ × Local)
  unfolding base_io_awaiter add_io_submit
  make_stdin buf len io_flag sqe_flag m s = do
    (urs, s) ← base_io_awaiter s
    let s = with_info m stdin stdin_awaiter_callback s
    let s = with_flags urs sqe_flag s
    let s = with_prep urs (prep_read stdin_fileno buf len io_flag) s
    let s = with_data urs m s
    some (urs, submitted s)

  unfoldable pub make_accept : (listenfd io_flag sqe_flag m : ℕ) → Local → Option (ℕ × Local)
  unfolding base_io_awaiter add_io_submit
  make_accept listenfd io_flag sqe_flag m s = do
    (urs, s) ← base_io_awaiter s
    let s = with_info m tcp_accept tcp_accept_awaiter_callback s
    let s = with_flags urs sqe_flag s
    let s = with_prep urs (prep_accept listenfd io_flag) s
    let s = with_data urs m s
    some (urs, submitted s)

  unfoldable pub make_read : (sockfd buf len io_flag sqe_flag m : ℕ) → Local → Option (ℕ × Local)
  unfolding base_io_awaiter add_io_submit
  make_read sockfd buf len io_flag sqe_flag m s = do
    (urs, s) ← base_io_awaiter s
    let s = with_info m tcp_read tcp_read_awaiter_callback s
    let s = with_flags urs sqe_flag s
    let s = with_prep urs (prep_recv sockfd buf len io_flag) s
    let s = with_data urs m s
    some (urs, submitted s)

  unfoldable pub make_write : (sockfd buf len io_flag sqe_flag m : ℕ) → Local → Option (ℕ × Local)
  unfolding base_io_awaiter add_io_submit
  make_write sockfd buf len io_flag sqe_flag m s = do
    (urs, s) ← base_io_awaiter s
    let s = with_info m tcp_write tcp_write_awaiter_callback s
    let s = with_flags urs sqe_flag s
    let s = with_prep urs (prep_send sockfd buf len io_flag) s
    let s = with_data urs m s
    some (urs, submitted s)

  unfoldable pub make_close : (sockfd m : ℕ) → Local → Option (ℕ × Local)
  unfolding base_io_awaiter add_io_submit
  make_close sockfd m s = do
    (urs, s) ← base_io_awaiter s
    let s = with_info m tcp_close tcp_close_awaiter_callback s
    let s = with_prep urs (prep_close sockfd) s
    let s = with_data urs m s
    some (urs, submitted s)

  unfoldable pub make_connect : (sockfd addr addrlen m : ℕ) → Local → Option (ℕ × Local)
  unfolding base_io_awaiter add_io_submit cast_data
  make_connect sockfd addr addrlen m s = do
    (urs, s) ← base_io_awaiter s
    let s = with_info m tcp_connect tcp_connect_awaiter_callback s
    let s = with_payload m (cast_data sockfd) s
    let s = with_prep urs (prep_connect sockfd addr addrlen) s
    let s = with_data urs m s
    some (urs, submitted s)

  -- The request has the address of `m_ts`, the copy of the time spec in the awaiter, which lives until
  -- the coroutine is resumed; so what the kernel reads there is `ts`.
  unfoldable pub make_timer : (ts : Timespec) (count flags m : ℕ) → Local → Option (ℕ × Local)
  unfolding base_io_awaiter add_io_submit
  make_timer ts count flags m s = do
    (urs, s) ← base_io_awaiter s
    let s = with_info m timer timer_awaiter_callback s
    let s = with_prep urs (prep_timeout ts count flags) s
    let s = with_data urs m s
    some (urs, submitted s)

  unfoldable pub make : Awaiter → ℕ → Local → Option (ℕ × Local)
  unfolding make_noop make_stdin make_accept make_read make_write make_close make_connect make_timer
  make noop_awaiter m s = make_noop m s
  make (stdin_awaiter buf len io_flag sqe_flag) m s = make_stdin buf len io_flag sqe_flag m s
  make (accept_awaiter fd io_flag sqe_flag) m s = make_accept fd io_flag sqe_flag m s
  make (read_awaiter fd buf len io_flag sqe_flag) m s = make_read fd buf len io_flag sqe_flag m s
  make (write_awaiter fd buf len io_flag sqe_flag) m s = make_write fd buf len io_flag sqe_flag m s
  make (close_awaiter fd) m s = make_close fd m s
  make (connect_awaiter fd addr addrlen) m s = make_connect fd addr addrlen m s
  make (timer_awaiter ts count flags) m s = make_timer ts count flags m s

  -- `await_ready` is false: the coroutine suspends, and its handle is kept.
  unfoldable pub await_suspend : (handle m : ℕ) → Local → Local
  await_suspend handle m s = record s {
    infos = update s.infos m (record (s.infos m) { handle = handle });
  }

  unfoldable pub await_resume : (m : ℕ) → Local → ℕ
  await_resume m s = (s.infos m).result
