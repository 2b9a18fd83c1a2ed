-- ===== src/Io.antt =====
-- src/io/io_awaiter.cpp with include/coro/io/base_awaiter.hpp and io_info.hpp, and the awaiter of
-- include/coro/timer.hpp: an io request, its `io_info` and the callback of its completion. An `int` is
-- a 32-bit word, a negative one its two's complement. liburing is no code of the repository: `Uring`
-- says what the awaiters rely on.
pub mod Awaiters
pub mod Request
pub mod Result
pub mod Delivery
pub mod Wakeup
pub mod Cast
pub mod Plain
mod Tests
use tiny_coro_lab.Prelude.{
  ℕ, ◌+◌, ◌-◌, ◌%◌, ◌^◌, ◌≡◌, Bool, true, false, Option, some, List, [], ◌∷◌, ltb, ◌==◌, not,
  update, if◌then◌else◌,
}
use tiny_coro_lab.Timer.{Timespec}
use tiny_coro_lab.Engine.{Platform, Program, Cqe, Effect, submits, Engine, add_io_submit}

pub data IoType : Type 0 where
  nop : IoType
  tcp_accept : IoType
  tcp_connect : IoType
  tcp_read : IoType
  tcp_write : IoType
  tcp_close : IoType
  stdin : IoType
  timer : IoType
  none : IoType

-- The function that `cb` holds; `nothing` is the empty function of a new `io_info`.
pub data Callback : Type 0 where
  nothing : Callback
  noop_awaiter_callback : Callback
  stdin_awaiter_callback : Callback
  tcp_accept_awaiter_callback : Callback
  tcp_read_awaiter_callback : Callback
  tcp_write_awaiter_callback : Callback
  tcp_close_awaiter_callback : Callback
  tcp_connect_awaiter_callback : Callback
  timer_awaiter_callback : Callback

-- `payload` is the field `data`.
pub record IoInfo : Type 0 where
  pub handle : ℕ
  pub result : ℕ
  pub io_type : IoType
  pub payload : ℕ
  pub cb : Callback

-- The request that an `io_uring_prep_` function writes, with the arguments that it is given.
pub data Prep : Type 0 where
  prep_nop : Prep
  prep_read : (fd buf len offset : ℕ) → Prep
  prep_accept : (fd flags : ℕ) → Prep
  prep_recv : (fd buf len flags : ℕ) → Prep
  prep_send : (fd buf len flags : ℕ) → Prep
  prep_close : (fd : ℕ) → Prep
  prep_connect : (fd addr addrlen : ℕ) → Prep
  prep_timeout : (ts : Timespec) (count flags : ℕ) → Prep

-- What is observed of a submission entry. Whether a `prep` function keeps the flags of the entry is
-- not said: the versions of liburing differ.
pub record Uring (P : Platform) : Type 1 where
  pub Sqe : Type 0
  pub request : Sqe → Prep
  pub flags : Sqe → ℕ
  pub user_data : Sqe → ℕ
  pub get_sqe : P.Kernel → Option ℕ × P.Kernel
  pub prep : Prep → Sqe → Sqe
  pub set_flags : ℕ → Sqe → Sqe
  pub set_data : ℕ → Sqe → Sqe
  pub prep-request : (p : Prep) (q : Sqe) → request (prep p q) ≡ p
  pub set_flags-flags : (f : ℕ) (q : Sqe) → flags (set_flags f q) ≡ f
  pub set_data-request : (m : ℕ) (q : Sqe) → request (set_data m q) ≡ request q
  pub set_data-flags : (m : ℕ) (q : Sqe) → flags (set_data m q) ≡ flags q
  pub set_data-user_data : (m : ℕ) (q : Sqe) → user_data (set_data m q) ≡ m

-- `CASTDATA` of an `int`: the sign is extended to 64 bits. And `static_cast<int>` back.
pub cast_data : ℕ → ℕ
cast_data n = if ltb n (2 ^ 31) then n else n + (2 ^ 64 - 2 ^ 32)

pub cast_int : ℕ → ℕ
cast_int n = n % 2 ^ 32

abbrev pub stdin_fileno : ℕ
stdin_fileno = 0

-- `-ETIME`.
abbrev pub minus_etime : ℕ
minus_etime = 2 ^ 32 - 62

-- The callbacks: the `io_info` that they leave, and the handle that they submit to the context.
pub noop_callback : IoInfo → ℕ → IoInfo × List Effect
noop_callback info res = (record info { result = res }, submits info.handle ∷ [])

pub stdin_callback : IoInfo → ℕ → IoInfo × List Effect
stdin_callback info res = (record info { result = res }, submits info.handle ∷ [])

pub accept_callback : IoInfo → ℕ → IoInfo × List Effect
accept_callback info res = (record info { result = res }, submits info.handle ∷ [])

pub read_callback : IoInfo → ℕ → IoInfo × List Effect
read_callback info res = (record info { result = res }, submits info.handle ∷ [])

pub write_callback : IoInfo → ℕ → IoInfo × List Effect
write_callback info res = (record info { result = res }, submits info.handle ∷ [])

pub close_callback : IoInfo → ℕ → IoInfo × List Effect
close_callback info res = (record info { result = res }, submits info.handle ∷ [])

pub connect_callback : IoInfo → ℕ → IoInfo × List Effect
unfolding cast_int
connect_callback info res =
    let result = if not (res == 0) then res else cast_int info.payload in
    (record info { result = result }, submits info.handle ∷ [])

pub timer_callback : IoInfo → ℕ → IoInfo × List Effect
timer_callback info res =
    let res = if res == minus_etime then 0 else res in
    (record info { result = res }, submits info.handle ∷ [])

-- `data->cb(data, res)`. To call the empty function ends the program: nothing is resumed.
pub call : Callback → IoInfo → ℕ → IoInfo × List Effect
unfolding noop_callback stdin_callback accept_callback read_callback write_callback close_callback
    connect_callback timer_callback
call nothing info res = (info, [])
call noop_awaiter_callback info res = noop_callback info res
call stdin_awaiter_callback info res = stdin_callback info res
call tcp_accept_awaiter_callback info res = accept_callback info res
call tcp_read_awaiter_callback info res = read_callback info res
call tcp_write_awaiter_callback info res = write_callback info res
call tcp_close_awaiter_callback info res = close_callback info res
call tcp_connect_awaiter_callback info res = connect_callback info res
call timer_awaiter_callback info res = timer_callback info res

-- Every `io_info` by its address, with what else the coroutines `S` keep: the program that runs on an
-- engine whose completions carry the addresses of the requests.
abbrev pub io_program :
    (S : Type 0)
    → (ℕ → (ℕ → IoInfo) × S → ((ℕ → IoInfo) × S) × List Effect × Bool)
    → (ℕ → (ℕ → IoInfo) × S → (ℕ → IoInfo) × S)
    → Program
io_program S resume clean = record {
  Store = (ℕ → IoInfo) × S;
  resume = resume;
  clean = clean;
  cb = λ cqe st.
      let (infos, more) = st in
      let (info, effects) = call (infos cqe.user_data).cb (infos cqe.user_data) cqe.res in
      ((update infos cqe.user_data info, more), effects);
}
