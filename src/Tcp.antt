-- ===== src/Tcp.antt =====
-- src/io/net/tcp/tcp.cpp with include/coro/io/net/tcp/tcp.hpp, and `set_fd_noblock` of src/utils.cpp:
-- the server and the client. An `int` is a 32-bit word. The calls of the operating system are no code
-- of the repository: `Sockets` says what the program relies on.
pub mod Errors
pub mod Noblock
pub mod Plain
mod Tests
use tiny_coro_lab.Prelude.{
  ℕ, ◌+◌, ◌-◌, ◌*◌, ◌/◌, ◌%◌, ◌^◌, ◌≡◌, Bool, true, false, ◌||◌, Option, none, some, ltb, ◌==◌, not,
  if◌then◌else◌,
}
use tiny_coro_lab.MarkedBuffer.{Item}
use tiny_coro_lab.Io.Awaiters.{Awaiter, accept_awaiter, connect_awaiter}
use tiny_coro_lab.FixedFd.{Files, Proxy, get_fixed_fd, assign}

-- `inet_pton` is given what stands in its destination, and gives 1 with the address that the text is,
-- 0 for a text that is no address, and -1 for a family that it does not know; the second component is
-- what stands in the destination then.
pub record Sockets : Type 1 where
  pub Kernel : Type 0
  pub Text : Type 0
  pub status_flags : Kernel → ℕ → ℕ
  pub socket : Kernel → ℕ × Kernel
  pub fcntl_getfl : ℕ → Kernel → ℕ × Kernel
  pub fcntl_setfl : (fd flags : ℕ) → Kernel → ℕ × Kernel
  pub inet_pton : Text → ℕ → ℕ × ℕ
  pub bind : (fd port addr : ℕ) → Kernel → ℕ × Kernel
  pub listen : (fd backlog : ℕ) → Kernel → ℕ × Kernel
  pub getfl-flags :
      (fd : ℕ) (k : Kernel)
      → ltb (fcntl_getfl fd k).0 (2 ^ 31) ≡ true
      → (fcntl_getfl fd k).0 ≡ status_flags k fd
  pub getfl-keeps : (fd n : ℕ) (k : Kernel) → status_flags (fcntl_getfl fd k).1 n ≡ status_flags k n
  pub setfl-flags :
      (fd flags : ℕ) (k : Kernel)
      → ltb (fcntl_setfl fd flags k).0 (2 ^ 31) ≡ true
      → status_flags (fcntl_setfl fd flags k).1 fd ≡ flags

-- How a call ends: with a result; by `std::exit(1)`, after a message; or by a failed assertion.
pub data Message : Type 0 where
  addr_invalid : Message
  address_error : Message
  server_bind_error : Message
  server_listen_error : Message
  clientfd_init_error : Message
  update_register_failed : Message

pub data Outcome {ℓ} (A : Type ℓ) : Type ℓ where
  done : A → Outcome A
  exits : Message → Outcome A
  aborts : Outcome A

infixl 5 ◌>>=◌
abbrev pub ◌>>=◌ {ℓ κ} : {A : Type ℓ} {B : Type κ} → Outcome A → (A → Outcome B) → Outcome B
done a >>= f = f a
exits m >>= f = exits m
aborts >>= f = aborts

-- `n < 0` and `n >= 0` of an `int`.
abbrev pub negative : ℕ → Bool
negative n = not (ltb n (2 ^ 31))

abbrev pub minus_one : ℕ
minus_one = 2 ^ 32 - 1

-- O_NONBLOCK is bit 11.
abbrev pub with_nonblock : ℕ → ℕ
with_nonblock flags = if flags / 2 ^ 11 % 2 == 1 then flags else flags + 2 ^ 11

-- The bytes of a port in the order of the network.
pub htons : ℕ → ℕ
htons port = let p = port % 2 ^ 16 in p % 2 ^ 8 * 2 ^ 8 + p / 2 ^ 8

abbrev pub inaddr_any : ℕ
inaddr_any = 0

abbrev pub backlog : ℕ
backlog = 5

-- The fields of `sockaddr_in` behind the family.
pub record SockaddrIn : Type 0 where
  pub sin_port : ℕ
  pub sin_addr : ℕ

-- `ndebug` says whether NDEBUG is defined: the argument of an `assert` is not evaluated then.
module _ (S : Sockets) (ndebug : Bool) where
  open S use {Kernel, Text, socket, fcntl_getfl, fcntl_setfl, inet_pton, bind, listen}

  abbrev pub assert : Bool → Outcome (Unit {0})
  assert b = if ndebug then done tt else if b then done tt else aborts

  -- `assert(fcntl(fd, F_SETFL, flags) >= 0)`.
  abbrev assert_setfl : (fd flags : ℕ) → Kernel → Outcome Kernel
  assert_setfl fd flags k =
      if ndebug
      then done k
      else (let (res, k) = fcntl_setfl fd flags k in if not (negative res) then done k else aborts)

  unfoldable pub set_fd_noblock : ℕ → Kernel → Outcome Kernel
  set_fd_noblock fd k = do
    let (flags, k) = fcntl_getfl fd k
    _ ← assert (not (negative flags))
    assert_setfl fd (with_nonblock flags) k

  -- The address that the members after `memset` are given: that of the text, or any address.
  unfoldable pub servaddr : Message → Option Text → (port : ℕ) → Outcome SockaddrIn
  unfolding htons
  servaddr message none port = done record { sin_port = htons port; sin_addr = inaddr_any }
  servaddr message (some addr) port =
      let (res, sin_addr) = inet_pton addr 0 in
      if negative res
      then exits message
      else done record { sin_port = htons port; sin_addr = sin_addr }

  abbrev pub check : Message → ℕ → Outcome (Unit {0})
  check message res = if not (res == 0) then exits message else done tt

  pub record Client : Type 0 where
    pub clientfd : ℕ
    pub port : ℕ
    pub servaddr : SockaddrIn

  abbrev pub check_fd : ℕ → Outcome (Unit {0})
  check_fd fd = if negative fd then exits clientfd_init_error else done tt

  unfoldable pub make_client : Option Text → (port : ℕ) → Kernel → Outcome (Client × Kernel)
  unfolding set_fd_noblock servaddr
  make_client addr port k = do
    let (clientfd, k) = socket k
    _ ← check_fd clientfd
    k ← set_fd_noblock clientfd k
    servaddr ← servaddr address_error addr port
    done (record { clientfd = clientfd; port = port; servaddr = servaddr }, k)

  -- `connect`, with the address at which `m_servaddr` lies, and its size.
  unfoldable pub connect : (servaddr_at : ℕ) → Client → Awaiter
  connect servaddr_at c = connect_awaiter c.clientfd servaddr_at 16

  pub record Server : Type 0 where
    pub listenfd : ℕ
    pub port : ℕ
    pub servaddr : SockaddrIn
    pub fixed_fd : Item
    pub sqe_flag : ℕ

  module _ (F : Files) (enable_fixfd : Bool) where
    abbrev pub assigned :
        Option (ℕ × ℕ × Proxy F enable_fixfd) → Outcome (ℕ × ℕ × Proxy F enable_fixfd)
    assigned none = exits update_register_failed
    assigned (some r) = done r

    -- The member `m_fixed_fd` borrows an item first.
    unfoldable pub make_server :
        Option Text
        → (port : ℕ) → Kernel
        → Proxy F enable_fixfd
        → Outcome (Server × Kernel × Proxy F enable_fixfd)
    unfolding set_fd_noblock servaddr get_fixed_fd assign
    make_server addr port k p = do
      let (item, p) = get_fixed_fd F enable_fixfd p
      let (listenfd, k) = socket k
      _ ← assert (not (listenfd == minus_one))
      k ← set_fd_noblock listenfd k
      servaddr ← servaddr addr_invalid addr port
      let (bound, k) = bind listenfd servaddr.sin_port servaddr.sin_addr k
      _ ← check server_bind_error bound
      let (listens, k) = listen listenfd backlog k
      _ ← check server_listen_error listens
      (fd, flag, p) ← assigned (assign F enable_fixfd item listenfd 0 p)
      done (
        record {
          listenfd = fd;
          port = port;
          servaddr = servaddr;
          fixed_fd = item;
          sqe_flag = flag;
        },
        k,
        p,
      )

  -- `tcp_server(port)`.
  abbrev pub any_address : Option Text
  any_address = none

  unfoldable pub accept : (io_flags : ℕ) → Server → Awaiter
  accept io_flags s = accept_awaiter s.listenfd io_flags s.sqe_flag
