-- ===== src/FixedFd.antt =====
-- The fixed file descriptors: the table of include/coro/uring_proxy.hpp, `fixed_fds` of
-- include/coro/io/base_io_type.hpp, and the connector of include/coro/io/net/tcp/tcp.hpp that uses
-- them. A descriptor is a 32-bit word. The kernel's table is no code of the repository: `Files` says
-- what the program relies on.
pub mod Invariant
pub mod Inversion
pub mod Kept
pub mod Sockets
pub mod Plain
mod Tests
use tiny_coro_lab.Prelude.{
  ℕ, zero, suc, ◌+◌, ◌-◌, ◌%◌, ◌^◌, ◌≡◌, ◌<◌, Bool, true, false, ◌||◌, Option, none, some, ltb,
  ◌==◌, not, update, ◌>>=◌, if◌then◌else◌,
}
use tiny_coro_lab.MarkedBuffer.{MarkedBuffer, Item, init, set_data, borrow_item, return_back}
use tiny_coro_lab.Io.Awaiters.{Awaiter, read_awaiter, write_awaiter, close_awaiter}

-- A call that succeeds gives the number that the manual page names, and the table then holds the
-- `n` descriptors it was called with.
pub record Files : Type 1 where
  pub Kernel : Type 0
  pub table : Kernel → ℕ → ℕ
  pub register_files : (ℕ → ℕ) → ℕ → Kernel → ℕ × Kernel
  pub register_files_update : (ℕ → ℕ) → ℕ → Kernel → ℕ × Kernel
  pub open_null : Kernel → ℕ × Kernel
  pub register-table :
      (fds : ℕ → ℕ) (n : ℕ) (k : Kernel) (i : ℕ)
      → (register_files fds n k).0 ≡ 0
      → i < n
      → table (register_files fds n k).1 i ≡ fds i
  pub update-table :
      (fds : ℕ → ℕ) (n : ℕ) (k : Kernel) (i : ℕ)
      → (register_files_update fds n k).0 ≡ n
      → i < n
      → table (register_files_update fds n k).1 i ≡ fds i

-- `config::kFixFdArraySize`.
abbrev pub fix_fd_array_size : ℕ
fix_fd_array_size = 8

-- `fd <= 0` of an `int`.
abbrev pub is_not_positive : ℕ → Bool
is_not_positive fd = (fd == 0) || not (ltb fd (2 ^ 31))

-- `flag |= IOSQE_FIXED_FILE`, which is bit 0.
abbrev pub with_fixed_file : ℕ → ℕ
with_fixed_file flag = flag + 1 - flag % 2

module _ (F : Files) (enable_fixfd : Bool) where
  open F use {Kernel, table, register_files, register_files_update, open_null}

  -- The members `m_null_fds` and `m_fds` of `uring_proxy`, and the kernel.
  pub record Proxy : Type 0 where
    pub null_fds : ℕ → ℕ
    pub fds : MarkedBuffer ℕ
    pub kernel : Kernel

  -- `n` more null descriptors are opened, and pushed behind the `i` that the vector has. The program
  -- exits, `none`, when one cannot be.
  unfoldable pub open_null_fds : (n i : ℕ) → (ℕ → ℕ) → Kernel → Option ((ℕ → ℕ) × Kernel)
  open_null_fds zero i null_fds k = some (null_fds, k)
  open_null_fds (suc n) i null_fds k =
      let (fd, k) = open_null k in
      let rest = open_null_fds n (i + 1) (update null_fds i fd) k in
      if is_not_positive fd then none else rest

  abbrev pub registered : Proxy → ℕ × Kernel → Option Proxy
  registered p (res, k) = if not (res == 0) then none else some (record p { kernel = k })

  -- The part of `init` behind `kEnableFixfd`.
  unfoldable pub init_fds : Proxy → Option Proxy
  unfolding open_null_fds init set_data
  init_fds p = elim enable_fixfd [
    | true ↦ do
      let fds = init p.fds
      (null_fds, k) ← open_null_fds fix_fd_array_size 0 p.null_fds p.kernel
      let fds = set_data fix_fd_array_size null_fds fds
      registered (record { null_fds = null_fds; fds = fds; kernel = k })
          (register_files fds.contents fix_fd_array_size k)
    | false ↦ some p
  ]

  unfoldable pub get_fixed_fd : Proxy → Item × Proxy
  unfolding borrow_item
  get_fixed_fd p =
      if not enable_fixfd
      then (none, p)
      else (let (item, fds) = borrow_item p.fds in (item, record p { fds = fds }))

  abbrev updated : Proxy → ℕ × Kernel → Option Proxy
  updated p (res, k) = if res == fix_fd_array_size then some (record p { kernel = k }) else none

  -- The whole table is registered again; the program exits when that fails.
  unfoldable pub update_register_fixed_fds : Proxy → Option Proxy
  update_register_fixed_fds p =
      if enable_fixfd
      then updated p (register_files_update p.fds.contents fix_fd_array_size p.kernel)
      else some p

  abbrev write_fd : (idx fd : ℕ) → Proxy → Proxy
  write_fd idx fd p = record p { fds = record p.fds { contents = update p.fds.contents idx fd } }

  unfoldable pub back_fixed_fd : Item → Proxy → Option Proxy
  unfolding update_register_fixed_fds return_back
  back_fixed_fd none p = some p
  back_fixed_fd (some idx) p = do
    let p = write_fd idx (p.null_fds idx) p
    p ← update_register_fixed_fds p
    some (record p { fds = return_back (some idx) p.fds })

  -- `fixed_fds::assign` on a valid item, or not: the descriptor and the flag that it leaves.
  unfoldable pub assign : Item → (fd flag : ℕ) → Proxy → Option (ℕ × ℕ × Proxy)
  unfolding update_register_fixed_fds
  assign none fd flag p = some (fd, flag, p)
  assign (some idx) fd flag p = do
    let p = write_fd idx fd p
    p ← update_register_fixed_fds p
    some (idx, with_fixed_file flag, p)

  -- `fixed_fds::return_back`, which is the destructor as well: the item is invalid then.
  unfoldable pub return_item : Item → Proxy → Option (Item × Proxy)
  unfolding back_fixed_fd
  return_item none p = some (none, p)
  return_item (some idx) p = do p ← back_fixed_fd (some idx) p; some (none, p)

-- `tcp_connector`.
pub record Connector : Type 0 where
  pub sockfd : ℕ
  pub original_fd : ℕ
  pub fixed_fd : Item
  pub sqe_flag : ℕ

pub read : (buf len io_flags : ℕ) → Connector → Awaiter
read buf len io_flags c = read_awaiter c.sockfd buf len io_flags c.sqe_flag

pub write : (buf len io_flags : ℕ) → Connector → Awaiter
write buf len io_flags c = write_awaiter c.sockfd buf len io_flags c.sqe_flag

module _ (F : Files) (enable_fixfd : Bool) where
  -- The constructor: the member `m_fixed_fd` borrows an item, and the body assigns the socket to it.
  unfoldable pub connect_socket :
      (sockfd : ℕ) → Proxy F enable_fixfd → Option (Connector × Proxy F enable_fixfd)
  unfolding get_fixed_fd assign
  connect_socket sockfd p = do
    let (item, p) = get_fixed_fd F enable_fixfd p
    (fd, flag, p) ← assign F enable_fixfd item sockfd 0 p
    some (record { sockfd = fd; original_fd = sockfd; fixed_fd = item; sqe_flag = flag }, p)

  unfoldable pub close :
      Connector → Proxy F enable_fixfd → Option (Awaiter × Connector × Proxy F enable_fixfd)
  unfolding return_item
  close c p = do
    (item, p) ← return_item F enable_fixfd c.fixed_fd p
    some (close_awaiter c.original_fd, record c { fixed_fd = item }, p)
