-- ===== src/UringProxy.antt =====
-- include/coro/uring_proxy.hpp as a whole: the constructor, `init` and `deinit`, with the table of
-- FixedFd between them. liburing and the other calls of the operating system are no code of the
-- repository: `Calls` says what the program relies on. `none` is an exit of the program.
pub mod Closing
pub mod Plain
mod Tests
use tiny_coro_lab.Prelude.{
  ℕ, zero, suc, ◌+◌, ◌-◌, ◌^◌, ◌≡◌, Bool, true, false, ◌||◌, Option, none, some, ltb, ◌==◌, not,
  update, ◌>>=◌, if◌then◌else◌,
}
use tiny_coro_lab.FixedFd.{
  Files, fix_fd_array_size, is_not_positive, Proxy, registered, open_null_fds, init_fds,
}

-- `n < 0` of an `int`.
abbrev pub negative : ℕ → Bool
negative n = not (ltb n (2 ^ 31))

-- `is_open` says which descriptors the program has open. What opens a descriptor gives one that was
-- not open; `close` closes just the one. `queue_init` opens that of the ring, which it leaves in
-- `io_uring`, and `queue_exit` closes it.
pub record Calls (F : Files) : Type 1 where
  pub is_open : F.Kernel → ℕ → Bool
  pub eventfd : F.Kernel → ℕ × F.Kernel
  pub queue_init : (entries : ℕ) → F.Kernel → ℕ × ℕ × F.Kernel
  pub register_eventfd : (efd : ℕ) → F.Kernel → ℕ × F.Kernel
  pub close : (fd : ℕ) → F.Kernel → F.Kernel
  pub queue_exit : (ring_fd : ℕ) → F.Kernel → F.Kernel
  pub eventfd-fresh :
      (k : F.Kernel) → negative (eventfd k).0 ≡ false → is_open k (eventfd k).0 ≡ false
  pub eventfd-opens :
      (k : F.Kernel)
      → negative (eventfd k).0 ≡ false
      → is_open (eventfd k).1 ≡ update (is_open k) (eventfd k).0 true
  pub open_null-fresh :
      (k : F.Kernel)
      → is_not_positive (F.open_null k).0 ≡ false
      → is_open k (F.open_null k).0 ≡ false
  pub open_null-opens :
      (k : F.Kernel)
      → is_not_positive (F.open_null k).0 ≡ false
      → is_open (F.open_null k).1 ≡ update (is_open k) (F.open_null k).0 true
  pub close-closes : (fd : ℕ) (k : F.Kernel) → is_open (close fd k) ≡ update (is_open k) fd false
  pub queue_init-fresh :
      (n : ℕ) (k : F.Kernel) → (queue_init n k).0 ≡ 0 → is_open k (queue_init n k).1 ≡ false
  pub queue_init-opens :
      (n : ℕ) (k : F.Kernel)
      → (queue_init n k).0 ≡ 0
      → is_open (queue_init n k).2 ≡ update (is_open k) (queue_init n k).1 true
  pub register_eventfd-opens :
      (fd : ℕ) (k : F.Kernel) → is_open (register_eventfd fd k).1 ≡ is_open k
  pub register_files-opens :
      (fds : ℕ → ℕ) (n : ℕ) (k : F.Kernel) → is_open (F.register_files fds n k).1 ≡ is_open k
  pub queue_exit-closes :
      (fd : ℕ) (k : F.Kernel) → is_open (queue_exit fd k) ≡ update (is_open k) fd false

module _ (F : Files) (C : Calls F) (enable_fixfd : Bool) where
  open C use {eventfd, queue_init, register_eventfd, close, queue_exit}

  -- `m_efd`, the descriptor in `m_uring`, the members for fixed descriptors, and the length of
  -- `m_null_fds`.
  pub record Uring : Type 0 where
    pub efd : ℕ
    pub ring_fd : ℕ
    pub proxy : Proxy F enable_fixfd
    pub null_count : ℕ

  -- The constructor, on members that are not initialised.
  unfoldable pub make : Proxy F enable_fixfd → Option Uring
  make p =
      let (efd, k) = eventfd p.kernel in
      if negative efd
      then none
      else some (record { efd = efd; ring_fd = 0; proxy = record p { kernel = k }; null_count = 0 })

  unfoldable pub init : (entry_length : ℕ) → Uring → Option Uring
  unfolding init_fds
  init entry_length u = do
    let (res, ring_fd, k) = queue_init entry_length u.proxy.kernel
    p ← registered F enable_fixfd u.proxy (res, k)
    p ← registered F enable_fixfd p (register_eventfd u.efd p.kernel)
    p ← init_fds F enable_fixfd p
    some (record u {
      ring_fd = ring_fd;
      proxy = p;
      null_count = if enable_fixfd then fix_fd_array_size else u.null_count;
    })

  -- The loop of `deinit`, over the `n` descriptors from `i` on.
  unfoldable pub close_fds : (n i : ℕ) → (ℕ → ℕ) → F.Kernel → F.Kernel
  close_fds zero i null_fds k = k
  close_fds (suc n) i null_fds k = close_fds n (i + 1) null_fds (close (null_fds i) k)

  unfoldable pub deinit : Uring → Uring
  unfolding close_fds
  deinit u =
      let k = close u.efd u.proxy.kernel in
      let k = if enable_fixfd then close_fds u.null_count 0 u.proxy.null_fds k else k in
      record u { efd = 2 ^ 32 - 1; proxy = record u.proxy { kernel = queue_exit u.ring_fd k } }
