-- ===== src/FixedFd/Invariant.antt =====
-- What every sequence of openings and closings of connectors keeps of the table of
-- include/coro/uring_proxy.hpp, when fixed descriptors are enabled.
use tiny_coro_lab.Prelude.{
  ℕ, ◌+◌, ◌%◌, ◌≡◌, ◌<◌, true, none, some, ltb, ◌==◌, List, [], ◌∷◌, ◌++◌, count, if◌then◌else◌,
}
use tiny_coro_lab.MarkedBuffer.{Item}
use tiny_coro_lab.MarkedBuffer.Lending.{lend}
use tiny_coro_lab.Io.Awaiters.{Awaiter}
use tiny_coro_lab.FixedFd.{
  Files, fix_fd_array_size, Proxy, init_fds, Connector, connect_socket, close,
}

-- The indices that the connectors have borrowed.
abbrev pub lent : List Connector → List ℕ
lent [] = []
lent (c ∷ cs) = lend c.fixed_fd (lent cs)

-- The descriptor that the kernel uses for a request with this descriptor and these flags: with
-- IOSQE_FIXED_FILE that of the table.
abbrev pub resolve : (F : Files) → (fd flag : ℕ) → F.Kernel → ℕ
resolve F fd flag k = if flag % 2 == 1 then F.table k fd else fd

-- A connector without an item has the socket itself, and one with an item has its index, in whose
-- place the table holds the socket.
abbrev pub ServesAs : (contents : ℕ → ℕ) → Item → (sockfd original_fd sqe_flag : ℕ) → Type 0
ServesAs contents none sockfd original_fd sqe_flag = (sockfd ≡ original_fd) × (sqe_flag ≡ 0)
ServesAs contents (some idx) sockfd original_fd sqe_flag =
    (sockfd ≡ idx) × (sqe_flag ≡ 1) × (contents idx ≡ original_fd)

abbrev pub AllServe : (contents : ℕ → ℕ) → List Connector → Type 0
AllServe contents [] = Unit {0}
AllServe contents (c ∷ cs) =
    ServesAs contents c.fixed_fd c.sockfd c.original_fd c.sqe_flag × AllServe contents cs

pub record Inv (F : Files) (p : Proxy F true) (live : List Connector) : Type 0 where
  pub lent_once :
      (j : ℕ) → count j p.fds.que + count j (lent live) ≡ (if ltb j fix_fd_array_size then 1 else 0)
  pub in_kernel : (j : ℕ) → j < fix_fd_array_size → F.table p.kernel j ≡ p.fds.contents j
  pub free_null : (j : ℕ) → 0 < count j p.fds.que → p.fds.contents j ≡ p.null_fds j
  pub serves : AllServe p.fds.contents live

-- The connectors that are open after a sequence of openings and closings. One that is closed or
-- destroyed is not used any more.
pub data Reach (F : Files) : Proxy F true → List Connector → Type 0 where
  inits : (p₀ p : Proxy F true) → init_fds F true p₀ ≡ some p → Reach F p []
  opens :
      {p q : Proxy F true} {live : List Connector} (sockfd : ℕ) (c : Connector)
      → Reach F p live
      → connect_socket F true sockfd p ≡ some (c, q)
      → Reach F q (c ∷ live)
  closes :
      {p q : Proxy F true} (before after : List Connector) (c d : Connector) (a : Awaiter)
      → Reach F p (before ++ c ∷ after)
      → close F true c p ≡ some (a, d, q)
      → Reach F q (before ++ after)
