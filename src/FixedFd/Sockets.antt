-- ===== src/FixedFd/Sockets.antt =====
-- The sockets that the requests of the connectors of include/coro/io/net/tcp/tcp.hpp reach, while
-- connectors come and go.
use tiny_coro_lab.Prelude.{
  ℕ, ◌≡◌, refl, sym, ◌∙◌, ap, subst, ◌<◌, arith, true, false, inl, inr, none, some, eqb_refl,
  eqb_ne, eq_or_ne, List, [], ◌∷◌, ◌++◌, count, count-append, count_self, update,
}
use tiny_coro_lab.MarkedBuffer.{Item, borrow_item, borrow}
use tiny_coro_lab.MarkedBuffer.Lending.{lend}
use tiny_coro_lab.Io.Awaiters.{Awaiter, read_awaiter, write_awaiter, close_awaiter}
use tiny_coro_lab.FixedFd.{
  Files, fix_fd_array_size, Proxy, get_fixed_fd, update_register_fixed_fds, back_fixed_fd, assign,
  return_item, Connector, connect_socket, close, read, write,
}
use tiny_coro_lab.FixedFd.Invariant.{ServesAs, Inv, Reach, inits, opens, closes, resolve}
use tiny_coro_lab.FixedFd.Inversion.{connect-some, close-some, Connected, ClosedItem}
use tiny_coro_lab.FixedFd.Kept.{inits-Inv, opens-Inv, closes-Inv, AllServe-split, count-without}

module _ (F : Files) where
  pub Reach-Inv : {p : Proxy F true} {live : List Connector} → Reach F p live → Inv F p live
  Reach-Inv (inits p₀ p h) = inits-Inv F p₀ p h
  Reach-Inv (opens {p} {q} sockfd c r h) =
      opens-Inv F sockfd c (Reach-Inv r) (connect-some F sockfd p q c h)
  Reach-Inv (closes {p} {q} before after c d a r h) =
      closes-Inv F before after c (Reach-Inv r) (close-some F c d p q a h).2

  resolve-ServesAs :
      (p : Proxy F true) (item : Item) (sockfd original flag : ℕ)
      → ((j : ℕ) → 0 < count j (lend item []) → F.table p.kernel j ≡ p.fds.contents j)
      → ServesAs p.fds.contents item sockfd original flag
      → resolve F sockfd flag p.kernel ≡ original
  resolve-ServesAs p none sockfd original flag agrees (at, unset) = rw (unset, at) refl
  resolve-ServesAs p (some idx) sockfd original flag agrees (at, fixed, holds) =
      rw (fixed, at) (agrees idx (omega (arith, count_self idx [])) ∙ holds)

  -- However connectors were opened and closed before, what an open connector reads and writes
  -- reaches the socket that it was made for, be it by its own descriptor or by the kernel's table.
  pub reaches_socket :
      {p : Proxy F true} (before after : List Connector) (c : Connector) (buf len io_flags : ℕ)
      → Reach F p (before ++ c ∷ after)
      → (fd : ℕ) × (flag : ℕ) × (read buf len io_flags c ≡ read_awaiter fd buf len io_flags flag)
        × (write buf len io_flags c ≡ write_awaiter fd buf len io_flags flag)
        × (resolve F fd flag p.kernel ≡ c.original_fd)
  unfolding read write
  reaches_socket {p} before after c buf len io_flags r =
      let i = Reach-Inv r in
      (
        c.sockfd,
        c.sqe_flag,
        refl,
        refl,
        resolve-ServesAs p c.fixed_fd c.sockfd c.original_fd c.sqe_flag
            (λ j borrowed.
              i.in_kernel j
                (ground (arith, i.lent_once j, count-without c after j before, borrowed)))
            (AllServe-split c after p.fds.contents before i.serves).0,
      )

  -- The kernel takes every update of the table.
  abbrev pub Takes : Type 0
  Takes =
      (fds : ℕ → ℕ) (k : F.Kernel)
      → (F.register_files_update fds fix_fd_array_size k).0 ≡ fix_fd_array_size

  updates :
      Takes
      → (p : Proxy F true) → (q : Proxy F true) × (update_register_fixed_fds F true p ≡ some q)
  unfolding update_register_fixed_fds
  updates takes p = rw (takes p.fds.contents p.kernel) (_, refl)

  connects :
      Takes
      → (sockfd : ℕ) (p : Proxy F true) (que : List ℕ) → p.fds.que ≡ que
      → (c : Connector) × (q : Proxy F true) × (connect_socket F true sockfd p ≡ some (c, q))
  unfolding connect_socket get_fixed_fd borrow_item borrow assign
  connects takes sockfd p [] e = rw e (_, _, refl)
  connects takes sockfd p (idx ∷ rest) e = rw (e, (updates takes _).1) (_, _, refl)

  closes_down :
      Takes
      → (c : Connector) (p : Proxy F true) (item : Item) → c.fixed_fd ≡ item
      → (a : Awaiter) × (d : Connector) × (q : Proxy F true) × (close F true c p ≡ some (a, d, q))
  unfolding close return_item back_fixed_fd
  closes_down takes c p none e = rw e (_, _, _, refl)
  closes_down takes c p (some idx) e = rw (e, (updates takes _).1) (_, _, _, refl)

  -- The same indices are free, and the program's table and the kernel's hold the same.
  abbrev pub SameTable : (p r : Proxy F true) → Type 0
  SameTable p r =
      ((j : ℕ) → count j r.fds.que ≡ count j p.fds.que)
      × ((j : ℕ) → r.fds.contents j ≡ p.fds.contents j)
      × ((j : ℕ) → j < fix_fd_array_size → F.table r.kernel j ≡ F.table p.kernel j)

  restored :
      {p q : Proxy F true} {live : List Connector} (sockfd : ℕ) (c : Connector) (r : Proxy F true)
      → Inv F p live
      → Connected F sockfd c p q
      → ClosedItem F c.fixed_fd q r
      → SameTable p r
  restored {p} {q} sockfd c r i (inl (made, same)) closed =
      let back = subst (λ (x : Connector). ClosedItem F x.fixed_fd q r) made closed in
      subst (λ x. SameTable p x) (sym (back ∙ same)) (λ j. refl, λ j. refl, λ j small. refl)
  restored {p} {q} sockfd c r i (inr (idx, rest, k, queued, made, new, agrees)) closed =
      let (k', last, agrees') =
        subst (λ x. ClosedItem F (some idx) x r) new
          (subst (λ (x : Connector). ClosedItem F x.fixed_fd q r) made closed) in
      let was : (j : ℕ) → count j p.fds.que ≡ count j (idx ∷ rest) = λ j. ap (count j) queued in
      let null : p.fds.contents idx ≡ p.null_fds idx =
        i.free_null idx (omega (arith, was idx, count_self idx rest)) in
      let same : (j : ℕ)
          → update (update p.fds.contents idx sockfd) idx (p.null_fds idx) j ≡ p.fds.contents j =
        λ j. elim (eq_or_ne idx j) [
          | inl e ↦ rw (← e, eqb_refl idx) (sym null)
          | inr n ↦ rw (eqb_ne n) refl
        ] in
      subst (λ x. SameTable p x) (sym last)
        (
          λ j. omega (arith, was j, count-append j (idx ∷ []) rest),
          same,
          λ j small. agrees' j small ∙ same j ∙ sym (i.in_kernel j small),
        )

  -- A socket is connected and closed again, by a kernel that takes every update of its table: both
  -- return, the socket that is closed is the original one, and the table is as it was.
  pub close-connect_socket :
      {p : Proxy F true} {live : List Connector} (sockfd : ℕ)
      → Takes
      → Reach F p live
      → (c : Connector) × (q : Proxy F true) × (d : Connector) × (r : Proxy F true)
        × (connect_socket F true sockfd p ≡ some (c, q))
        × (close F true c q ≡ some (close_awaiter sockfd, d, r))
        × SameTable p r
  close-connect_socket {p} sockfd takes reach =
      let (c, q, opened) = connects takes sockfd p p.fds.que refl in
      let (a, d, r, closed) = closes_down takes c q c.fixed_fd refl in
      let connected = connect-some F sockfd p q c opened in
      let (awaits, gone, item) = close-some F c d q r a closed in
      (
        c,
        q,
        d,
        r,
        opened,
        closed
            ∙ ap (λ x. some (x, d, r))
                (awaits ∙ ap close_awaiter (original sockfd c p q connected)),
        restored sockfd c r (Reach-Inv reach) connected item,
      )
    where
      original :
          (sockfd : ℕ) (c : Connector) (p q : Proxy F true)
          → Connected F sockfd c p q
          → c.original_fd ≡ sockfd
      original sockfd c p q (inl (made, same)) = ap (λ (x : Connector). x.original_fd) made
      original sockfd c p q (inr (idx, rest, k, queued, made, new, agrees)) =
          ap (λ (x : Connector). x.original_fd) made

-- Without fixed descriptors a connector uses its socket, and neither its constructor nor its end
-- does anything to the table.
pub connect_socket-disabled :
    (F : Files) (sockfd : ℕ) (p : Proxy F false)
    → (let c : Connector = record {
      sockfd = sockfd;
      original_fd = sockfd;
      fixed_fd = none;
      sqe_flag = 0;
    } in
        (connect_socket F false sockfd p ≡ some (c, p))
        × (close F false c p ≡ some (close_awaiter sockfd, c, p)))
unfolding connect_socket get_fixed_fd assign close return_item
connect_socket-disabled F sockfd p = (refl, refl)
