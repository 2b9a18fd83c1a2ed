-- ===== src/FixedFd/Inversion.antt =====
-- What is known of a call of include/coro/uring_proxy.hpp that has not ended the program, and of the
-- constructor and the end of a connector.
use tiny_coro_lab.Prelude.{
  ℕ, ◌≡◌, refl, sym, ◌∙◌, ap, ◌<◌, true, ◌⊎◌, inl, inr, Bool-cases, eqb_sound, none, some, ◌==◌,
  List, [], ◌∷◌, ◌++◌, update, bind-some,
}
use mathlib.Core.Option.{none-ne-some, some-injective}
use tiny_coro_lab.MarkedBuffer.{Item, borrow_item, borrow, return_back}
use tiny_coro_lab.Io.Awaiters.{Awaiter, close_awaiter}
use tiny_coro_lab.FixedFd.{
  Files, fix_fd_array_size, Proxy, get_fixed_fd, update_register_fixed_fds, back_fixed_fd, assign,
  return_item, Connector, connect_socket, close,
}

module _ (F : Files) where
  -- The table of the kernel agrees with that of the program.
  abbrev pub Agrees : F.Kernel → (ℕ → ℕ) → Type 0
  Agrees k contents = (j : ℕ) → j < fix_fd_array_size → F.table k j ≡ contents j

  pub update-some :
      (p q : Proxy F true)
      → update_register_fixed_fds F true p ≡ some q
      → (k : F.Kernel) × (q ≡ record p { kernel = k }) × Agrees k p.fds.contents
  unfolding update_register_fixed_fds
  update-some p q h =
      let res = (F.register_files_update p.fds.contents fix_fd_array_size p.kernel).0 in
      elim (Bool-cases (res == fix_fd_array_size)) [
        | inl ok ↦ (
          (F.register_files_update p.fds.contents fix_fd_array_size p.kernel).1,
          sym (some-injective _ _ (rw ok at h)),
          λ j small.
              F.update-table p.fds.contents fix_fd_array_size p.kernel j (eqb_sound ok) small,
        )
        | inr failed ↦ absurd (none-ne-some q (rw failed at h))
      ]

  -- What the constructor of a connector may have done.
  abbrev pub Connected : (sockfd : ℕ) (c : Connector) (p q : Proxy F true) → Type 0
  Connected sockfd c p q =
      ((c ≡ record { sockfd = sockfd; original_fd = sockfd; fixed_fd = none; sqe_flag = 0 })
        × (q ≡ p))
      ⊎ ((idx : ℕ) × (rest : List ℕ) × (k : F.Kernel) × (p.fds.que ≡ idx ∷ rest)
          × (c ≡ record { sockfd = idx; original_fd = sockfd; fixed_fd = some idx; sqe_flag = 1 })
          × (q ≡ record p {
            fds = record { contents = update p.fds.contents idx sockfd; que = rest };
            kernel = k;
          })
          × Agrees k (update p.fds.contents idx sockfd))

  connect-fields :
      (sockfd : ℕ) (null_fds contents : ℕ → ℕ) (que : List ℕ) (k : F.Kernel) (c : Connector)
      (q : Proxy F true)
      → (let p : Proxy F true = record {
        null_fds = null_fds;
        fds = record { contents = contents; que = que };
        kernel = k;
      } in
          connect_socket F true sockfd p ≡ some (c, q) → Connected sockfd c p q)
  unfolding connect_socket get_fixed_fd borrow_item borrow assign
  connect-fields sockfd null_fds contents [] k c q h =
      let e = some-injective _ _ h in
      inl (
        sym (ap (λ (x : Connector × Proxy F true). x.0) e),
        sym (ap (λ (x : Connector × Proxy F true). x.1) e),
      )
  connect-fields sockfd null_fds contents (idx ∷ rest) k c q h =
      let (t, assigned, made) = bind-some _ _ _ h in
      let (p', updated, result) = bind-some _ _ _ assigned in
      let (k', fresh, agrees) = update-some _ p' updated in
      let e = some-injective _ _ result in
      let out = some-injective _ _ made in
      inr (
        idx,
        rest,
        k',
        refl,
        sym (ap (λ (x : Connector × Proxy F true). x.0) out)
            ∙ ap
                (λ (x : ℕ × ℕ × Proxy F true). record {
                  sockfd = x.0;
                  original_fd = sockfd;
                  fixed_fd = some idx;
                  sqe_flag = x.1;
                })
                (sym e),
        sym (ap (λ (x : Connector × Proxy F true). x.1) out)
            ∙ ap (λ (x : ℕ × ℕ × Proxy F true). x.2) (sym e)
            ∙ fresh,
        agrees,
      )

  pub connect-some :
      (sockfd : ℕ) (p q : Proxy F true) (c : Connector)
      → connect_socket F true sockfd p ≡ some (c, q)
      → Connected sockfd c p q
  connect-some sockfd p q c h =
      connect-fields sockfd p.null_fds p.fds.contents p.fds.que p.kernel c q h

  -- What the end of a connector may have done.
  abbrev pub ClosedItem : Item → (p q : Proxy F true) → Type 0
  ClosedItem none p q = q ≡ p
  ClosedItem (some idx) p q =
      (k : F.Kernel) × (q ≡ record p {
        fds = record {
          contents = update p.fds.contents idx (p.null_fds idx);
          que = p.fds.que ++ idx ∷ [];
        };
        kernel = k;
      })
      × Agrees k (update p.fds.contents idx (p.null_fds idx))

  close-item :
      (original : ℕ) (item : Item) (sockfd flag : ℕ) (p q : Proxy F true) (a : Awaiter)
      (d : Connector)
      → (let c : Connector = record {
        sockfd = sockfd;
        original_fd = original;
        fixed_fd = item;
        sqe_flag = flag;
      } in
          close F true c p ≡ some (a, d, q)
          → (a ≡ close_awaiter original)
            × (d ≡ record c { fixed_fd = none })
            × ClosedItem c.fixed_fd p q)
  unfolding close return_item back_fixed_fd return_back
  close-item original none sockfd flag p q a d h =
      let e = some-injective _ _ h in
      (
        sym (ap (λ (x : Awaiter × Connector × Proxy F true). x.0) e),
        sym (ap (λ (x : Awaiter × Connector × Proxy F true). x.1) e),
        sym (ap (λ (x : Awaiter × Connector × Proxy F true). x.2) e),
      )
  close-item original (some idx) sockfd flag p q a d h =
      let (t, returned, made) = bind-some _ _ _ h in
      let (p₂, backed, result) = bind-some _ _ _ returned in
      let (p₁, updated, stored) = bind-some _ _ _ backed in
      let (k, fresh, agrees) = update-some _ p₁ updated in
      let at_p = ap (λ (x : Proxy F true). record x { fds = return_back (some idx) x.fds }) fresh in
      let at_t = some-injective _ _ result in
      let out = some-injective _ _ made in
      (
        sym (ap (λ (x : Awaiter × Connector × Proxy F true). x.0) out),
        sym (ap (λ (x : Awaiter × Connector × Proxy F true). x.1) out)
            ∙ ap
                (λ (x : Item × Proxy F true). record {
                  sockfd = sockfd;
                  original_fd = original;
                  fixed_fd = x.0;
                  sqe_flag = flag;
                })
                (sym at_t),
        (
          k,
          sym (ap (λ (x : Awaiter × Connector × Proxy F true). x.2) out)
              ∙ ap (λ (x : Item × Proxy F true). x.1) (sym at_t)
              ∙ sym (some-injective _ _ stored)
              ∙ at_p,
          agrees,
        ),
      )

  pub close-some :
      (c d : Connector) (p q : Proxy F true) (a : Awaiter)
      → close F true c p ≡ some (a, d, q)
      → (a ≡ close_awaiter c.original_fd)
        × (d ≡ record c { fixed_fd = none })
        × ClosedItem c.fixed_fd p q
  close-some c d p q a h = close-item c.original_fd c.fixed_fd c.sockfd c.sqe_flag p q a d h
