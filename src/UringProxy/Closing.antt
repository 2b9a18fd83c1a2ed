-- ===== src/UringProxy/Closing.antt =====
-- What include/coro/uring_proxy.hpp opens it closes again.
use tiny_coro_lab.Prelude.{
  ℕ, zero, suc, ◌+◌, ◌≡◌, refl, sym, ◌∙◌, ap, ◌<◌, Bool, true, false, ◌||◌, some, ◌==◌, eqb_sound,
  inl, inr, Bool-cases, update, update_self, update_ne, bind-some, if◌then◌else◌, arith,
}
use mathlib.Core.Option.{none-ne-some, some-injective}
use tiny_coro_lab.MarkedBuffer.{set_data}
use tiny_coro_lab.MarkedBuffer.{init as empty}
use tiny_coro_lab.FixedFd.{
  Files, fix_fd_array_size, is_not_positive, Proxy, registered, open_null_fds, init_fds,
}
use tiny_coro_lab.UringProxy.{Calls, negative, Uring, make, init, close_fds, deinit}

-- Whether a descriptor is one of the `n` from `i` on.
abbrev pub among : (n i : ℕ) → (ℕ → ℕ) → ℕ → Bool
among zero i null_fds fd = false
among (suc n) i null_fds fd = (null_fds i == fd) || among n (i + 1) null_fds fd

module _ (F : Files) (C : Calls F) (enable_fixfd : Bool) where
  open C use {is_open}

  -- The loop of `deinit` closes the descriptors of its vector, and no other.
  close_fds-open :
      (n i : ℕ) (null_fds : ℕ → ℕ) (k : F.Kernel) (fd : ℕ)
      → is_open (close_fds F C enable_fixfd n i null_fds k) fd
        ≡ (if among n i null_fds fd then false else is_open k fd)
  unfolding close_fds
  close_fds-open zero i null_fds k fd = refl
  close_fds-open (suc n) i null_fds k fd =
      let rest = close_fds-open n (i + 1) null_fds (C.close (null_fds i) k) fd in
      elim (Bool-cases (null_fds i == fd)) [
        | inl same ↦ rest ∙ ground (arith, same, ap (λ f. f fd) (C.close-closes (null_fds i) k))
        | inr other ↦ rest ∙ ground (arith, other, ap (λ f. f fd) (C.close-closes (null_fds i) k))
      ]

  -- The loop of `init` leaves what the vector has.
  open_null_fds-keeps :
      (n i : ℕ) (null_fds out : ℕ → ℕ) (k k' : F.Kernel)
      → open_null_fds F enable_fixfd n i null_fds k ≡ some (out, k')
      → (j : ℕ) → j < i
      → out j ≡ null_fds j
  unfolding open_null_fds
  open_null_fds-keeps zero i null_fds out k k' h j less =
      ap (λ (x : (ℕ → ℕ) × F.Kernel). x.0 j) (sym (some-injective _ _ h))
  open_null_fds-keeps (suc n) i null_fds out k k' h j less =
      let (fd, k₁) = F.open_null k in
      elim (Bool-cases (is_not_positive fd)) [
        | inl bad ↦ absurd (none-ne-some _ (rw bad at h))
        | inr good ↦
            open_null_fds-keeps n (i + 1) (update null_fds i fd) out k₁ k' (rw good at h) j
              (omega (arith, less))
            ∙ update_ne null_fds fd (omega (arith, less))
      ]

  -- The descriptors that the loop of `init` pushes were closed before, are open after it, and differ.
  open_null_fds-open :
      (n i : ℕ) (null_fds out : ℕ → ℕ) (k k' : F.Kernel)
      → open_null_fds F enable_fixfd n i null_fds k ≡ some (out, k')
      → (fd : ℕ) → (if among n i out fd then false else is_open k' fd) ≡ is_open k fd
  unfolding open_null_fds
  open_null_fds-open zero i null_fds out k k' h fd =
      ap (λ (x : (ℕ → ℕ) × F.Kernel). is_open x.1 fd) (sym (some-injective _ _ h))
  open_null_fds-open (suc n) i null_fds out k k' h fd =
      let (new, k₁) = F.open_null k in
      elim (Bool-cases (is_not_positive new)) [
        | inl bad ↦ absurd (none-ne-some _ (rw bad at h))
        | inr good ↦
            let rest =
              open_null_fds-open n (i + 1) (update null_fds i new) out k₁ k' (rw good at h) fd in
            let here =
              open_null_fds-keeps n (i + 1) (update null_fds i new) out k₁ k' (rw good at h) i
                (omega arith)
              ∙ update_self null_fds i new in
            let opens = rest ∙ ap (λ f. f fd) (C.open_null-opens k good) in
            elim (Bool-cases (new == fd)) [
              | inl same ↦ ground (
                arith,
                here,
                same,
                ap (is_open k) (sym (eqb_sound same)),
                C.open_null-fresh k good,
              )
              | inr other ↦ ground (arith, here, other, opens)
            ]
      ]

  registered-zero :
      (p q : Proxy F enable_fixfd) (call : ℕ × F.Kernel)
      → registered F enable_fixfd p call ≡ some q
      → call.0 ≡ 0
  registered-zero p q call h = elim (Bool-cases (call.0 == 0)) [
    | inl ok ↦ eqb_sound ok
    | inr failed ↦ absurd (none-ne-some q (rw failed at h))
  ]

  -- A call that gives 0 lets the program go on, with the kernel that it leaves.
  registered-some :
      (p q : Proxy F enable_fixfd) (call : ℕ × F.Kernel)
      → registered F enable_fixfd p call ≡ some q
      → q ≡ record p { kernel = call.1 }
  registered-some p q call h = elim (Bool-cases (call.0 == 0)) [
    | inl ok ↦ sym (some-injective _ _ (rw ok at h))
    | inr failed ↦ absurd (none-ne-some q (rw failed at h))
  ]

module _ (F : Files) (C : Calls F) where
  open C use {is_open}

  -- What is open besides the `n` null descriptors.
  abbrev besides : (n : ℕ) {b : Bool} → Proxy F b → ℕ → Bool
  besides n p fd = if among n 0 p.null_fds fd then false else is_open p.kernel fd

  init_fds-open :
      (p q : Proxy F true)
      → init_fds F true p ≡ some q
      → (fd : ℕ) → besides fix_fd_array_size q fd ≡ is_open p.kernel fd
  unfolding init_fds
  init_fds-open p q h fd =
      let ((null_fds, k), opened, result) =
        bind-some (open_null_fds F true fix_fd_array_size 0 p.null_fds p.kernel) _ q h in
      let full : Proxy F true = record {
        null_fds = null_fds;
        fds = set_data fix_fd_array_size null_fds (empty p.fds);
        kernel = k;
      } in
      let call = F.register_files full.fds.contents fix_fd_array_size k in
      let last = registered-some F C true full q call result in
      ap (λ x. besides fix_fd_array_size x fd) last
      ∙ ap (λ f. if among fix_fd_array_size 0 null_fds fd then false else f fd)
          (C.register_files-opens full.fds.contents fix_fd_array_size k)
      ∙ open_null_fds-open F C true fix_fd_array_size 0 p.null_fds null_fds p.kernel k opened fd

  -- What `deinit` will find open besides the null descriptors that it closes.
  abbrev remaining : (b : Bool) → Uring F C b → ℕ → Bool
  remaining true u fd = besides u.null_count u.proxy fd
  remaining false u fd = is_open u.proxy.kernel fd

  table-open :
      (b : Bool) (efd ring_fd count : ℕ) (q r : Proxy F b)
      → init_fds F b q ≡ some r
      → (fd : ℕ)
      → (let u : Uring F C b = record {
        efd = efd;
        ring_fd = ring_fd;
        proxy = r;
        null_count = if b then fix_fd_array_size else count;
      } in
          remaining b u fd ≡ is_open q.kernel fd)
  unfolding init_fds
  table-open true efd ring_fd count q r h fd = init_fds-open q r h fd
  table-open false efd ring_fd count q r h fd =
      ap (λ (x : Proxy F false). is_open x.kernel fd) (sym (some-injective _ _ h))

  init-open :
      (b : Bool) (entry_length : ℕ) (u v : Uring F C b)
      → init F C b entry_length u ≡ some v
      → (fd : ℕ)
      → (v.efd ≡ u.efd)
        × ((if v.ring_fd == fd then false else remaining b v fd) ≡ is_open u.proxy.kernel fd)
  unfolding init
  init-open b entry_length u v h fd =
      let (res, ring_fd, k) = C.queue_init entry_length u.proxy.kernel in
      let (p, first, h₁) = bind-some (registered F b u.proxy (res, k)) _ v h in
      let event = C.register_eventfd u.efd p.kernel in
      let (q, second, h₂) = bind-some (registered F b p event) _ v h₁ in
      let (r, table, result) = bind-some (init_fds F b q) _ v h₂ in
      let out = sym (some-injective _ _ result) in
      let ok : res ≡ 0 = registered-zero F C b u.proxy p (res, k) first in
      let kept =
        ap (λ (x : Uring F C b). remaining b x fd) out
        ∙ table-open b u.efd ring_fd u.null_count q r table fd
        ∙ ap (λ (x : Proxy F b). is_open x.kernel fd) (registered-some F C b p q event second)
        ∙ ap (λ f. f fd) (C.register_eventfd-opens u.efd p.kernel)
        ∙ ap (λ (x : Proxy F b). is_open x.kernel fd)
            (registered-some F C b u.proxy p (res, k) first)
        ∙ ap (λ f. f fd) (C.queue_init-opens entry_length u.proxy.kernel ok) in
      let fresh = C.queue_init-fresh entry_length u.proxy.kernel ok in
      let ring : v.ring_fd ≡ ring_fd = ap (λ (x : Uring F C b). x.ring_fd) out in
      (
        ap (λ (x : Uring F C b). x.efd) out,
        elim (Bool-cases (ring_fd == fd)) [
          | inl same ↦
              ground (arith, ring, same, fresh, ap (is_open u.proxy.kernel) (eqb_sound same))
          | inr other ↦ ground (arith, ring, other, kept)
        ],
      )

  deinit-open :
      (b : Bool) (u : Uring F C b) (fd : ℕ)
      → is_open (deinit F C b u).proxy.kernel fd
        ≡ (if u.efd == fd then false else if u.ring_fd == fd then false else remaining b u fd)
  unfolding deinit
  deinit-open true u fd =
      let k = C.close u.efd u.proxy.kernel in
      let closed = ap (λ f. f fd) (C.close-closes u.efd u.proxy.kernel) in
      let exits =
        ap (λ f. f fd)
          (C.queue_exit-closes u.ring_fd (close_fds F C true u.null_count 0 u.proxy.null_fds k)) in
      exits ∙ ground (arith, closed, close_fds-open F C true u.null_count 0 u.proxy.null_fds k fd)
  deinit-open false u fd =
      let closed = ap (λ f. f fd) (C.close-closes u.efd u.proxy.kernel) in
      ap (λ f. f fd) (C.queue_exit-closes u.ring_fd (C.close u.efd u.proxy.kernel))
      ∙ ground (arith, closed)

  make-open :
      (b : Bool) (p : Proxy F b) (u : Uring F C b)
      → make F C b p ≡ some u
      → (fd : ℕ) → (if u.efd == fd then false else is_open u.proxy.kernel fd) ≡ is_open p.kernel fd
  unfolding make
  make-open b p u h fd = elim (Bool-cases (negative (C.eventfd p.kernel).0)) [
    | inl bad ↦ absurd (none-ne-some u (rw bad at h))
    | inr good ↦
        let out = sym (some-injective _ _ (rw good at h)) in
        let fresh = C.eventfd-fresh p.kernel good in
        let opens = ap (λ f. f fd) (C.eventfd-opens p.kernel good) in
        ap (λ (x : Uring F C b). if x.efd == fd then false else is_open x.proxy.kernel fd) out
        ∙ elim (Bool-cases ((C.eventfd p.kernel).0 == fd)) [
          | inl same ↦ ground (arith, same, fresh, ap (is_open p.kernel) (eqb_sound same))
          | inr other ↦ ground (arith, other, opens)
        ]
  ]

  -- `deinit` gives back what the constructor and `init` took, that is the eventfd, the ring and, with
  -- fixed descriptors enabled, the null descriptors: when they have not ended the program, the
  -- descriptors open after it are just those that were open before, whatever they were.
  pub deinit-closes :
      (b : Bool) (entry_length : ℕ) (p : Proxy F b) (u v : Uring F C b)
      → make F C b p ≡ some u
      → init F C b entry_length u ≡ some v
      → (fd : ℕ) → is_open (deinit F C b v).proxy.kernel fd ≡ is_open p.kernel fd
  deinit-closes b entry_length p u v made ready fd =
      let (same, kept) = init-open b entry_length u v ready fd in
      deinit-open b v fd ∙ ground (arith, ap (λ x. x == fd) same, kept) ∙ make-open b p u made fd
