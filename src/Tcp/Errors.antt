-- ===== src/Tcp/Errors.antt =====
-- The errors of the operating system that end the constructors of src/io/net/tcp/tcp.cpp, and one that
-- does not.
use tiny_coro_lab.Prelude.{
  ℕ, ◌%◌, ◌/◌, ◌^◌, ◌<◌, ◌≢◌, subst, false, arith, ◌≡◌, refl, sym, ◌∙◌, ap, Bool, inl, inr,
  Bool-cases, eqb_sound, Option, none, some, ◌==◌, not, if◌then◌else◌,
}
use tiny_coro_lab.FixedFd.{Files, Proxy, get_fixed_fd, assign}
use tiny_coro_lab.Tcp.{
  Sockets, Outcome, aborts, ◌>>=◌, negative, htons, SockaddrIn, clientfd_init_error,
  update_register_failed, check_fd, Message, addr_invalid, address_error, server_bind_error,
  server_listen_error, done, exits, minus_one, backlog, set_fd_noblock, assert, check, assigned,
  servaddr, make_client, Server, make_server,
}
use tiny_coro_lab.Tcp.Noblock.{done-inj, exits-ne-done, bind-done}

abbrev tag : Message → ℕ
tag addr_invalid = 0
tag address_error = 1
tag server_bind_error = 2
tag server_listen_error = 3
tag clientfd_init_error = 4
tag update_register_failed = 5

-- A call does not end the program with this message.
abbrev Avoids {ℓ} : {A : Type ℓ} → Message → Outcome A → Type 0
Avoids m (done a) = Unit {0}
Avoids m (exits n) = tag n ≢ tag m
Avoids m aborts = Unit {0}

Avoids-ne {ℓ} : {A : Type ℓ} (m : Message) (o : Outcome A) → Avoids m o → o ≢ exits m
Avoids-ne m o h e = subst (Avoids m) e h refl

bind-Avoids {ℓ κ} :
    {A : Type ℓ} {B : Type κ} (m : Message) (o : Outcome A) (f : A → Outcome B)
    → Avoids m o
    → ((a : A) → Avoids m (f a))
    → Avoids m (o >>= f)
bind-Avoids m (done a) f h rest = rest a
bind-Avoids m (exits n) f h rest = h
bind-Avoids m aborts f h rest = tt

module _ (S : Sockets) (ndebug : Bool) where
  check-zero :
      (m : Message) (res : ℕ) (u : Unit {0})
      → (if not (res == 0) then exits m else done tt) ≡ done u
      → res ≡ 0
  check-zero m res u h = elim (Bool-cases (res == 0)) [
    | inl zero_res ↦ eqb_sound zero_res
    | inr other ↦ absurd (exits-ne-done {a = u} {m = m} (rw other at h))
  ]

  -- What the address of a server or a client is: any address without a text, and otherwise what
  -- `inet_pton` has left, when that has not failed.
  abbrev pub Address : Option S.Text → ℕ → Type 0
  Address none a = a ≡ 0
  Address (some t) a = (negative (S.inet_pton t 0).0 ≡ false) × (a ≡ (S.inet_pton t 0).1)

  -- A port in the order of the network has the bytes of the port, the high one first.
  abbrev pub InNetworkOrder : (port sin_port : ℕ) → Type 0
  InNetworkOrder port sin_port =
      (sin_port % 2 ^ 8 ≡ port / 2 ^ 8) × (sin_port / 2 ^ 8 ≡ port % 2 ^ 8)

  htons_lem : (port : ℕ) → port < 2 ^ 16 → InNetworkOrder port (htons port)
  unfolding htons
  htons_lem port small = (omega (arith, small), omega (arith, small))

  servaddr-Address :
      (m : Message) (addr : Option S.Text) (port : ℕ) (a : SockaddrIn)
      → port < 2 ^ 16
      → servaddr S ndebug m addr port ≡ done a
      → InNetworkOrder port a.sin_port × Address addr a.sin_addr
  unfolding servaddr
  servaddr-Address m none port a small h =
      let out = done-inj h in
      (
        subst (λ (x : SockaddrIn). InNetworkOrder port x.sin_port) out (htons_lem port small),
        sym (ap (λ (x : SockaddrIn). x.sin_addr) out),
      )
  servaddr-Address m (some t) port a small h = elim (Bool-cases (negative (S.inet_pton t 0).0)) [
    | inl bad ↦ absurd (exits-ne-done {a = a} {m = m} (rw bad at h))
    | inr good ↦
        let out = done-inj (rw good at h) in
        (
          subst (λ (x : SockaddrIn). InNetworkOrder port x.sin_port) out (htons_lem port small),
          (good, sym (ap (λ (x : SockaddrIn). x.sin_addr) out)),
        )
  ]

  assert-Avoids : (m : Message) (b : Bool) → Avoids m (assert S ndebug b)
  assert-Avoids m b = ground arith

  set_fd_noblock-Avoids :
      (m : Message) (fd : ℕ) (k : S.Kernel) → Avoids m (set_fd_noblock S ndebug fd k)
  unfolding set_fd_noblock
  set_fd_noblock-Avoids m fd k =
      let flags = (S.fcntl_getfl fd k).0 in
      bind-Avoids m (assert S ndebug (not (negative flags))) _
        (assert-Avoids m (not (negative flags))) λ u. ground arith

  servaddr-Avoids :
      (m : Message) (t : S.Text) (port : ℕ)
      → (S.inet_pton t 0).0 ≡ 0
      → Avoids m (servaddr S ndebug m (some t) port)
  unfolding servaddr
  servaddr-Avoids m t port h = rw h tt

  check-Avoids : (m n : Message) (res : ℕ) → tag n ≢ tag m → Avoids m (check S ndebug n res)
  check-Avoids m n res ne = ground (arith, ne)

  check_fd-Avoids :
      (m : Message) (fd : ℕ) → tag clientfd_init_error ≢ tag m → Avoids m (check_fd S ndebug fd)
  check_fd-Avoids m fd ne = ground (arith, ne)

  module _ (F : Files) (enable_fixfd : Bool) where
    -- A server whose constructor returns, with a port below 2 ^ 16, is bound and listens: the socket
    -- that was opened is bound to the bytes of the port, the high one first, and to any address
    -- without a text, and otherwise to what `inet_pton` has left for the text, when that has not given
    -- a negative number; then it listens. Both calls have succeeded, and nothing is called after them.
    pub make_server-listens :
        (addr : Option S.Text) (port : ℕ) (k k' : S.Kernel) (p p' : Proxy F enable_fixfd)
        (s : Server S ndebug)
        → port < 2 ^ 16
        → make_server S ndebug F enable_fixfd addr port k p ≡ done (s, k', p')
        → (let fd = (S.socket k).0 in
            (k₁ : S.Kernel) × (set_fd_noblock S ndebug fd (S.socket k).1 ≡ done k₁)
            × InNetworkOrder port s.servaddr.sin_port
            × Address addr s.servaddr.sin_addr
            × ((S.bind fd s.servaddr.sin_port s.servaddr.sin_addr k₁).0 ≡ 0)
            × (let k₂ = (S.bind fd s.servaddr.sin_port s.servaddr.sin_addr k₁).1 in
                ((S.listen fd backlog k₂).0 ≡ 0) × (k' ≡ (S.listen fd backlog k₂).1)))
    unfolding make_server
    make_server-listens addr port k k' p p' s small h =
        let (item, p₁) = get_fixed_fd F enable_fixfd p in
        let fd = (S.socket k).0 in
        let (u, asserted, h₁) =
          bind-done (assert S ndebug (not (fd == minus_one))) _ (s, k', p') h in
        let (k₁, blocks, h₂) =
          bind-done (set_fd_noblock S ndebug fd (S.socket k).1) _ (s, k', p') h₁ in
        let (a, address, h₃) =
          bind-done (servaddr S ndebug addr_invalid addr port) _ (s, k', p') h₂ in
        let b = S.bind fd a.sin_port a.sin_addr k₁ in
        let (v, bound, h₄) = bind-done (check S ndebug server_bind_error b.0) _ (s, k', p') h₃ in
        let l = S.listen fd backlog b.1 in
        let (w, listens, h₅) =
          bind-done (check S ndebug server_listen_error l.0) _ (s, k', p') h₄ in
        let (r, registered, h₆) =
          bind-done (assigned S ndebug F enable_fixfd (assign F enable_fixfd item fd 0 p₁)) _
            (s, k', p') h₅ in
        let out = done-inj h₆ in
        let same : a ≡ s.servaddr =
          ap (λ (x : Server S ndebug × S.Kernel × Proxy F enable_fixfd). x.0.servaddr) out in
        (
          k₁,
          blocks,
          (servaddr-Address addr_invalid addr port s.servaddr small (address ∙ ap done same)).0,
          (servaddr-Address addr_invalid addr port s.servaddr small (address ∙ ap done same)).1,
          rw (← same) (check-zero server_bind_error b.0 v bound),
          rw (← same) (
            check-zero server_listen_error l.0 w listens,
            sym (ap (λ (x : Server S ndebug × S.Kernel × Proxy F enable_fixfd). x.1) out),
          ),
        )

    assigned-Avoids :
        (m : Message) (r : Option (ℕ × ℕ × Proxy F enable_fixfd))
        → tag update_register_failed ≢ tag m
        → Avoids m (assigned S ndebug F enable_fixfd r)
    assigned-Avoids m none ne = ne
    assigned-Avoids m (some r) ne = tt

    -- The message for an invalid address is not given for a text that is no address: neither
    -- constructor ends with it then, whatever the operating system does.
    pub servaddr-no_address :
        (t : S.Text) (port : ℕ) (k : S.Kernel) (p : Proxy F enable_fixfd)
        → (S.inet_pton t 0).0 ≡ 0
        → (make_server S ndebug F enable_fixfd (some t) port k p ≢ exits addr_invalid)
          × (make_client S ndebug (some t) port k ≢ exits address_error)
    unfolding make_server make_client
    servaddr-no_address t port k p h =
        let (item, p₁) = get_fixed_fd F enable_fixfd p in
        let fd = (S.socket k).0 in
        (
          Avoids-ne addr_invalid (make_server S ndebug F enable_fixfd (some t) port k p) (
              bind-Avoids addr_invalid (assert S ndebug (not (fd == minus_one))) _
                (assert-Avoids addr_invalid (not (fd == minus_one)))
                λ u.
                  bind-Avoids addr_invalid (set_fd_noblock S ndebug fd (S.socket k).1) _
                    (set_fd_noblock-Avoids addr_invalid fd (S.socket k).1)
                    λ k₁.
                      bind-Avoids addr_invalid (servaddr S ndebug addr_invalid (some t) port) _
                        (servaddr-Avoids addr_invalid t port h)
                        λ a.
                          let b = S.bind fd a.sin_port a.sin_addr k₁ in
                          bind-Avoids addr_invalid (check S ndebug server_bind_error b.0) _
                            (check-Avoids addr_invalid server_bind_error b.0 (omega arith))
                            λ v.
                              let l = S.listen fd backlog b.1 in
                              bind-Avoids addr_invalid (check S ndebug server_listen_error l.0) _
                                (check-Avoids addr_invalid server_listen_error l.0 (omega arith))
                                λ w.
                                  bind-Avoids addr_invalid
                                    (assigned S ndebug F enable_fixfd
                                      (assign F enable_fixfd item fd 0 p₁))
                                    _
                                    (assigned-Avoids addr_invalid
                                      (assign F enable_fixfd item fd 0 p₁) (omega arith))
                                    λ r. tt),
          Avoids-ne address_error (make_client S ndebug (some t) port k) (
              bind-Avoids address_error (check_fd S ndebug fd) _
                (check_fd-Avoids address_error fd (omega arith))
                λ u.
                  bind-Avoids address_error (set_fd_noblock S ndebug fd (S.socket k).1) _
                    (set_fd_noblock-Avoids address_error fd (S.socket k).1)
                    λ k₁.
                      bind-Avoids address_error (servaddr S ndebug address_error (some t) port) _
                        (servaddr-Avoids address_error t port h) λ a. tt),
        )
