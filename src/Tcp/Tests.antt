-- ===== src/Tcp/Tests.antt =====
-- A server on a system that grants every call, and the theorems at it.
use tiny_coro_lab.Prelude.{ℕ, ◌≡◌, ◌≢◌, arith, refl, true, false, none, some, update, []}
use tiny_coro_lab.FixedFd.{Proxy, get_fixed_fd, assign}
use tiny_coro_lab.FixedFd.Plain.{table_files}
use tiny_coro_lab.Tcp.{
  exits, address_error, addr_invalid, done, backlog, htons, with_nonblock, set_fd_noblock, servaddr,
  make_client, Server, make_server,
}
use tiny_coro_lab.Tcp.Errors.{InNetworkOrder, Address, make_server-listens, servaddr-no_address}
use tiny_coro_lab.Tcp.Noblock.{set_fd_noblock-ndebug, set_fd_noblock-sets}
use tiny_coro_lab.Tcp.Plain.{granting}

abbrev kernel : (ℕ → ℕ) × ℕ
kernel = (λ fd. 2, 0)

abbrev proxy : Proxy table_files false
proxy = record {
  null_fds = λ i. 0;
  fds = record { contents = λ i. 0; que = [] };
  kernel = (λ i. 0, 0);
}

abbrev server : Server granting false
server = record {
  listenfd = 3;
  port = 8000;
  servaddr = record { sin_port = 16415; sin_addr = 9 };
  fixed_fd = none;
  sqe_flag = 0;
}

abbrev listening : (ℕ → ℕ) × ℕ
listening = (update (λ fd. 2) 3 2050, 1)

serves :
    make_server granting false table_files false (some (some 9)) 8000 kernel proxy
    ≡ done (server, listening, proxy)
unfolding make_server set_fd_noblock servaddr htons get_fixed_fd assign
serves = refl

make_server-listens_example :
    (let fd = (granting.socket kernel).0 in
      (k₁ : granting.Kernel) × (set_fd_noblock granting false fd (granting.socket kernel).1
        ≡ done k₁)
      × InNetworkOrder granting false 8000 server.servaddr.sin_port
      × Address granting false (some (some 9)) server.servaddr.sin_addr
      × ((granting.bind fd server.servaddr.sin_port server.servaddr.sin_addr k₁).0 ≡ 0)
      × (let k₂ = (granting.bind fd server.servaddr.sin_port server.servaddr.sin_addr k₁).1 in
          ((granting.listen fd backlog k₂).0 ≡ 0)
          × (listening ≡ (granting.listen fd backlog k₂).1)))
make_server-listens_example =
    make_server-listens granting false table_files false (some (some 9)) 8000 kernel listening proxy
      proxy server (omega arith) serves

servaddr-no_address_example :
    (make_server granting false table_files false (some none) 8000 kernel proxy
      ≢ exits addr_invalid)
    × (make_client granting false (some none) 8000 kernel ≢ exits address_error)
servaddr-no_address_example =
    servaddr-no_address granting false table_files false none 8000 kernel proxy refl

set_fd_noblock-ndebug_example :
    (k' : granting.Kernel) × (set_fd_noblock granting true 3 kernel ≡ done k')
    × ((n : ℕ) → granting.status_flags k' n ≡ granting.status_flags kernel n)
set_fd_noblock-ndebug_example = set_fd_noblock-ndebug granting 3 kernel

noblock_set : set_fd_noblock granting false 3 kernel ≡ done (update (λ fd. 2) 3 2050, 0)
unfolding set_fd_noblock
noblock_set = refl

set_fd_noblock-sets_run : update (λ fd. 2) 3 2050 3 ≡ with_nonblock 2
set_fd_noblock-sets_run =
    set_fd_noblock-sets granting 3 kernel (update (λ fd. 2) 3 2050, 0) noblock_set
