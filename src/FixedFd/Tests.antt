-- ===== src/FixedFd/Tests.antt =====
-- Connectors over a kernel that takes every call, and the theorems at them.
use tiny_coro_lab.Prelude.{ℕ, ◌≡◌, refl, Bool, true, false, none, some, [], ◌∷◌}
use mathlib.Core.Option.{get_or}
use tiny_coro_lab.MarkedBuffer.{init, set_data, borrow_item, borrow, indices}
use tiny_coro_lab.Io.Awaiters.{read_awaiter, write_awaiter, close_awaiter}
use tiny_coro_lab.FixedFd.{
  Proxy, open_null_fds, init_fds, get_fixed_fd, update_register_fixed_fds, assign, Connector,
  connect_socket, close, read, write,
}
use tiny_coro_lab.FixedFd.Invariant.{Reach, inits, opens, resolve}
use tiny_coro_lab.FixedFd.Sockets.{
  reaches_socket, close-connect_socket, SameTable, connect_socket-disabled,
}
use tiny_coro_lab.FixedFd.Plain.{table_files}

blank : {enabled : Bool} → Proxy table_files enabled
blank = record {
  null_fds = λ i. 0;
  fds = record { contents = λ i. 0; que = [] };
  kernel = (λ i. 0, 0);
}

ready : Proxy table_files true
ready = get_or (init_fds table_files true blank) blank

inited : init_fds table_files true blank ≡ some ready
unfolding init_fds open_null_fds set_data init indices blank ready
inited = refl

-- The connectors of the sockets 5 and 6.
first : Connector × Proxy table_files true
first =
    get_or (connect_socket table_files true 5 ready)
      (record { sockfd = 0; original_fd = 0; fixed_fd = none; sqe_flag = 0 }, ready)

second : Connector × Proxy table_files true
second = get_or (connect_socket table_files true 6 first.1) first

two_open : Reach table_files second.1 (second.0 ∷ first.0 ∷ [])
unfolding connect_socket get_fixed_fd borrow_item borrow assign update_register_fixed_fds first
    second ready init_fds open_null_fds set_data init indices blank
two_open = opens 6 second.0 (opens 5 first.0 (inits blank ready inited) refl) refl

second_at : (second.0.sockfd ≡ 1) × (second.0.sqe_flag ≡ 1) × (second.0.original_fd ≡ 6)
unfolding connect_socket get_fixed_fd borrow_item borrow assign update_register_fixed_fds first
    second ready init_fds open_null_fds set_data init indices blank
second_at = (refl, refl, refl)

reaches_socket_example :
    (fd : ℕ) × (flag : ℕ) × (read 100 64 0 first.0 ≡ read_awaiter fd 100 64 0 flag)
    × (write 100 64 0 first.0 ≡ write_awaiter fd 100 64 0 flag)
    × (resolve table_files fd flag second.1.kernel ≡ first.0.original_fd)
reaches_socket_example = reaches_socket table_files (second.0 ∷ []) [] first.0 100 64 0 two_open

close-connect_socket_example :
    (c : Connector) × (q : Proxy table_files true) × (d : Connector) × (r : Proxy table_files true)
    × (connect_socket table_files true 7 second.1 ≡ some (c, q))
    × (close table_files true c q ≡ some (close_awaiter 7, d, r))
    × SameTable table_files second.1 r
close-connect_socket_example = close-connect_socket table_files 7 (λ fds k. refl) two_open

connect_socket-disabled_run :
    (let c : Connector = record { sockfd = 5; original_fd = 5; fixed_fd = none; sqe_flag = 0 } in
      (connect_socket table_files false 5 blank ≡ some (c, blank))
      × (close table_files false c blank ≡ some (close_awaiter 5, c, blank)))
connect_socket-disabled_run = connect_socket-disabled table_files 5 blank
