-- ===== src/UringProxy/Tests.antt =====
-- A run of include/coro/uring_proxy.hpp: eight null descriptors, the eventfd and the ring are opened and closed.
use tiny_coro_lab.Prelude.{◌≡◌, refl, true, false, [], Option, none, some, ◌==◌}
use tiny_coro_lab.MarkedBuffer.{indices, set_data}
use tiny_coro_lab.MarkedBuffer.{init as empty}
use tiny_coro_lab.FixedFd.{Proxy, open_null_fds, init_fds}
use tiny_coro_lab.UringProxy.{Uring, make, init, deinit}
use tiny_coro_lab.UringProxy.Closing.{deinit-closes}
use tiny_coro_lab.UringProxy.Plain.{plain_files, plain_calls}

abbrev blank : Proxy plain_files true
blank = record {
  null_fds = λ _. 0;
  fds = record { contents = λ _. 0; que = [] };
  kernel = record { table = λ _. 0; next = 3; opened = λ fd. fd == 1 };
}

abbrev from_some : Option (Uring plain_files plain_calls true) → Uring plain_files plain_calls true
from_some (some u) = u
from_some none = record { efd = 0; ring_fd = 0; proxy = blank; null_count = 0 }

abbrev made : Uring plain_files plain_calls true
made = from_some (make plain_files plain_calls true blank)

abbrev ready : Uring plain_files plain_calls true
ready = from_some (init plain_files plain_calls true 64 made)

made-some : make plain_files plain_calls true blank ≡ some made
unfolding make
made-some = refl

ready-some : init plain_files plain_calls true 64 made ≡ some ready
unfolding make init init_fds open_null_fds set_data empty indices
ready-some = refl

ready_open : ready.proxy.kernel.opened 11 ≡ true
unfolding make init init_fds open_null_fds set_data empty indices
ready_open = refl

deinit-closes_example : (deinit plain_files plain_calls true ready).proxy.kernel.opened 11 ≡ false
deinit-closes_example =
    deinit-closes plain_files plain_calls true 64 blank made ready made-some ready-some 11
