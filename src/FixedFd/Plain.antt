-- ===== src/FixedFd/Plain.antt =====
-- A kernel whose table is a function, which takes every call and opens the descriptors 100, 101, …
-- on the null device.
use tiny_coro_lab.Prelude.{ℕ, ◌+◌, refl}
use tiny_coro_lab.FixedFd.{Files}

abbrev pub table_files : Files
table_files = record {
  Kernel = (ℕ → ℕ) × ℕ;
  table = λ k. k.0;
  register_files = λ fds n k. (0, (fds, k.1));
  register_files_update = λ fds n k. (n, (fds, k.1));
  open_null = λ k. (100 + k.1, (k.0, k.1 + 1));
  register-table = λ fds n k i ok small. refl;
  update-table = λ fds n k i ok small. refl;
}
