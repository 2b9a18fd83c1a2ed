-- ===== src/Engine/Fields.antt =====
-- The three bit fields of the eventfd of include/coro/engine.hpp.
use tiny_coro_lab.Prelude.{ℕ, ◌+◌, ◌*◌, ◌/◌, ◌%◌, ◌^◌, ◌≡◌, ap, ◌<◌, arith, ltb}
use tiny_coro_lab.Engine.{task_flag, io_flag, wake_by_task, wake_by_io, wake_by_cqe}

-- The fields do not run into one another: the value that `t` writes of `task_flag`, `j` of `io_flag`
-- and `c` completions add up to is read back as task, io and completion exactly where these are not
-- zero, for fewer than 2 ^ 20, 2 ^ 20 and 2 ^ 24 of them.
pub fields_apart :
    (t j c : ℕ)
    → t < 2 ^ 20
    → j < 2 ^ 20
    → c < 2 ^ 24
    → (wake_by_task (t * task_flag + j * io_flag + c) ≡ ltb 0 t)
      × (wake_by_io (t * task_flag + j * io_flag + c) ≡ ltb 0 j)
      × (wake_by_cqe (t * task_flag + j * io_flag + c) ≡ ltb 0 c)
fields_apart t j c ht hj hc =
    let v = t * task_flag + j * io_flag + c in
    let task : v / task_flag % 2 ^ 20 ≡ t = omega arith in
    let io : v / io_flag % 2 ^ 20 ≡ j = omega arith in
    let cqe : v % io_flag ≡ c = omega arith in (ap (ltb 0) task, ap (ltb 0) io, ap (ltb 0) cqe)
