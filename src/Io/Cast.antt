-- ===== src/Io/Cast.antt =====
-- The descriptor that `tcp_connect_awaiter` of src/io/io_awaiter.cpp keeps in a pointer-sized field.
use tiny_coro_lab.Prelude.{ℕ, ◌^◌, ◌≡◌, ◌<◌, arith}
use tiny_coro_lab.Io.{cast_data, cast_int}

-- An `int`, a negative one too, comes back from the `uintptr_t` that it was cast to.
pub cast_int-cast_data : (n : ℕ) → n < 2 ^ 32 → cast_int (cast_data n) ≡ n
unfolding cast_int cast_data
cast_int-cast_data n small = ground arith
