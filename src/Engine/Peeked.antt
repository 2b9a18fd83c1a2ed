-- ===== src/Engine/Peeked.antt =====
-- What `poll_submit` of src/engine.cpp finds in the ring.
use tiny_coro_lab.Prelude.{ℕ, List, [], if◌then◌else◌}
use tiny_coro_lab.Engine.{Platform, Cqe, Engine, wake_by_cqe, do_io_submit}

-- The completions that `peek_batch_cqe` gives in the order of the ring, if what was read from the
-- eventfd says that there are some.
abbrev pub found : (P : Platform) → (cnt : ℕ) → Engine P → List Cqe
found P cnt e = if wake_by_cqe cnt then (P.peek_batch_cqe e.num_io_running e.kernel).0 else []

-- Those that a `poll_submit` finds, after it has submitted and waited.
abbrev pub peeked : (P : Platform) → Engine P → List Cqe
peeked P e =
    let e1 = do_io_submit P e in
    let c = P.wait_eventfd e1.kernel in found P c.0 (record e1 { kernel = c.1 })
