-- ===== src/Timer/Tests.antt =====
-- A chain of calls of include/coro/timer.hpp.
use tiny_coro_lab.Prelude.{◌+◌, ◌≡◌, arith, List, [], ◌∷◌}
use tiny_coro_lab.Timer.{Timespec, Add, seconds, mseconds, useconds, nseconds, add_all}
use tiny_coro_lab.Timer.Total.{asked_sec, asked_nsec, add_all-total}

-- What stood in the memory before.
abbrev found : Timespec
found = record { tv_sec = 7; tv_nsec = 11 }

abbrev chain : List Add
chain = seconds 1 ∷ mseconds 1500 ∷ useconds 3 ∷ nseconds 4 ∷ []

add_all-total_run :
    ((add_all chain found).tv_sec ≡ 7 + asked_sec chain)
    × ((add_all chain found).tv_nsec ≡ 11 + asked_nsec chain)
add_all-total_run = add_all-total chain found (omega arith) (omega arith)
