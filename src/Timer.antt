-- ===== src/Timer.antt =====
-- include/coro/timer.hpp: the time spec that the chained calls of a timer add up. Its fields are 64-bit
-- words.
pub mod Total
mod Tests
use tiny_coro_lab.Prelude.{ℕ, ◌+◌, ◌*◌, ◌%◌, ◌^◌, List, [], ◌∷◌}

-- `__kernel_timespec`.
pub record Timespec : Type 0 where
  pub tv_sec : ℕ
  pub tv_nsec : ℕ

abbrev pub word : ℕ → ℕ
word n = n % 2 ^ 64

pub add_seconds : ℕ → Timespec → Timespec
add_seconds n ts = record ts { tv_sec = word (ts.tv_sec + n) }

pub add_mseconds : ℕ → Timespec → Timespec
add_mseconds n ts = record ts { tv_nsec = word (ts.tv_nsec + word (1000000 * n)) }

pub add_useconds : ℕ → Timespec → Timespec
add_useconds n ts = record ts { tv_nsec = word (ts.tv_nsec + word (1000 * n)) }

pub add_nseconds : ℕ → Timespec → Timespec
add_nseconds n ts = record ts { tv_nsec = word (ts.tv_nsec + n) }

pub data Add : Type 0 where
  seconds : ℕ → Add
  mseconds : ℕ → Add
  useconds : ℕ → Add
  nseconds : ℕ → Add

pub add : Add → Timespec → Timespec
unfolding add_seconds add_mseconds add_useconds add_nseconds
add (seconds n) ts = add_seconds n ts
add (mseconds n) ts = add_mseconds n ts
add (useconds n) ts = add_useconds n ts
add (nseconds n) ts = add_nseconds n ts

-- A chain of calls, the first one first. The constructor leaves the spec as it finds it, so `ts` is
-- any spec.
pub add_all : List Add → Timespec → Timespec
unfolding add
add_all [] ts = ts
add_all (a ∷ l) ts = add_all l (add a ts)
