-- ===== src/Spinlock.antt =====
-- include/coro/spinlock.hpp: threads that call the operations of one spinlock, an access of its flag
-- at a time.
pub mod Exclusion
pub mod Progress
mod Tests
use tiny_coro_lab.Prelude.{ℕ, zero, suc, ◌≡◌, Bool, true, false, not, update, if◌then◌else◌}

-- Where a thread is: outside; before the exchange or within the inner loop of `lock`; before the load
-- or the exchange of `try_lock`; or it has the lock.
pub data Pc : Type 0 where
  idle : Pc
  exchanging : Pc
  spinning : Pc
  try_loading : Pc
  try_exchanging : Pc
  holding : Pc

pub record Spinlock : Type 0 where
  pub lock_flag : Bool
  pub pc : ℕ → Pc

-- A new lock, and no thread at it.
abbrev pub fresh : Spinlock
fresh = record { lock_flag = false; pc = λ t. idle }

-- The flag and the thread after the access that a thread makes next.
pub access : Pc → Bool → Bool × Pc
access idle flag = (flag, idle)
access exchanging flag = (true, if not flag then holding else spinning)
access spinning flag = (flag, if flag then spinning else exchanging)
access try_loading flag = (flag, if not flag then try_exchanging else idle)
access try_exchanging flag = (true, if not flag then holding else idle)
access holding flag = (flag, holding)

pub go : ℕ → Spinlock → Spinlock
unfolding access
go t s =
    let (flag, p) = access (s.pc t) s.lock_flag in record { lock_flag = flag; pc = update s.pc t p }

pub lock : ℕ → Spinlock → Spinlock
lock t s = record s { pc = update s.pc t exchanging }

pub try_lock : ℕ → Spinlock → Spinlock
try_lock t s = record s { pc = update s.pc t try_loading }

pub unlock : ℕ → Spinlock → Spinlock
unlock t s = record { lock_flag = false; pc = update s.pc t idle }

-- A thread calls from outside, and unlocks what it holds.
pub data Reach : Spinlock → Type 0 where
  made : Reach fresh
  locks : {s : Spinlock} (t : ℕ) → Reach s → s.pc t ≡ idle → Reach (lock t s)
  tries : {s : Spinlock} (t : ℕ) → Reach s → s.pc t ≡ idle → Reach (try_lock t s)
  unlocks : {s : Spinlock} (t : ℕ) → Reach s → s.pc t ≡ holding → Reach (unlock t s)
  goes : {s : Spinlock} (t : ℕ) → Reach s → Reach (go t s)

-- Thread `t` makes `n` accesses, and no other thread moves.
pub alone : ℕ → ℕ → Spinlock → Spinlock
unfolding go
alone t zero s = s
alone t (suc n) s = alone t n (go t s)
