-- ===== src/Spinlock/Tests.antt =====
-- Two threads at a spinlock of include/coro/spinlock.hpp, and the theorems at them.
use tiny_coro_lab.Prelude.{ℕ, ◌≡◌, ◌≤◌, ◌⊎◌, ◌↔◌, refl, inr, true}
use tiny_coro_lab.Spinlock.{
  idle, spinning, holding, Spinlock, fresh, access, go, lock, try_lock, unlock, Reach, made, locks,
  goes, alone,
}
use tiny_coro_lab.Spinlock.Exclusion.{lock_excludes}
use tiny_coro_lab.Spinlock.Progress.{lock_takes, try_lock_returns}

-- Thread 0 has the lock, and thread 1 waits for it.
contended : Spinlock
contended = go 1 (lock 1 (go 0 (lock 0 fresh)))

contended-Reach : Reach contended
unfolding contended go access lock
contended-Reach = goes 1 (locks 1 (goes 0 (locks 0 made refl)) refl)

contended_at :
    (contended.pc 0 ≡ holding) × (contended.pc 1 ≡ spinning) × (contended.lock_flag ≡ true)
unfolding contended go access lock
contended_at = (refl, refl, refl)

lock_excludes_example :
    ((t u : ℕ) → contended.pc t ≡ holding → contended.pc u ≡ holding → t ≡ u)
    × ((contended.lock_flag ≡ true) ↔ ((t : ℕ) × (contended.pc t ≡ holding)))
lock_excludes_example = lock_excludes contended-Reach

freed : Spinlock
unfolding contended
freed = unlock 0 contended

lock_takes_run : (n : ℕ) × (n ≤ 2) × ((alone 1 n freed).pc 1 ≡ holding)
unfolding freed contended unlock go access lock
lock_takes_run = lock_takes 1 freed refl (inr refl)

-- Between the two accesses of `try_lock` by thread 1 another thread takes the lock.
asked : Spinlock
asked = try_lock 1 fresh

overtaken : Spinlock
unfolding asked
overtaken = go 0 (lock 0 (go 1 asked))

try_lock_returns_run :
    ((go 1 asked).pc 1 ≡ idle)
    ⊎ (((go 1 overtaken).pc 1 ≡ idle) ⊎ ((go 1 overtaken).pc 1 ≡ holding))
unfolding asked overtaken try_lock lock go access
try_lock_returns_run = try_lock_returns 1 asked overtaken refl refl

overtaken_fails : (go 1 overtaken).pc 1 ≡ idle
unfolding asked overtaken try_lock lock go access
overtaken_fails = refl
