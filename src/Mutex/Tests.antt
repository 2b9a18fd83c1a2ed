-- ===== src/Mutex/Tests.antt =====
-- Runs of src/comp/mutex.cpp, and its theorems at them.
use tiny_coro_lab.Prelude.{ℕ, ◌+◌, ◌≡◌, refl, ◌≢◌, true, false, List, [], ◌∷◌, arith, length}
use tiny_coro_lab.Contexts.Plain.{Ledger, plain, quiet}
use tiny_coro_lab.Mutex.{
  nolocked, Choice, lock, try_lock, idle, parked, acquired, owner, unlock_take, popping,
  locked_no_waiting, holds, System, exec, init, act, Reach, start, later,
}
use tiny_coro_lab.Mutex.Refinement.{Stepped}
use tiny_coro_lab.Mutex.Implements.{exec-Stepped, Simulated, Reach-Simulated}
use tiny_coro_lab.Mutex.Safety.{mutual_exclusion, waiter_served, free_again, asserts_hold}
use tiny_coro_lab.Mutex.Progress.{Finishes, unlock_returns}

-- A coroutine and its choices; the latest step stands first. Address `n + 2` for number `n`.
abbrev after : List (ℕ × Choice) → System Ledger
after [] = init plain quiet
after ((n, c) ∷ l) = exec plain (after l) (n + 2) c

after-Reach : (l : List (ℕ × Choice)) → Reach plain quiet (after l)
after-Reach [] = start
after-Reach ((n, c) ∷ l) = later (n + 2) c (omega arith) (after-Reach l)

abbrev locks : ℕ → Choice
locks h = record { call = lock 0 h; spurious = false }

abbrev tries : Choice
tries = record { call = try_lock; spurious = false }

-- Coroutine 2 owns the lock.
abbrev owned : List (ℕ × Choice)
owned = (0, locks 70) ∷ (0, locks 70) ∷ (0, locks 70) ∷ (0, locks 70) ∷ []

-- Coroutines 3 and 4 wait for it.
abbrev contended : List (ℕ × Choice)
contended =
    (2, locks 90)
    ∷ (2, locks 90)
    ∷ (2, locks 90)
    ∷ (1, locks 80)
    ∷ (1, locks 80)
    ∷ (1, locks 80)
    ∷ owned

-- Coroutine 2 has unlocked: seven steps.
abbrev passed_on : List (ℕ × Choice)
passed_on =
    (0, tries)
    ∷ (0, tries)
    ∷ (0, tries)
    ∷ (0, tries)
    ∷ (0, tries)
    ∷ (0, tries)
    ∷ (0, tries)
    ∷ contended

contended_pcs :
    ((after contended).pc 2 ≡ owner)
    × ((after contended).pc 3 ≡ parked)
    × ((after contended).pc 4 ≡ parked)
    × ((after contended).mem.state ≡ 4)
unfolding exec init act
contended_pcs = (refl, refl, refl, refl)

-- The first that came is the first served, and its handle goes to its context.
passed_on_runs :
    ((after passed_on).pc 2 ≡ idle)
    × ((after passed_on).pc 3 ≡ acquired)
    × ((after passed_on).mem.resume_list_head ≡ 4)
    × ((after passed_on).mem.world.tasks 0 ≡ 80 ∷ [])
    × ((after passed_on).mem.world.waits 0 ≡ 2)
unfolding exec init act
passed_on_runs = (refl, refl, refl, refl, refl)

-- A failed `try_lock` changes nothing.
try_lock_busy : ((after ((3, tries) ∷ owned)).pc 5 ≡ idle) × ((after owned).mem.state ≡ 0)
unfolding exec init act
try_lock_busy = (refl, refl)

sim : Simulated (after contended)
sim = Reach-Simulated plain (after-Reach contended)

exec-Stepped_example : Stepped 2 sim.spec (exec plain (after contended) 2 tries)
exec-Stepped_example =
    exec-Stepped plain (after contended) sim.spec 2 tries (omega arith) sim.refines

Reach-Simulated_example : Simulated (after passed_on)
Reach-Simulated_example = Reach-Simulated plain (after-Reach passed_on)

mutual_exclusion_example : ◌≡◌ {A = ℕ} 3 3
unfolding exec init act
mutual_exclusion_example = mutual_exclusion plain (after-Reach passed_on) 3 3 refl refl

waiter_served_example :
    (j : ℕ) × (holds ((after contended).pc j) ≡ true) × ((after contended).mem.state ≢ nolocked)
unfolding exec init act
waiter_served_example = waiter_served plain (after-Reach contended) 4 refl

free_again_run : (after []).mem.state ≡ nolocked
unfolding init
free_again_run = free_again plain (after-Reach []) (λ i. refl)

asserts_hold_example :
    ((after contended).pc 2 ≡ owner → (after contended).mem.state ≢ nolocked)
    × ((after contended).pc 2 ≡ unlock_take
        → ((after contended).mem.state ≢ nolocked)
          × ((after contended).mem.state ≢ locked_no_waiting))
    × ((t : ℕ) → (after contended).pc 2 ≡ popping t → t ≢ 0)
asserts_hold_example = asserts_hold plain (after-Reach contended) 2

unlock_returns_example :
    Finishes plain (length sim.spec.queue + 5) sim.spec 2 tries (after contended)
unfolding exec init act
unlock_returns_example =
    unlock_returns plain (after contended) sim.spec 2 tries (omega arith) sim.refines refl
