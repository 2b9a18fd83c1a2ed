-- ===== src/Event/Tests.antt =====
-- Runs of src/comp/event.cpp, and its theorems at them.
use tiny_coro_lab.Prelude.{
  ℕ, suc, ◌+◌, ◌≡◌, refl, ◌≢◌, true, false, List, [], ◌∷◌, some, arith, count, length, ◌⊎◌,
}
use tiny_coro_lab.Contexts.Plain.{Ledger, plain, quiet}
use tiny_coro_lab.Waiters.{Chain}
use tiny_coro_lab.Event.{
  Choice, wait, set, parked, returned, walking, waiting, System, exec, init, act, Reach, start,
  later,
}
use tiny_coro_lab.Event.Invariant.{given}
use tiny_coro_lab.Event.Safety.{wakeup_owed, result_after_set, one_waker, stays_set}
use tiny_coro_lab.Event.Waking.{solo, all_woken, set_wakes_all}

-- The event stands at address 1; coroutine number `n` has the address `n + 2`.
abbrev after : List (ℕ × Choice ℕ) → System ℕ Ledger
after [] = init plain 1 false quiet
after ((n, c) ∷ l) = exec plain 1 (after l) (n + 2) c

after-Reach : (l : List (ℕ × Choice ℕ)) → Reach plain 1 false quiet (after l)
after-Reach [] = start
after-Reach ((n, c) ∷ l) = later (n + 2) c (omega arith) (omega arith) (after-Reach l)

abbrev waits : ℕ → Choice ℕ
waits h = record { call = wait 0 h; spurious = false }

abbrev sets : ℕ → Choice ℕ
sets v = record { call = set v; spurious = false }

-- Coroutines 2 and 3 are suspended.
abbrev hung : List (ℕ × Choice ℕ)
hung =
    (1, waits 80)
    ∷ (1, waits 80)
    ∷ (1, waits 80)
    ∷ (1, waits 80)
    ∷ (0, waits 70)
    ∷ (0, waits 70)
    ∷ (0, waits 70)
    ∷ (0, waits 70)
    ∷ []

-- Coroutine 4 is in `set`, before the exchange.
abbrev about_to_set : List (ℕ × Choice ℕ)
about_to_set = (2, sets 5) ∷ hung

-- It has made the exchange.
abbrev walks_on : List (ℕ × Choice ℕ)
walks_on = (2, sets 5) ∷ about_to_set

-- It has woken coroutine 3, which has its result.
abbrev one_is_out : List (ℕ × Choice ℕ)
one_is_out = (1, waits 0) ∷ (2, sets 5) ∷ walks_on

walks_on_pcs :
    ((after walks_on).pc 2 ≡ parked)
    × ((after walks_on).pc 3 ≡ parked)
    × ((after walks_on).pc 4 ≡ walking 3)
    × ((after walks_on).mem.state ≡ 1)
    × ((after one_is_out).pc 3 ≡ returned (some 5))
    × ((after one_is_out).mem.world.tasks 0 ≡ 80 ∷ [])
unfolding exec init act
walks_on_pcs = (refl, refl, refl, refl, refl, refl)

wakeup_owed_example :
    ((after walks_on).mem.state ≢ 1)
    ⊎ ((j : ℕ) × (q : ℕ) × ((after walks_on).pc j ≡ walking q) × (q ≢ 0))
unfolding exec init act
wakeup_owed_example = wakeup_owed plain (omega arith) (after-Reach walks_on) 2 refl

result_after_set_example :
    ((after one_is_out).mem.state ≡ 1) × (false ≡ false → given {V = ℕ} (some 5) ≡ true)
unfolding exec init act
result_after_set_example =
    result_after_set plain (omega arith) (after-Reach one_is_out) 3 (some 5) refl

one_waker_run : ◌≡◌ {A = ℕ} 4 4
unfolding exec init act
one_waker_run = one_waker plain (omega arith) (after-Reach walks_on) 4 4 refl refl

set_twice : (exec plain 1 (after walks_on) 5 (waits 60)).mem.state ≡ 1
unfolding exec init act
set_twice = stays_set plain (omega arith) (after-Reach walks_on) 5 (waits 60) refl

set_wakes_all_example :
    (xs : List ℕ) × Chain (after about_to_set).mem.next (after about_to_set).mem.state xs
    × ((j : ℕ) → count j xs ≡ waiting ((after about_to_set).pc j))
    × (solo plain 1 (suc (suc (length xs))) (after about_to_set) 4 (sets 5)
        ≡ all_woken plain 1 (after about_to_set) 4 xs)
unfolding exec init act
set_wakes_all_example =
    set_wakes_all plain 1 4 (sets 5) (omega arith) (after-Reach about_to_set) refl (omega arith)
