-- ===== src/WaitGroup/Tests.antt =====
-- Runs of src/comp/wait_group.cpp, and its theorems at them.
use tiny_coro_lab.Prelude.{
  ℕ, suc, ◌+◌, ◌-◌, ◌≤◌, ◌≡◌, refl, false, List, [], ◌∷◌, arith, count, length, ◌⊎◌,
}
use tiny_coro_lab.Contexts.Plain.{Ledger, plain, quiet}
use tiny_coro_lab.Waiters.{Chain}
use tiny_coro_lab.WaitGroup.{
  Choice, wait, done, idle, parked, resuming, walking, waiting, System, exec, init, act, Reach,
  start, later,
}
use tiny_coro_lab.WaitGroup.Safety.{reads_suspended, resumed_once, suspended_found}
use tiny_coro_lab.WaitGroup.Waking.{solo, all_woken, done_wakes_all}
use tiny_coro_lab.WaitGroup.Lost.{in_done, Calls, Still, lost_wakeup}
use tiny_coro_lab.WaitGroup.Tally.{Countdown, waits_for_all}

-- Coroutine number `n` has the address `n + 2`; the latest step stands first.
abbrev after : List (ℕ × Choice) → System Ledger
after [] = init plain 2 quiet
after ((n, c) ∷ l) = exec plain (after l) (n + 2) c

after-Reach : (l : List (ℕ × Choice)) → Reach plain 2 quiet (after l)
after-Reach [] = start
after-Reach ((n, c) ∷ l) = later (n + 2) c (omega arith) (after-Reach l)

abbrev waits : ℕ → Choice
waits h = record { call = wait 0 h; spurious = false }

abbrev dones : Choice
dones = record { call = done; spurious = false }

-- Coroutines 2 and 3 are suspended.
abbrev hung : List (ℕ × Choice)
hung =
    (1, waits 80)
    ∷ (1, waits 80)
    ∷ (1, waits 80)
    ∷ (1, waits 80)
    ∷ (0, waits 70)
    ∷ (0, waits 70)
    ∷ (0, waits 70)
    ∷ (0, waits 70)
    ∷ []

-- Both calls of `done` have counted, the second by coroutine 5.
abbrev counted : List (ℕ × Choice)
counted = (3, dones) ∷ (2, dones) ∷ hung

abbrev walks_on : List (ℕ × Choice)
walks_on = (3, dones) ∷ counted

abbrev one_is_out : List (ℕ × Choice)
one_is_out = (3, dones) ∷ walks_on

one_is_out_pcs :
    ((after counted).pc 4 ≡ idle)
    × ((after walks_on).pc 5 ≡ walking 3)
    × ((after one_is_out).pc 5 ≡ walking 2)
    × ((after one_is_out).pc 3 ≡ resuming)
    × ((after one_is_out).pc 2 ≡ parked)
    × ((after one_is_out).mem.world.tasks 0 ≡ 80 ∷ [])
unfolding exec init act
one_is_out_pcs = (refl, refl, refl, refl, refl, refl)

reads_suspended_run : (after walks_on).pc 3 ≡ parked
unfolding exec init act
reads_suspended_run = reads_suspended plain (after-Reach walks_on) 5 3 refl (omega arith)

resumed_once_run : ◌≡◌ {A = ℕ} 5 5
unfolding exec init act
resumed_once_run = resumed_once plain (after-Reach walks_on) 5 5 3 refl refl (omega arith)

suspended_found_run :
    ((xs : List ℕ) × Chain (after one_is_out).mem.next (after one_is_out).mem.state xs
      × (count 2 xs ≡ 1))
    ⊎ ((j : ℕ) × (q : ℕ) × (ys : List ℕ) × ((after one_is_out).pc j ≡ walking q)
        × Chain (after one_is_out).mem.next q ys
        × (count 2 ys ≡ 1))
unfolding exec init act
suspended_found_run = suspended_found plain (after-Reach one_is_out) 2 refl

done_wakes_all_example :
    (xs : List ℕ) × Chain (after counted).mem.next (after counted).mem.state xs
    × ((j : ℕ) → count j xs ≤ waiting ((after counted).pc j))
    × (solo plain (suc (suc (length xs))) (after counted) 5 dones
        ≡ all_woken plain (after counted) 5 xs)
unfolding exec init act
done_wakes_all_example = done_wakes_all plain 5 dones (after-Reach counted) refl

counts_down : Countdown plain 2 quiet 2 (after one_is_out)
unfolding exec init act
counts_down = Countdown.later 5 dones refl (
    Countdown.later 5 dones refl (
      Countdown.later 5 dones refl (
        Countdown.later 4 dones refl (
          Countdown.later 3 (waits 80) refl (
            Countdown.later 3 (waits 80) refl (
              Countdown.later 3 (waits 80) refl (
                Countdown.later 3 (waits 80) refl (
                  Countdown.later 2 (waits 70) refl (
                    Countdown.later 2 (waits 70) refl (
                      Countdown.later 2 (waits 70) refl
                        (Countdown.later 2 (waits 70) refl (Countdown.start))))))))))))

waits_for_all_example :
    ((after one_is_out).mem.count ≡ 2 - 2)
    × ((i : ℕ) → (after one_is_out).pc i ≡ resuming → (after one_is_out).mem.count ≡ 0)
waits_for_all_example = waits_for_all plain (omega arith) counts_down (omega arith)

lost_wakeup_example :
    (s : System Ledger) × Calls plain quiet 1 1 s
    × (s.mem.count ≡ 0)
    × ((j : ℕ) → in_done (s.pc j) ≡ false)
    × ((t : System Ledger) → Still plain s t → t.pc 2 ≡ parked)
lost_wakeup_example = lost_wakeup plain quiet
