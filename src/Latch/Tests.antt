-- ===== src/Latch/Tests.antt =====
-- Runs of include/coro/comp/latch.hpp, and its theorems at them.
use tiny_coro_lab.Prelude.{ℕ, ◌+◌, ◌≡◌, ◌≤◌, refl, ◌≢◌, false, List, [], ◌∷◌, arith, some}
use tiny_coro_lab.Contexts.Plain.{Ledger, plain, quiet}
use tiny_coro_lab.Event
use tiny_coro_lab.Event.{idle, parked, resuming, returned, setting, walking, walks}
use tiny_coro_lab.Event.Opening.{Opening, walk_reads_suspended}
use tiny_coro_lab.Latch.{
  wait, count_down, Choice, System, counts, step, count_down_step, exec, init, Reach, start, later,
}
use tiny_coro_lab.Latch.Opens.{Reach-event, opens_at_last, none_early, none_forgotten}

-- A latch for 2, its event at address 1; coroutine number `n` has the address `n + 2`.
abbrev after : List (ℕ × Choice) → System Ledger
after [] = init plain 1 2 quiet
after ((n, c) ∷ l) = exec plain 1 (after l) (n + 2) c

abbrev begun : List (ℕ × Choice) → ℕ
begun [] = 0
begun ((n, c) ∷ l) = begun l + counts ((after l).event.pc (n + 2)) c.call

after-Reach : (l : List (ℕ × Choice)) → Reach plain 1 2 quiet (begun l) (after l)
after-Reach [] = start
after-Reach ((n, c) ∷ l) = later (n + 2) c (omega arith) (omega arith) (after-Reach l)

abbrev waits : Choice
waits = record { call = wait 0 70; spurious = false }

abbrev downs : Choice
downs = record { call = count_down; spurious = false }

-- Coroutine 2 is suspended.
abbrev hung : List (ℕ × Choice)
hung = (0, waits) ∷ (0, waits) ∷ (0, waits) ∷ (0, waits) ∷ []

-- Coroutines 3 and 4 have counted down, and coroutine 4 is past the exchange.
abbrev walks_on : List (ℕ × Choice)
walks_on = (2, downs) ∷ (2, downs) ∷ (1, downs) ∷ hung

-- Coroutine 2 has its result, and coroutine 4 has returned.
abbrev all_out : List (ℕ × Choice)
all_out = (2, downs) ∷ (0, waits) ∷ (2, downs) ∷ walks_on

all_out_pcs :
    ((after hung).event.pc 2 ≡ parked)
    × ((after walks_on).event.pc 3 ≡ idle)
    × ((after walks_on).event.pc 4 ≡ walking 2)
    × ((after all_out).event.pc 4 ≡ idle)
    × ((after all_out).count ≡ 0)
    × (begun all_out ≡ 2)
unfolding exec init step count_down_step Event.exec Event.init Event.act
all_out_pcs = (refl, refl, refl, refl, refl, refl)

Reach-event_run : Event.Reach plain 1 false quiet (after walks_on).event
Reach-event_run = Reach-event plain (after-Reach walks_on)

walk_reads_suspended_run : (after walks_on).event.pc 2 ≡ parked
unfolding exec init step count_down_step Event.exec Event.init Event.act
walk_reads_suspended_run =
    walk_reads_suspended plain 4 2 (omega arith) (Reach-event plain (after-Reach walks_on)) refl
      (omega arith)

opens_at_last_example :
    (Opening 1 (after walks_on).event → 2 ≤ begun walks_on)
    × (2 ≤ begun walks_on → Opening 1 (after walks_on).event)
unfolding exec init step count_down_step Event.exec Event.init Event.act
opens_at_last_example =
    opens_at_last plain (omega arith) (omega arith) (omega arith) (after-Reach walks_on)

none_early_run : 2 ≤ begun all_out
unfolding exec init step count_down_step Event.exec Event.init Event.act
none_early_run =
    none_early plain (omega arith) (omega arith) (omega arith) (after-Reach all_out) 2 (some tt)
      refl

none_forgotten_example : (after all_out).event.pc 2 ≢ parked
unfolding exec init step count_down_step Event.exec Event.init Event.act
none_forgotten_example =
    none_forgotten plain (omega arith) (omega arith) (omega arith) (after-Reach all_out)
      (omega arith) (λ j. (ground arith, ground arith)) 2
