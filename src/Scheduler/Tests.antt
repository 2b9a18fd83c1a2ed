-- ===== src/Scheduler/Tests.antt =====
-- Runs of src/scheduler.cpp, and its theorems at them.
use tiny_coro_lab.Prelude.{ℕ, ◌+◌, ◌%◌, ◌≡◌, ◌<◌, ◌↔◌, refl, arith}
use tiny_coro_lab.Contexts.Plain.{Ledger, plain, quiet}
use tiny_coro_lab.Scheduler.{
  int_mod, submit, report, subtracting, stopping, System, act, exec, init, Reach, start, later,
}
use tiny_coro_lab.Scheduler.Sum.{sum}
use tiny_coro_lab.Scheduler.Counts.{adds, subs}
use tiny_coro_lab.Scheduler.Token.{token-balance, token-busy, stop-idle}

abbrev notify : ℕ → Ledger → Ledger
notify i w = w

-- Thread 0 submits a task to context 0 of one context; the callback of that context runs in thread 1.
abbrev submitted : System Ledger
submitted =
    exec plain notify 1 (exec plain notify 1 (init plain notify 1 quiet) 0 (submit 70)) 0
      (submit 70)

submitted-Reach : Reach plain notify 1 2 quiet submitted
submitted-Reach =
    later 0 (submit 70) (omega arith) refl (later 0 (submit 70) (omega arith) refl start)

abbrev cleared : System Ledger
cleared =
    exec plain notify 1 (exec plain notify 1 (init plain notify 1 quiet) 1 (report 0)) 1 (report 0)

cleared-Reach : Reach plain notify 1 2 quiet cleared
cleared-Reach = later 1 (report 0) (omega arith) refl (later 1 (report 0) (omega arith) refl start)

cleared_pcs :
    (cleared.pc 1 ≡ subtracting 1)
    × (cleared.mem.stop_token ≡ 1)
    × ((exec plain notify 1 cleared 1 (report 0)).pc 1 ≡ stopping 0)
unfolding exec init act
cleared_pcs = (refl, refl, refl)

token-balance_example :
    (cleared.mem.stop_token + sum (λ t. adds (cleared.pc t)) 2) % int_mod
    ≡ (sum cleared.mem.ctx_stop_flag 1 + sum (λ t. subs (cleared.pc t)) 2) % int_mod
token-balance_example = token-balance plain notify (omega arith) (omega arith) cleared-Reach

token-busy_run : submitted.mem.stop_token ≡ sum submitted.mem.ctx_stop_flag 1
unfolding exec init act
token-busy_run =
    token-busy plain notify (omega arith) (omega arith) submitted-Reach
      (λ t. (ground arith, ground arith))

stop-idle_example :
    ((exec plain notify 1 cleared 1 (report 0)).pc 1 ≡ stopping 0)
    ↔ ((i : ℕ) → i < 1 → cleared.mem.ctx_stop_flag i ≡ 0)
unfolding exec init act
stop-idle_example =
    stop-idle plain notify (omega arith) (omega arith) 1 1 (report 0) cleared-Reach (omega arith)
      refl (λ u ne. (ground arith, ground arith))
