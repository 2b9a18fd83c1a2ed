-- ===== src/Task/Tests.antt =====
-- A run of include/coro/task.hpp, and its theorems at it.
use tiny_coro_lab.Prelude.{ℕ, ◌≡◌, refl, true, arith}
use tiny_coro_lab.Task.{
  alive, normal, Frames, creates, moves, step, nothing, Reach, start, later, create, move,
}
use tiny_coro_lab.Task.Owned.{sole_owner}

-- Task 1 gets the frame 70, and task 2 takes it over.
abbrev taken_over : Frames
taken_over = move 1 2 (create 1 70 nothing)

taken_over-Reach : Reach taken_over
unfolding step create move
taken_over-Reach =
    later (moves 1 2) (omega arith, refl) refl
      (later (creates 1 70) (refl, omega arith, refl) refl start)

sole_owner_example :
    (alive (taken_over.life (taken_over.task 2)) ≡ true)
    × (taken_over.state (taken_over.task 2) ≡ normal)
    × ((u : ℕ) → taken_over.task 2 ≡ taken_over.task u → 2 ≡ u)
unfolding create move
sole_owner_example = sole_owner taken_over-Reach 2 (omega arith)
