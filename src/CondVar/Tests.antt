-- ===== src/CondVar/Tests.antt =====
-- Runs of src/comp/condition_variable.cpp, and its theorems at them.
use tiny_coro_lab.Prelude.{ℕ, ◌≡◌, refl, Bool, true, false, Option, none, [], ◌∷◌, ◌++◌, arith}
use tiny_coro_lab.Contexts.Plain.{Ledger, plain, quiet}
use tiny_coro_lab.CondVar.{
  CondVar, register_cv, count_wait, submit, take_arrivals, unlock_queue, unlock, resume, wake_up,
  wait, notify_one, notify_all, holds, fails, wake_list,
}
use tiny_coro_lab.CondVar.NotifyAll.{notify_all-queue}
use tiny_coro_lab.CondVar.Shape.{Listed, register_cv-Listed, notify_one-oldest}

-- No awaiter has a predicate.
abbrev no_cond : ℕ → Ledger → Option Bool
no_cond i w = none

abbrev fresh : CondVar Ledger
fresh = record {
  head = 0;
  tail = 0;
  next = λ _. 0;
  suspend_state = λ _. false;
  ctx = λ _. 0;
  await_coro = λ _. 0;
  locked = true;
  mutex_head = 0;
  mutex_taken = 0;
  mutex_queue = [];
  world = quiet;
  resumed = [];
}

fresh-Listed : Listed fresh []
fresh-Listed = record { chain = refl; tail = refl; once = λ j. omega arith }

abbrev one : CondVar Ledger
one = register_cv plain no_cond 5 fresh

one-Listed : Listed one (5 ∷ [])
one-Listed = register_cv-Listed plain no_cond fresh [] 5 (omega arith) refl fresh-Listed

abbrev two : CondVar Ledger
two = register_cv plain no_cond 6 one

-- Two coroutines wait, each with the lock, and both are woken.
abbrev both_wait : CondVar Ledger
both_wait =
    (wait plain no_cond 0 80 6 (record (wait plain no_cond 0 70 5 fresh).1 { locked = true })).1

both_woken :
    (both_wait.head ≡ 5)
    × (both_wait.tail ≡ 6)
    × ((notify_all plain no_cond 3 both_wait).resumed ≡ 5 ∷ [])
    × ((notify_all plain no_cond 3 both_wait).mutex_queue ≡ 6 ∷ [])
    × ((unlock plain no_cond (notify_all plain no_cond 3 both_wait)).resumed ≡ 5 ∷ 6 ∷ [])
unfolding wait holds fails register_cv count_wait unlock unlock_queue take_arrivals notify_all
    wake_list wake_up resume submit
both_woken = (refl, refl, refl, refl, refl)

two-Listed : Listed two (5 ∷ 6 ∷ [])
two-Listed = register_cv-Listed plain no_cond one (5 ∷ []) 6 (omega arith) (omega arith) one-Listed

register_cv-Listed_run : Listed two (5 ∷ 6 ∷ [])
register_cv-Listed_run =
    register_cv-Listed plain no_cond one (5 ∷ []) 6 (omega arith) (omega arith) one-Listed

notify_one-oldest_run :
    (m2 : CondVar Ledger) × (notify_one plain no_cond two ≡ wake_up plain no_cond 5 m2)
    × Listed m2 (6 ∷ [])
    × (m2.mutex_queue ≡ two.mutex_queue)
    × (m2.resumed ≡ two.resumed)
notify_one-oldest_run = notify_one-oldest plain no_cond two 5 (6 ∷ []) two-Listed

notify_all-queue_example :
    ((notify_all plain no_cond 3 two).mutex_queue ≡ [] ++ 5 ∷ 6 ∷ [])
    × Listed (notify_all plain no_cond 3 two) []
    × ((notify_all plain no_cond 3 two).resumed ≡ [])
unfolding register_cv
notify_all-queue_example = notify_all-queue plain no_cond two (5 ∷ 6 ∷ []) two-Listed refl
