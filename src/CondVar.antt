-- ===== src/CondVar.antt =====
-- include/coro/comp/condition_variable.hpp and src/comp/condition_variable.cpp: a first-in first-out
-- list of awaiters beside a mutex. The list is only touched under the spinlock, and the mutex is what
-- Mutex.Spec says: an owner and a queue. A step here is a whole call; a mutex that hands the lock to an
-- awaiter calls its virtual `resume`, which may give the lock on at once.
pub mod Shape
pub mod NotifyAll
mod Tests
use tiny_coro_lab.Prelude.{
  ℕ, zero, suc, ◌+◌, ◌-◌, length, Bool, true, false, not, Option, none, some, List, [], ◌∷◌, ◌++◌,
  update, ◌==◌, if◌then◌else◌,
}
use tiny_coro_lab.Contexts.{Contexts}

-- The condition variable, the mutex that its awaiters use, the fields of the awaiters, and the contexts.
-- `mutex_queue` has all awaiters of the mutex in their order: the first `mutex_taken` of them stand in
-- `m_resume_list_head`, the others have arrived since in `m_state`, where `mutex_head` is the newest, to
-- which the mutex links the next one. The log of those handed back to their contexts is no field of
-- the code.
pub record CondVar (W : Type 0) : Type 0 where
  pub head : ℕ
  pub tail : ℕ
  pub next : ℕ → ℕ
  pub suspend_state : ℕ → Bool
  pub ctx : ℕ → ℕ
  pub await_coro : ℕ → ℕ
  pub locked : Bool
  pub mutex_head : ℕ
  pub mutex_taken : ℕ
  pub mutex_queue : List ℕ
  pub world : W
  pub resumed : List ℕ

-- `cond` gives the predicate of an awaiter, if it has one, at the state of the program.
module _ (C : Contexts) (cond : ℕ → C.World → Option Bool) where
  open C use {World, register_wait, unregister_wait, submit_task}

  -- A predicate that exists and is true, or that exists and is false.
  pub holds : Option Bool → Bool
  holds none = false
  holds (some b) = b

  pub fails : Option Bool → Bool
  fails none = false
  fails (some b) = not b

  abbrev as_count : Bool → ℕ
  as_count true = 1
  as_count false = 0

  -- `register_cv`: the awaiter goes to the end of the list.
  pub register_cv : ℕ → CondVar World → CondVar World
  register_cv me m =
      let cleared = update m.next me 0 in
      if m.tail == 0
      then record m { next = cleared; head = me; tail = me }
      else record m { next = update cleared m.tail me; tail = me }

  -- The wait is counted unless it is already.
  pub count_wait : ℕ → CondVar World → CondVar World
  count_wait me m = record m {
    world = register_wait (m.ctx me) (as_count (not (m.suspend_state me))) m.world;
    suspend_state = update m.suspend_state me true;
  }

  -- `mutex_awaiter::resume`.
  pub submit : ℕ → CondVar World → CondVar World
  submit me m = record m {
    world = submit_task (m.ctx me) (m.await_coro me) m.world;
    resumed = m.resumed ++ me ∷ [];
  }

  -- The links of those that `unlock` takes from `m_state`, in the order of their arrival.
  relink : List ℕ → (ℕ → ℕ) → ℕ → ℕ
  relink [] next = next
  relink (a ∷ []) next = update next a 0
  relink (a ∷ b ∷ l) next = update (relink (b ∷ l) next) a b

  -- When `m_resume_list_head` is empty, those that have arrived are taken, and `m_state` is emptied.
  pub take_arrivals : List ℕ → CondVar World → CondVar World
  unfolding relink
  take_arrivals q m =
      if m.mutex_taken == 0
      then record m { mutex_head = 0; mutex_taken = length q; next = relink q m.next }
      else m

  -- `unlock` with a queue: the first in it gets the lock, and its `resume` runs.
  pub unlock_queue : List ℕ → CondVar World → CondVar World
  unfolding register_cv count_wait submit fails take_arrivals
  unlock_queue [] m = record m { locked = false; mutex_head = 0; mutex_taken = 0; mutex_queue = [] }
  unlock_queue (t ∷ q) m =
      let taken = take_arrivals (t ∷ q) m in
      let handed = record taken { mutex_taken = taken.mutex_taken - 1; mutex_queue = q } in
      let again = unlock_queue q (register_cv t (count_wait t handed)) in
      if fails (cond t m.world) then again else submit t handed

  pub unlock : CondVar World → CondVar World
  unfolding unlock_queue
  unlock m = unlock_queue m.mutex_queue m

  -- `cv_awaiter::resume`, by a coroutine that has just got the lock.
  pub resume : ℕ → CondVar World → CondVar World
  unfolding unlock fails register_cv count_wait submit
  resume me m =
      if fails (cond me m.world) then unlock (register_cv me (count_wait me m)) else submit me m

  -- `wake_up`: the awaiter asks for the lock, and goes on at once if it has it.
  pub wake_up : ℕ → CondVar World → CondVar World
  unfolding resume
  wake_up me m =
      if m.locked
      then record m {
        next = update m.next me m.mutex_head;
        mutex_head = me;
        mutex_queue = m.mutex_queue ++ me ∷ [];
      }
      else resume me (record m { locked = true; next = update m.next me 0 })

  -- `wait` makes the awaiter, and `await_suspend` suspends it unless the predicate holds.
  pub wait : (ctx handle me : ℕ) → CondVar World → Bool × CondVar World
  unfolding holds register_cv count_wait unlock
  wait c handle me m =
      let made = record m {
        ctx = update m.ctx me c;
        next = update m.next me 0;
        await_coro = update m.await_coro me handle;
        suspend_state = update m.suspend_state me false;
      } in
      if holds (cond me m.world)
      then (false, made)
      else (true, unlock (register_cv me (count_wait me made)))

  pub await_resume : ℕ → CondVar World → CondVar World
  await_resume me m = record m {
    world = unregister_wait (m.ctx me) (as_count (m.suspend_state me)) m.world;
  }

  pub notify_one : CondVar World → CondVar World
  unfolding wake_up
  notify_one m =
      if m.head == 0
      then m
      else (let rest = m.next m.head in
          wake_up m.head (record m { head = rest; tail = if rest == 0 then 0 else m.tail }))

  -- The loop of `notify_all` on fuel: the link is read before the awaiter is woken.
  pub wake_list : (fuel head : ℕ) → CondVar World → CondVar World
  unfolding wake_up
  wake_list zero head m = m
  wake_list (suc fuel) head m =
      let rest = wake_list fuel (m.next head) (wake_up head m) in if head == 0 then m else rest

  pub notify_all : ℕ → CondVar World → CondVar World
  unfolding wake_list
  notify_all fuel m = wake_list fuel m.head (record m { head = 0; tail = 0 })
