-- ===== src/Mutex.antt =====
-- include/coro/comp/mutex.hpp and src/comp/mutex.cpp: the coroutine mutex. Each coroutine is a
-- thread of the model, named by the address of the awaiter that it uses; a step of a thread makes
-- at most one access to the atomic word `m_state`, and the accesses of all threads interleave in
-- any order (sequentially consistent).
pub mod Spec
pub mod Invariant
pub mod Moves
pub mod Refinement
pub mod Steps
pub mod Implements
pub mod Safety
pub mod Progress
mod Tests
use tiny_coro_lab.Prelude.{
  ℕ, zero, suc, ◌≡◌, Bool, true, false, List, [], ◌∷◌, Option, none, some, update, ◌==◌, ◌<◌,
  if◌then◌else◌,
}
use tiny_coro_lab.Contexts.{Contexts}

-- `awaiter_ptr` 1: not locked; 0, which is `nullptr`: locked and nobody waits.
abbrev pub nolocked : ℕ
nolocked = 1

abbrev pub locked_no_waiting : ℕ
locked_no_waiting = 0

-- The two members of `mutex`, the fields `m_ctx`, `m_next` and `m_await_coro` of every awaiter, and
-- the contexts.
pub record Mem (W : Type 0) : Type 0 where
  pub state : ℕ
  pub resume_list_head : ℕ
  pub ctx : ℕ → ℕ
  pub next : ℕ → ℕ
  pub await_coro : ℕ → ℕ
  pub world : W

-- Where a coroutine stands in the mutex's code, with the local variables that are live there.
pub data Pc : Type 0 where
  idle : Pc  -- outside the mutex
  loading : Pc  -- head of the loop in `register_lock`
  try_free : Pc  -- `state` was `nolocked`, before the compare-exchange
  linked : (state : ℕ) → Pc  -- `m_next` is written, before the other compare-exchange
  parked : Pc  -- suspended
  acquired : Pc  -- has the lock, before `await_resume`
  owner : Pc  -- in its critical section
  unlock_cas : Pc  -- `m_resume_list_head` was empty, before the compare-exchange
  unlock_take : Pc  -- before the exchange
  reversing : (awaiter to_resume : ℕ) → Pc  -- the body of the `do`
  popping : (to_resume : ℕ) → Pc  -- before the write of `m_resume_list_head`
  handing : (to_resume : ℕ) → Pc  -- before `to_resume->resume()`

-- What an idle coroutine does next: `co_await mtx.lock()` in a context, with its own handle, or
-- `mtx.try_lock()`.
pub data Call : Type 0 where
  lock : (ctx handle : ℕ) → Call
  try_lock : Call

-- What the environment decides in a step: the call, and whether a weak compare-exchange fails
-- though the values are equal.
pub record Choice : Type 0 where
  pub call : Call
  pub spurious : Bool

module _ (C : Contexts) where
  open C use {World, register_wait, unregister_wait, submit_task}

  -- `try_lock` is one strong compare-exchange.
  try_lock_step : Mem World → Mem World × Pc
  try_lock_step m =
      if m.state == nolocked then (record m { state = locked_no_waiting }, owner) else (m, idle)

  -- `lock` makes the awaiter; `await_suspend` saves the handle and registers the wait.
  begin : Call → ℕ → Mem World → Mem World × Pc
  unfolding try_lock_step
  begin (lock c handle) me m = (
    record m {
      ctx = update m.ctx me c;
      next = update m.next me 0;
      await_coro = update m.await_coro me handle;
      world = register_wait c 1 m.world;
    },
    loading,
  )
  begin try_lock me m = try_lock_step m

  -- The load at the head of the loop in `register_lock`, up to a compare-exchange.
  load_state : ℕ → Mem World → Mem World × Pc
  load_state me m =
      if m.state == nolocked
      then (record m { next = update m.next me 0 }, try_free)
      else (record m { next = update m.next me m.state }, linked m.state)

  -- The compare-exchange from `nolocked`: on success `register_lock` returns false.
  cas_free : Bool → Mem World → Mem World × Pc
  cas_free true m = (m, loading)
  cas_free false m =
      if m.state == nolocked
      then (record m { state = locked_no_waiting }, acquired)
      else (m, loading)

  -- The compare-exchange that makes this awaiter the head: on success `register_lock` returns true.
  cas_push : Bool → ℕ → ℕ → Mem World → Mem World × Pc
  cas_push true old me m = (m, loading)
  cas_push false old me m =
      if m.state == old then (record m { state = me }, parked) else (m, loading)

  await_resume : ℕ → Mem World → Mem World × Pc
  await_resume me m = (record m { world = unregister_wait (m.ctx me) 1 m.world }, owner)

  -- The start of `unlock`: the branch on `m_resume_list_head`.
  unlock_start : Mem World → Mem World × Pc
  unlock_start m =
      if m.resume_list_head == 0 then (m, unlock_cas) else (m, popping m.resume_list_head)

  -- The strong compare-exchange of `unlock`: on success nobody waits and `unlock` returns.
  cas_unlock : Mem World → Mem World × Pc
  cas_unlock m =
      if m.state == locked_no_waiting
      then (record m { state = nolocked }, idle)
      else (m, unlock_take)

  take_all : Mem World → Mem World × Pc
  take_all m = (record m { state = locked_no_waiting }, reversing m.state 0)

  -- One round of the `do ... while` that reverses the list.
  reverse_round : ℕ → ℕ → Mem World → Mem World × Pc
  reverse_round awaiter to_resume m =
      let temp = m.next awaiter in
      (
        record m { next = update m.next awaiter to_resume },
        if temp == 0 then popping awaiter else reversing temp awaiter,
      )

  pop_head : ℕ → Mem World → Mem World × Pc
  pop_head to_resume m = (record m { resume_list_head = m.next to_resume }, handing to_resume)

  -- `mutex_awaiter::resume`: the coroutine goes back to the queue of its context.
  resume : ℕ → Mem World → Mem World × Pc
  resume to_resume m =
      (record m { world = submit_task (m.ctx to_resume) (m.await_coro to_resume) m.world }, idle)

  -- One step of one coroutine. An `owner` that is picked calls `unlock`; a suspended coroutine does
  -- not move by itself.
  pub act : Choice → ℕ → Pc → Mem World → Mem World × Pc
  unfolding begin load_state cas_free cas_push await_resume unlock_start cas_unlock take_all
      reverse_round pop_head resume
  act c me idle m = begin c.call me m
  act c me loading m = load_state me m
  act c me try_free m = cas_free c.spurious m
  act c me (linked old) m = cas_push c.spurious old me m
  act c me parked m = (m, parked)
  act c me acquired m = await_resume me m
  act c me owner m = unlock_start m
  act c me unlock_cas m = cas_unlock m
  act c me unlock_take m = take_all m
  act c me (reversing a t) m = reverse_round a t m
  act c me (popping t) m = pop_head t m
  act c me (handing t) m = resume t m

-- The coroutine that `resume` submits stands behind the suspension when its context runs it.
abbrev pub wake : Pc → (ℕ → Pc) → ℕ → Pc
wake (handing t) pc = update pc t acquired
wake _ pc = pc

pub record System (W : Type 0) : Type 0 where
  pub mem : Mem W
  pub pc : ℕ → Pc

module _ (C : Contexts) where
  open C use {World}

  -- Coroutine `i` makes one step.
  pub exec : System World → ℕ → Choice → System World
  exec s i c =
      let (m, p) = act C c i (s.pc i) s.mem in
      record { mem = m; pc = wake (s.pc i) (update s.pc i p) }

  -- The mutex as constructed, and nobody in it.
  pub init : World → System World
  init w = record {
    mem = record {
      state = nolocked;
      resume_list_head = 0;
      ctx = λ _. 0;
      next = λ _. 0;
      await_coro = λ _. 0;
      world = w;
    };
    pc = λ _. idle;
  }

  -- What any interleaving of coroutines with proper addresses reaches.
  pub data Reach (w : World) : System World → Type 0 where
    start : Reach w (init w)
    later : {s : System World} (i : ℕ) (c : Choice) → 1 < i → Reach w s → Reach w (exec s i c)

-- Holds the lock, the code of `unlock` included.
abbrev pub holds : Pc → Bool
holds idle = false
holds loading = false
holds try_free = false
holds (linked _) = false
holds parked = false
holds _ = true

-- In its critical section.
abbrev pub critical : Pc → Bool
critical owner = true
critical _ = false

abbrev pub waiting : Pc → ℕ
waiting parked = 1
waiting _ = 0
