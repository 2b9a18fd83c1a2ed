-- ===== src/WaitGroup.antt =====
-- include/coro/comp/wait_group.hpp and src/comp/wait_group.cpp: a counter, and the coroutines that
-- wait for it to reach zero. A coroutine is named by the address of its awaiter; a step makes at most
-- one access to `m_count` or `m_state`, and the steps of all coroutines interleave (sequentially
-- consistent). The counter is a 32-bit word; a negative argument of `add` is its word.
pub mod Invariant
pub mod Moves
pub mod Preserved
pub mod Safety
pub mod Waking
pub mod Lost
pub mod Tally
mod Tests
use tiny_coro_lab.Prelude.{
  ℕ, ◌+◌, ◌-◌, ◌%◌, ◌^◌, ◌<◌, Bool, true, false, update, ◌==◌, if◌then◌else◌,
}
use tiny_coro_lab.Contexts.{Contexts}

-- `std::int32_t` wraps at this number.
abbrev pub count_mod : ℕ
count_mod = 2 ^ 32

-- `wait_group`, the fields of every awaiter, and the contexts.
pub record Mem (W : Type 0) : Type 0 where
  pub count : ℕ
  pub state : ℕ
  pub ctx : ℕ → ℕ
  pub next : ℕ → ℕ
  pub await_coro : ℕ → ℕ
  pub world : W

pub data Pc : Type 0 where
  idle : Pc
  checking : Pc  -- head of the loop in `await_suspend`
  loading : Pc  -- the counter was not zero
  linked : (old : ℕ) → Pc  -- `m_next` is written, before the compare-exchange
  parked : Pc  -- suspended
  resuming : Pc  -- before `await_resume`
  draining : Pc  -- in `done`, which took the counter to zero, before the exchange
  walking : (head : ℕ) → Pc  -- head of the loop in `done`

pub data Call : Type 0 where
  wait : (ctx handle : ℕ) → Call
  add : ℕ → Call
  done : Call

pub record Choice : Type 0 where
  pub call : Call
  pub spurious : Bool

module _ (C : Contexts) where
  open C use {World, register_wait, unregister_wait, submit_task}

  -- `wait` makes the awaiter, and `await_suspend` saves the handle and registers the wait.
  begin_wait : ℕ → ℕ → ℕ → Mem World → Mem World × Pc
  begin_wait c handle me m = (
    record m {
      ctx = update m.ctx me c;
      next = update m.next me 0;
      await_coro = update m.await_coro me handle;
      world = register_wait c 1 m.world;
    },
    checking,
  )

  add_step : ℕ → Mem World → Mem World × Pc
  add_step n m = (record m { count = (m.count + n) % count_mod }, idle)

  -- The fetch-and-subtract of `done`, and its branch on the old value.
  done_step : Mem World → Mem World × Pc
  done_step m = (
    record m { count = (m.count + count_mod - 1) % count_mod },
    if m.count == 1 then draining else idle,
  )

  begin : Call → ℕ → Mem World → Mem World × Pc
  unfolding begin_wait add_step done_step
  begin (wait c handle) me m = begin_wait c handle me m
  begin (add n) me m = add_step n m
  begin done me m = done_step m

  -- The load of the counter in the loop of `await_suspend`.
  check_count : Mem World → Mem World × Pc
  check_count m = (m, if m.count == 0 then resuming else loading)

  load_state : ℕ → Mem World → Mem World × Pc
  load_state me m = (record m { next = update m.next me m.state }, linked m.state)

  cas_push : Bool → ℕ → ℕ → Mem World → Mem World × Pc
  cas_push true old me m = (m, checking)
  cas_push false old me m =
      if m.state == old then (record m { state = me }, parked) else (m, checking)

  await_resume : ℕ → Mem World → Mem World × Pc
  await_resume me m = (record m { world = unregister_wait (m.ctx me) 1 m.world }, idle)

  -- The exchange of `done`.
  take_all : Mem World → Mem World × Pc
  take_all m = (record m { state = 0 }, walking m.state)

  -- One round of the loop in `done`: the link is read before the coroutine is submitted.
  resume_round : ℕ → Mem World → Mem World × Pc
  resume_round head m = if head == 0 then (m, idle) else (
    record m { world = submit_task (m.ctx head) (m.await_coro head) m.world },
    walking (m.next head),
  )

  -- One step of one coroutine.
  pub act : Choice → ℕ → Pc → Mem World → Mem World × Pc
  unfolding begin check_count load_state cas_push await_resume take_all resume_round
  act c me idle m = begin c.call me m
  act c me checking m = check_count m
  act c me loading m = load_state me m
  act c me (linked old) m = cas_push c.spurious old me m
  act c me parked m = (m, parked)
  act c me resuming m = await_resume me m
  act c me draining m = take_all m
  act c me (walking p) m = resume_round p m

-- The coroutine that a round submits stands before `await_resume` when its context runs it.
abbrev pub wake : Pc → (ℕ → Pc) → ℕ → Pc
wake (walking p) pc = if p == 0 then pc else update pc p resuming
wake _ pc = pc

pub record System (W : Type 0) : Type 0 where
  pub mem : Mem W
  pub pc : ℕ → Pc

module _ (C : Contexts) where
  open C use {World}

  pub exec : System World → ℕ → Choice → System World
  exec s i c =
      let (m, p) = act C c i (s.pc i) s.mem in
      record { mem = m; pc = wake (s.pc i) (update s.pc i p) }

  -- The constructor `wait_group(count)`.
  pub init : ℕ → World → System World
  init count w = record {
    mem = record {
      count = count % count_mod;
      state = 0;
      ctx = λ _. 0;
      next = λ _. 0;
      await_coro = λ _. 0;
      world = w;
    };
    pc = λ _. idle;
  }

  -- What any interleaving reaches.
  pub data Reach (count : ℕ) (w : World) : System World → Type 0 where
    start : Reach count w (init count w)
    later :
        {s : System World} (i : ℕ) (c : Choice)
        → 1 < i
        → Reach count w s
        → Reach count w (exec s i c)

abbrev pub waiting : Pc → ℕ
waiting parked = 1
waiting _ = 0

abbrev pub walks : Pc → Bool
walks (walking _) = true
walks _ = false
